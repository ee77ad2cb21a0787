-- ===== src/Trackpad.antt =====
-- The trackpad of the client: features/trackpad/GestureRecognizer.ts.
pub mod State
pub mod Recognizer
pub mod Lifting
pub mod Run
pub mod Outputs
pub mod Held
pub mod Release
pub mod Taps
