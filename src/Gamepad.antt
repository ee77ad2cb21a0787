-- ===== src/Gamepad.antt =====
-- apps/web-client/src/features/gamepad: the state that the touch controls write.
pub mod Joystick
pub mod Centred
pub mod State
pub mod Buttons
pub mod Range
pub mod Sampler
pub mod Sampling
