-- ===== src/Tests.antt =====
-- Runs at concrete inputs, and the theorems applied at inputs that meet their hypotheses.
mod Protocol
mod Bridge
mod Gamepad
mod Tv
mod Context
pub mod Motion
mod Settings
mod Connection
mod Session
mod Keyboard
mod Pairing
mod Signaling
mod Transport
mod Trackpad
mod Studio
mod Haptics
pub mod Samples
