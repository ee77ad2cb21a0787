-- ===== src/Studio.antt =====
-- The layout studio of the client: features/studio.
pub mod Types
pub mod Presets
pub mod Storage
pub mod Elements
pub mod Layouts
pub mod Persistence
