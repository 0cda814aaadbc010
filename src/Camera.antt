-- ===== src/Camera.antt =====
-- The registry of cameras, and the camera of an overlay: helpers/camera_registry.hpp and overlay_target.hpp.
pub mod Entry
pub mod Fields
pub mod Loop
pub mod Registry
pub mod Stored
pub mod Written
pub mod Overlay
mod Tests
