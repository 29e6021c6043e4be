-- ===== src/Editor.antt =====
-- frontend/src/editor: output sizes, the edit transform and its state.
pub mod OutputSize
pub mod Transform
pub mod Fit
pub mod Overlay
pub mod Reproject
pub mod Step
mod Tests
