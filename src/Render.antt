-- ===== src/Render.antt =====
-- frontend/src/render: the final picture.
pub mod Quality
pub mod Artifact
pub mod Geometry
pub mod Checks
pub mod Staging
mod Tests
