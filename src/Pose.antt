-- ===== src/Pose.antt =====
-- frontend/src/pose: how the camera page follows a face and when it may take the photo.
pub mod Angles
pub mod FaceGeometry
pub mod Quality
pub mod StaticCheck
pub mod Tracking
pub mod Tracker
pub mod GuidanceText
mod Tests
