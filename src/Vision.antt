-- ===== src/Vision.antt =====
-- src/vision: from camera frames to the messages that the backend receives.
pub mod Types
pub mod Camera
pub mod Senders
pub mod Patterns
pub mod BoxSelect
pub mod Pipeline
pub mod SimpleTracker
pub mod Payload
pub mod RunLoop
pub mod OpencvTracker
pub mod YoloDetector
