-- ===== src/Examples.antt =====
-- Runs of the model on fixed inputs, over the numbers of Runtime/Micros.
pub mod Gateway
pub mod Wire
pub mod Camera
pub mod Links
pub mod Events
pub mod Heard
pub mod Routes
pub mod Sight
pub mod Boxes
