-- ===== src/Vision/Pipeline.antt =====
-- src/vision/vision_pipeline.py: the detector's boxes and the visual tracker, joined by a state
-- machine. A method returns its result with the new state; a call that raises ends the run loop,
-- which drops the pipeline, so an error carries no state.
pub mod Config
pub mod Iou
pub mod Defs
pub mod Frame
pub mod Invariant
pub mod Results
pub mod Total
pub mod Runs
pub mod Blind
