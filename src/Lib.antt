-- ===== src/Lib.antt =====
-- The ground-station side of the drone: the vision process (src/vision) and the gateway (src/backend).
--
-- The vision process follows one target through the frames of a camera and sends a VIS message per
-- frame over UDP. The gateway checks VIS and TEL datagrams, keeps the latest of each with its
-- counters in one shared state, takes the operator's intent over HTTP, and sends the flight
-- controller a command frame per tick, in which Tracking is let through only with fresh vision.
--
-- Common and Runtime hold what every part uses. Runtime is the Python runtime as a parameter: the
-- floats with their operations, and `Laws`, the laws of IEEE 754 that the proofs name. Runtime/Micros
-- is a runtime on which the model runs, with a proof of the laws. Json is the values of the `json`
-- module and the built-in conversions.
--
--   * src/backend/state.py: Backend/State is the class `SharedState`, with its methods in
--     State/Tel, State/Vis, State/Cmd and State/Views, and Backend/CmdSeq is its sequence numbers;
--   * src/backend/tel_schema.py, src/backend/vis_schema.py: Backend/Schema (the checks of a field),
--     Backend/TelSchema and Backend/VisSchema;
--   * src/backend/tel_ingest.py, src/backend/vis_ingest.py: Backend/Ingest (`process_datagram`) and
--     Backend/DropLog (the rate-limited log), and Backend/Datagrams with the callbacks of the broadcaster;
--   * src/backend/cmd_schema.py: Backend/CmdSchema, and `post_intent` of src/backend/app.py:
--     Backend/Intent;
--   * src/backend/cmd_bridge.py: Backend/CmdBridge, a round of its loop with the answer of the network;
--   * src/backend/ws_manager.py: Backend/WsManager, whose locked sections are steps of their own in
--     WsManager/Queues and WsManager/Sections; src/backend/rate_limit.py: Backend/RateLimit;
--   * src/backend/broadcast.py: Backend/Broadcast; src/backend/video_hub.py: Backend/VideoHub;
--   * src/backend/app.py: Backend/App, with the checks of the token in App/Auth, the environment in
--     App/Env, `_startup` in App/Startup, `post_frame` in App/Frames, the guarded routes in
--     App/Routes and the video in App/Video;
--   * src/vision/camera.py: Vision/Camera; src/vision/patterns.py: Vision/Patterns;
--   * src/vision/frame_pusher.py, src/vision/udp_vis_sender.py: Vision/Senders;
--   * `run_loop` of src/vision/main.py: Vision/RunLoop, one turn of it;
--   * src/vision/opencv_tracker.py: Vision/OpencvTracker, with the pipeline in OpencvTracker/Drive;
--     src/vision/yolo_detector.py: Vision/YoloDetector;
--   * src/vision/types.py: Vision/Types; src/vision/box_select.py: Vision/BoxSelect;
--   * src/vision/vision_pipeline.py: Vision/Pipeline, its configuration in Pipeline/Config, the
--     state and the short handlers in Pipeline/Defs, the others and `process_frame` in
--     Pipeline/Frame, and runs of frames in Pipeline/Runs;
--   * `SimpleTracker` of src/vision/tracker.py: Vision/SimpleTracker;
--   * `_build_vis_payload` of src/vision/main.py: Vision/Payload.
--
-- A call that may raise returns a `Result`. A method that changes an object takes and returns it
-- beside the result, since what it wrote before an error stays; only a frame of the vision pipeline
-- keeps no state with an error, which ends the loop around it. Every loop of the code runs over a
-- list or a fixed set of steps, so there is no fuel. Python's integers have no bound, and the wrap of
-- the sequence numbers and the four bytes of the frame length are written out.
--
-- What the network, OpenCV and Pillow answer is an argument of the step that asks, and so is a time
-- from the clock. Where a theorem speaks of what was sent or waited for, the state keeps a list of it,
-- which the comment at the record names.
--
-- Not modelled: sockets, threads, HTTP and the run loops around the modelled calls; ultralytics
-- and OpenCV, whose answers are arguments; `json`, of which the decoder is a parameter;
-- the argument parsers, drawing, and the scripts under scripts/dev;
-- the C++ flight controller (src/fc) and the browser (src/webapp).
pub mod Common
pub mod Runtime
pub mod Json
pub mod Backend
pub mod Vision
pub mod Examples
