-- ===== src/Backend/App/Video.antt =====
-- The video that the gateway serves, and what it tells of it (src/backend/app.py).
pub mod Clients
use aot_drone.Backend.State.{SharedState}
use aot_drone.Backend.Broadcast.{update_with}
use aot_drone.Runtime.{Runtime, zero_f}
use aot_drone.Backend.VideoHub.{
  record_frame_served, make_mjpeg_part, register_client, unregister_client, get_fresh_jpeg,
  VideoFrameHub, get_age_s,
}
use aot_drone.Common.{List, Bool, false, none, Option, ◌∷◌, leb, suc, ℕ, some, if◌then◌else◌, []}
use aot_drone.Backend.State.Views.{
  opt_float, get_link_status, count, LinkSettings, dict, opt_int, opt_count,
}
use aot_drone.Json.{object, null, Fields, put, bool, float}

-- `_runtime_*` as the routes of the status and the video read them
pub record VideoSettings (F : Type 0) : Type 0 where
  pub video_enabled : Bool
  pub video_fps : F
  pub frame_fresh_s : F
  -- `_render_synthetic_frame`, which draws with Pillow
  pub render_synthetic_frame : F → List ℕ

module _ (R : Runtime) (cfg : VideoSettings R.Float) where
  open R use {Float}

  -- `_build_video_status`
  unfoldable pub build_video_status : Float → Option (VideoFrameHub Float) → Fields Float
  unfolding get_age_s
  build_video_status now_s none = dict (
      ("video_enabled", bool cfg.video_enabled)
      ∷ ("video_clients", count 0)
      ∷ ("video_fps_est", float (zero_f R))
      ∷ ("last_frame_age_s", null)
      ∷ ("frames_rx_ok", count 0)
      ∷ ("frames_rx_bad", count 0)
      ∷ [])
  build_video_status now_s (some h) = dict (
      ("video_enabled", bool cfg.video_enabled)
      ∷ ("video_clients", count h.video_clients)
      ∷ ("video_fps_est", float h.video_fps_est)
      ∷ ("last_frame_age_s", opt_float (get_age_s R now_s h))
      ∷ ("frames_rx_ok", count h.frames_rx_ok)
      ∷ ("frames_rx_bad", count h.frames_rx_bad)
      ∷ [])

  -- `api_status`; `status` is what `get_link_status` gives
  unfoldable pub api_status :
      LinkSettings R → Float → SharedState Float → Option (VideoFrameHub Float) → Fields Float
  unfolding build_video_status
  api_status limits now_s shared hub =
      let status =
        update_with (get_link_status R shared limits now_s) (build_video_status now_s hub) in
      let c = shared.cmd in
      put "last_cmd_payload"
        (object (
          dict (
            ("last_cmd_seq", opt_int c.last_cmd_seq)
            ∷ ("last_cmd_desired_mode", opt_int c.last_cmd_desired_mode)
            ∷ ("last_cmd_had_tracking", bool c.last_cmd_had_tracking)
            ∷ ("last_cmd_bytes", opt_count c.last_cmd_bytes)
            ∷ [])))
        status

  abbrev or_synthetic : Float → Option (List ℕ) → List ℕ
  or_synthetic now_s none = cfg.render_synthetic_frame now_s
  or_synthetic now_s (some frame) = frame

  -- one part of the stream, at `now_s`
  unfoldable pub serve_part : Float → VideoFrameHub Float → List ℕ × VideoFrameHub Float
  unfolding get_fresh_jpeg record_frame_served make_mjpeg_part
  serve_part now_s h = (
    make_mjpeg_part (or_synthetic now_s (get_fresh_jpeg R cfg.frame_fresh_s now_s h)) "frame",
    record_frame_served R now_s h,
  )

  abbrev pub reaches : ℕ → Option ℕ → Bool
  reaches emitted_parts none = false
  reaches emitted_parts (some max_parts) = leb max_parts emitted_parts

  -- The parts at the times of `nows`, at the end of which the client is gone; between two of them
  -- the other threads may change the hub, as `others` says for each time.
  unfoldable pub serve_parts :
      Option ℕ
      → ℕ
      → List (Float × (VideoFrameHub Float → VideoFrameHub Float))
      → VideoFrameHub Float
      → List (List ℕ) × VideoFrameHub Float
  unfolding serve_part
  serve_parts max_parts emitted_parts [] h = ([], h)
  serve_parts max_parts emitted_parts ((now_s, others) ∷ nows) h =
      let (part, h') = serve_part now_s (others h) in
      let (parts, h'') = serve_parts max_parts (suc emitted_parts) nows h' in
      if reaches (suc emitted_parts) max_parts then (part ∷ [], h') else (part ∷ parts, h'')

  -- `stream_generator`
  unfoldable pub stream_generator :
      Option ℕ
      → List (Float × (VideoFrameHub Float → VideoFrameHub Float))
      → VideoFrameHub Float
      → List (List ℕ) × VideoFrameHub Float
  unfolding serve_parts register_client unregister_client
  stream_generator max_parts nows h =
      let (parts, h') = serve_parts max_parts 0 nows (register_client R h) in
      (parts, unregister_client R h')
