-- ===== src/Backend/VideoHub.antt =====
-- `VideoFrameHub` (src/backend/video_hub.py): the last JPEG frame and the counters of the stream.
-- Each method runs under one lock, so it is one step.
use aot_drone.Backend.State.Tel.{age_of}
use aot_drone.Common.Int.{pos}
use aot_drone.Json.{float, Fields}
use aot_drone.Common.Texts.{str_of, encode_ascii}
use aot_drone.Common.{
  ℕ, ◌+◌, String, ◌∷◌, some, length, List, none, ◌-◌, ◌++◌, Option, if◌then◌else◌, [],
}
use aot_drone.Runtime.{one_f, max_f, Runtime, zero_f}
use aot_drone.Backend.State.Views.{count, opt_float, dict}
use Prim.Native.String.{◌++◌ as join}

pub record VideoFrameHub (F : Type 0) : Type 0 where
  pub latest_jpeg : Option (List ℕ)
  pub last_rx_monotonic_s : Option F
  pub frames_rx_ok : ℕ
  pub frames_rx_bad : ℕ
  pub video_clients : ℕ
  pub video_fps_est : F
  pub last_served_monotonic_s : Option F
  pub frames_served_total : ℕ

module _ (R : Runtime) where
  open R use {Float, decimal, lt, le, add, sub, mul, div}

  abbrev Hub : Type 0
  Hub = VideoFrameHub Float

  -- `__init__`
  abbrev pub new_hub : Hub
  new_hub = record {
    latest_jpeg = none;
    last_rx_monotonic_s = none;
    frames_rx_ok = 0;
    frames_rx_bad = 0;
    video_clients = 0;
    video_fps_est = zero_f R;
    last_served_monotonic_s = none;
    frames_served_total = 0;
  }

  unfoldable pub set_jpeg : List ℕ → Float → Hub → Hub
  set_jpeg jpeg_bytes now_s h = record h {
    latest_jpeg = some jpeg_bytes;
    last_rx_monotonic_s = some now_s;
    frames_rx_ok = h.frames_rx_ok + 1;
  }

  unfoldable pub record_bad_frame : Hub → Hub
  record_bad_frame h = record h { frames_rx_bad = h.frames_rx_bad + 1 }

  abbrev pub get_jpeg : Hub → Option (List ℕ)
  get_jpeg h = h.latest_jpeg

  abbrev fresh_in : Float → Float → Option (List ℕ) → Option Float → Option (List ℕ)
  fresh_in max_age_s now_s none rx_s = none
  fresh_in max_age_s now_s (some jpeg) none = none
  fresh_in max_age_s now_s (some jpeg) (some rx_s) =
      let age_s = max_f R (zero_f R) (sub now_s rx_s) in
      if lt max_age_s age_s then none else some jpeg

  unfoldable pub get_fresh_jpeg : Float → Float → Hub → Option (List ℕ)
  get_fresh_jpeg max_age_s now_s h = fresh_in max_age_s now_s h.latest_jpeg h.last_rx_monotonic_s

  unfoldable pub get_age_s : Float → Hub → Option Float
  get_age_s now_s h = age_of R h.last_rx_monotonic_s now_s

  unfoldable pub register_client : Hub → Hub
  register_client h = record h { video_clients = h.video_clients + 1 }

  -- `max(0, self._video_clients - 1)`
  unfoldable pub unregister_client : Hub → Hub
  unregister_client h = record h { video_clients = h.video_clients - 1 }

  -- the estimate after a frame that is served at `now_s`
  abbrev next_fps : Float → Option Float → Float → Float
  next_fps fps_est none now_s = fps_est
  next_fps fps_est (some prev_s) now_s =
      let delta_s = sub now_s prev_s in
      let inst_fps = div (one_f R) delta_s in
      if le delta_s (zero_f R)
      then fps_est
      else if le fps_est (zero_f R)
      then inst_fps
      else add (mul (decimal (pos 85) 2) fps_est) (mul (decimal (pos 15) 2) inst_fps)

  unfoldable pub record_frame_served : Float → Hub → Hub
  record_frame_served now_s h = record h {
    last_served_monotonic_s = some now_s;
    frames_served_total = h.frames_served_total + 1;
    video_fps_est = next_fps h.video_fps_est h.last_served_monotonic_s now_s;
  }

  unfoldable pub get_stats : Float → Hub → Fields Float
  unfolding get_age_s
  get_stats now_s h = dict (
      ("video_clients", count h.video_clients)
      ∷ ("video_fps_est", float h.video_fps_est)
      ∷ ("last_frame_age_s", opt_float (get_age_s now_s h))
      ∷ ("frames_rx_ok", count h.frames_rx_ok)
      ∷ ("frames_rx_bad", count h.frames_rx_bad)
      ∷ [])

-- `make_mjpeg_part`
unfoldable pub make_mjpeg_part : List ℕ → String → List ℕ
unfolding encode_ascii
make_mjpeg_part frame_bytes boundary =
    let header = join "--" (
      join boundary (
        join "\r\nContent-Type: image/jpeg\r\nContent-Length: "
          (join (str_of (length frame_bytes)) "\r\n\r\n"))) in
    encode_ascii header ++ (frame_bytes ++ encode_ascii "\r\n")
