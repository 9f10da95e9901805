-- ===== src/Vision/Pipeline/Frame.antt =====
-- `VisionPipeline.process_frame` and the methods that it calls in TARGET_DETECTED and TRACKING
-- (src/vision/vision_pipeline.py).
use aot_drone.Common.{
  ◌+◌, Bool, true, false, not, ◌||◌, if◌then◌else◌, Option, none, some, List, Result, ok, ◌>>=◌,
}
use aot_drone.Common.Int.{ℤ, pos, leb_ℤ}
use aot_drone.Runtime.{Runtime, zero_f, max_f}
use aot_drone.Vision.Types.{
  VisState, no_target, target_detected, tracking, searching, PixelBbox, Detection, clamp01,
}
use aot_drone.Vision.BoxSelect.{pick_best_box}
use aot_drone.Vision.Pipeline.Config.{Config}
use aot_drone.Vision.Pipeline.Iou.{iou}
use aot_drone.Vision.Pipeline.Defs.{
  TrackerLike, Pipeline, zero_result, tracking_result, Outcome, update_no_target, update_searching,
  should_detect, reuse_last_detection, miss,
}

module _ (R : Runtime) (tl : TrackerLike R.Float) (cfg : Config R.Float) where
  open R use {Float, lt, le, mul}
  open tl use {Frame, Tracker, initialize, update}

  -- the hold ends: the tracker starts on the detection
  abbrev pub lock_on :
      Pipeline Float Tracker → ℤ → ℤ → Detection Float → Bool × Tracker → Outcome R tl
  lock_on s img_w img_h current (active, t) =
      let conf = clamp01 R current.confidence in
      let s' = record s {
        state = tracking;
        search_counter = 0;
        tracker_active = active;
        last_tracking_conf = conf;
        tracker = t;
      } in
      do r ← tracking_result R current.bbox img_w img_h conf; ok (r, s')

  -- A frame with a detection in TARGET_DETECTED, its own or one that is reused. An error ends the
  -- frame, and what was written before it is not kept here.
  unfoldable pub hold : Pipeline Float Tracker → Frame → ℤ → ℤ → Detection Float → Outcome R tl
  hold s frame img_w img_h current =
      let s' = record s {
        target_detected_miss_streak = 0;
        detected_box = some current;
        detected_hold_counter = s.detected_hold_counter + 1;
      } in
      if leb_ℤ cfg.detect_hold_n (pos s'.detected_hold_counter)
      then (do
        started ← initialize s.tracker frame current.bbox
        lock_on s' img_w img_h current started)
      else ok (zero_result R target_detected, s')

  -- `current` is the detection, or on a frame that skips the detector the last one
  unfoldable pub update_target_detected :
      Pipeline Float Tracker → Frame → ℤ → ℤ → Option (Detection Float) → Outcome R tl
  unfolding hold miss
  update_target_detected s frame img_w img_h none = miss R tl cfg s
  update_target_detected s frame img_w img_h (some current) = hold s frame img_w img_h current

  abbrev pub current_of :
      Pipeline Float Tracker → ℤ → Option (Detection Float) → Option (Detection Float)
  current_of s frame_id (some d) = some d
  current_of s frame_id none =
      if should_detect R tl cfg frame_id then none else reuse_last_detection R tl cfg s frame_id

  abbrev differs : Option (PixelBbox Float) → PixelBbox Float → Bool
  differs none b = true
  differs (some a) b = lt (iou R a b) cfg.tracker_reinit_iou

  abbrev pub should_reinit : Pipeline Float Tracker → PixelBbox Float → Bool
  should_reinit s b = not s.tracker_active || differs s.last_tracker_bbox b

  abbrev pub reinit : Pipeline Float Tracker → Frame → PixelBbox Float → Result (Bool × Tracker)
  reinit s frame b =
      if should_reinit s b then initialize s.tracker frame b else ok (s.tracker_active, s.tracker)

  abbrev pub correct_from :
      Pipeline Float Tracker → ℤ → ℤ → Detection Float → Bool × Tracker → Outcome R tl
  correct_from s img_w img_h detected (active, t) =
      let conf = clamp01 R detected.confidence in
      let s' = record s {
        tracker_active = active;
        tracker = t;
        last_tracker_bbox = if active then some detected.bbox else none;
        last_tracking_conf = conf;
      } in
      do r ← tracking_result R detected.bbox img_w img_h conf; ok (r, s')

  -- a frame of TRACKING with a detection
  unfoldable pub correct : Pipeline Float Tracker → Frame → ℤ → ℤ → Detection Float → Outcome R tl
  correct s frame img_w img_h detected = do
    started ← reinit s frame detected.bbox
    correct_from s img_w img_h detected started

  -- the confidence of a frame that only the tracker saw
  unfoldable pub decayed_conf : Float → Float
  unfolding max_f
  decayed_conf conf =
      let decayed = mul conf cfg.tracker_only_conf_decay in
      if le cfg.tracker_only_conf_floor conf
      then max_f R decayed cfg.tracker_only_conf_floor
      else decayed

  -- a frame of TRACKING that only the tracker saw
  unfoldable pub coast : Pipeline Float Tracker → PixelBbox Float → ℤ → ℤ → Outcome R tl
  coast s tracker_bbox img_w img_h =
      let conf = decayed_conf s.last_tracking_conf in
      let s' = record s { last_tracker_bbox = some tracker_bbox; last_tracking_conf = conf } in
      do r ← tracking_result R tracker_bbox img_w img_h conf; ok (r, s')

  -- the last assignments of `_update_tracking`
  unfoldable pub lose : Pipeline Float Tracker → Outcome R tl
  lose s = ok (
    zero_result R searching,
    record s {
      state = searching;
      search_counter = 0;
      detected_hold_counter = 0;
      detected_box = none;
      last_tracker_bbox = none;
      last_tracking_conf = zero_f R;
      tracker = tl.reset s.tracker;
      tracker_active = false;
    },
  )

  -- what the tracker said of the frame
  abbrev pub after_update :
      Pipeline Float Tracker → ℤ → ℤ → Bool × Option (PixelBbox Float) × Tracker → Outcome R tl
  after_update s img_w img_h (true, some b, t) = coast (record s { tracker = t }) b img_w img_h
  after_update s img_w img_h (_, _, t) = lose (record s { tracker = t })

  unfoldable pub update_tracking :
      Pipeline Float Tracker → Frame → ℤ → ℤ → Option (Detection Float) → Outcome R tl
  unfolding correct coast lose
  update_tracking s frame img_w img_h (some detected) = correct s frame img_w img_h detected
  update_tracking s frame img_w img_h none =
      if s.tracker_active
      then (do said ← update s.tracker frame; after_update s img_w img_h said)
      else lose s

  -- `_detect_best`; `detections` is what the detector would return for this frame
  unfoldable pub detect_best :
      Pipeline Float Tracker
      → ℤ
      → ℤ
      → ℤ
      → List (Detection Float)
      → Result (Option (Detection Float) × Pipeline Float Tracker)
  detect_best s frame_id img_w img_h detections =
      if not (should_detect R tl cfg frame_id) then ok (none, s) else do
        best ← pick_best_box R img_w img_h cfg.desired_cx cfg.desired_cy detections
        ok (
          best,
          record s {
            last_detection = best;
            last_detection_frame = elim best [ Option.none ↦ none | Option.some _ ↦ some frame_id ];
          },
        )

  -- the choice by state, after detection
  unfoldable pub dispatch :
      VisState
      → Pipeline Float Tracker
      → Frame
      → ℤ
      → ℤ
      → ℤ
      → Option (Detection Float)
      → Outcome R tl
  unfolding update_no_target update_target_detected update_tracking update_searching
  dispatch no_target s frame frame_id img_w img_h detected = update_no_target R tl s detected
  dispatch target_detected s frame frame_id img_w img_h detected =
      update_target_detected s frame img_w img_h (current_of s frame_id detected)
  dispatch tracking s frame frame_id img_w img_h detected =
      update_tracking s frame img_w img_h detected
  dispatch searching s frame frame_id img_w img_h detected = update_searching R tl cfg s detected

  -- `img_h, img_w = frame.shape[:2]` are arguments
  unfoldable pub process_frame :
      Pipeline Float Tracker → Frame → ℤ → ℤ → ℤ → List (Detection Float) → Outcome R tl
  unfolding detect_best dispatch
  process_frame s frame frame_id img_w img_h detections = do
    seen ← detect_best s frame_id img_w img_h detections
    dispatch s.state seen.1 frame frame_id img_w img_h seen.0
