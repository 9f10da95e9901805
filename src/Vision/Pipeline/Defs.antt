-- ===== src/Vision/Pipeline/Defs.antt =====
-- `VisionPipeline` (src/vision/vision_pipeline.py): its state and its methods.
use aot_drone.Common.{
  ℕ, ◌+◌, Bool, false, ◌==◌, if◌then◌else◌, Option, none, some, Result, ok, ◌>>=◌,
}
use aot_drone.Common.Int.{ℤ, pos, ltb_ℤ, leb_ℤ, ◌-ℤ◌, mod_ℤ, to_ℕ}
use aot_drone.Runtime.{Runtime, zero_f}
use aot_drone.Vision.Types.{
  VisState, no_target, target_detected, tracking, searching, PixelBbox, NormalizedBbox, Detection,
  zero_bbox, normalize_bbox_xywh,
}
use aot_drone.Vision.Pipeline.Config.{Config}

-- The `TrackerLike` protocol: an object with a state, driven by frames. The calls that see a frame may
-- raise, as `OpenCvTracker` does on a box that is not finite.
pub record TrackerLike (F : Type 0) : Type 1 where
  pub Frame : Type 0
  pub Tracker : Type 0
  pub initialize : Tracker → Frame → PixelBbox F → Result (Bool × Tracker)
  pub update : Tracker → Frame → Result (Bool × Option (PixelBbox F) × Tracker)
  pub reset : Tracker → Tracker

-- `TrackerResult` (src/vision/tracker.py)
pub record TrackerResult (F : Type 0) : Type 0 where
  pub state : VisState
  pub bbox : NormalizedBbox F
  pub conf : F
  pub track_id : ℤ

pub record Pipeline (F T : Type 0) : Type 0 where
  pub state : VisState
  pub detected_hold_counter : ℕ
  pub search_counter : ℕ
  pub detected_box : Option (Detection F)
  pub last_detection : Option (Detection F)
  pub last_detection_frame : Option ℤ
  pub tracker_active : Bool
  pub last_tracker_bbox : Option (PixelBbox F)
  pub last_tracking_conf : F
  pub target_detected_miss_streak : ℕ
  pub tracker : T

module _ (R : Runtime) where
  open R use {Float, lt, le, mul}

  abbrev pub zero_result : VisState → TrackerResult Float
  zero_result s = record { state = s; bbox = zero_bbox R; conf = zero_f R; track_id = pos 0 }

  unfoldable pub tracking_result : PixelBbox Float → ℤ → ℤ → Float → Result (TrackerResult Float)
  tracking_result bbox img_w img_h conf = do
    normalized_bbox ← normalize_bbox_xywh R bbox img_w img_h
    ok (record { state = tracking; bbox = normalized_bbox; conf = conf; track_id = pos 1 })

  module _ (tl : TrackerLike Float) where
    open tl use {Frame, Tracker, initialize, update}

    -- `__init__`
    abbrev pub new_pipeline : Tracker → Pipeline Float Tracker
    new_pipeline t = record {
      state = no_target;
      detected_hold_counter = 0;
      search_counter = 0;
      detected_box = none;
      last_detection = none;
      last_detection_frame = none;
      tracker_active = false;
      last_tracker_bbox = none;
      last_tracking_conf = zero_f R;
      target_detected_miss_streak = 0;
      tracker = t;
    }

    unfoldable pub reset : Pipeline Float Tracker → Pipeline Float Tracker
    reset s = new_pipeline (tl.reset s.tracker)

    unfoldable pub transition_no_target : Pipeline Float Tracker → Pipeline Float Tracker
    transition_no_target s = record s {
      state = no_target;
      detected_hold_counter = 0;
      search_counter = 0;
      detected_box = none;
      target_detected_miss_streak = 0;
      tracker = tl.reset s.tracker;
      tracker_active = false;
      last_tracker_bbox = none;
      last_tracking_conf = zero_f R;
    }

    abbrev pub Outcome : Type 0
    Outcome = Result (TrackerResult Float × Pipeline Float Tracker)

    -- the five assignments that enter TARGET_DETECTED
    abbrev pub enter_target_detected :
        Pipeline Float Tracker → Detection Float → Pipeline Float Tracker
    enter_target_detected s d = record s {
      state = target_detected;
      detected_box = some d;
      detected_hold_counter = 0;
      search_counter = 0;
      target_detected_miss_streak = 0;
    }

    unfoldable pub update_no_target : Pipeline Float Tracker → Option (Detection Float) → Outcome
    update_no_target s none = ok (zero_result no_target, s)
    update_no_target s (some d) = ok (zero_result target_detected, enter_target_detected s d)

    module _ (cfg : Config Float) where
      unfoldable pub update_searching : Pipeline Float Tracker → Option (Detection Float) → Outcome
      unfolding transition_no_target
      update_searching s (some d) = ok (zero_result target_detected, enter_target_detected s d)
      update_searching s none =
          let s' = record s { search_counter = s.search_counter + 1 } in
          if leb_ℤ cfg.search_n (pos s'.search_counter)
          then ok (zero_result no_target, transition_no_target s')
          else ok (zero_result searching, s')

      -- `max(1, frame_id) - 1` is never negative, and `__post_init__` keeps `detect_every_n` above 0,
      -- where the remainder would raise
      unfoldable pub should_detect : ℤ → Bool
      unfolding mod_ℤ
      should_detect frame_id =
          let base : ℤ = if ltb_ℤ (pos 1) frame_id then frame_id else pos 1 in
          mod_ℤ (base -ℤ pos 1) (to_ℕ cfg.detect_every_n) == 0

      -- the last detection and its frame, if both are there
      abbrev reuse_from : ℤ → Option (Detection Float) → Option ℤ → Option (Detection Float)
      reuse_from frame_id (some d) (some f) =
          if ltb_ℤ (frame_id -ℤ f) cfg.detect_every_n then some d else none
      reuse_from frame_id _ _ = none

      unfoldable pub reuse_last_detection : Pipeline Float Tracker → ℤ → Option (Detection Float)
      reuse_last_detection s frame_id = reuse_from frame_id s.last_detection s.last_detection_frame

      -- what follows a missed frame in TARGET_DETECTED
      unfoldable pub miss : Pipeline Float Tracker → Outcome
      unfolding transition_no_target
      miss s =
          let s' = record s { target_detected_miss_streak = s.target_detected_miss_streak + 1 } in
          if leb_ℤ (pos s'.target_detected_miss_streak) cfg.target_detected_grace_frames
          then ok (zero_result target_detected, s')
          else ok (zero_result no_target, transition_no_target s')
