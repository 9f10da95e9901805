-- ===== src/Vision/Pipeline/Invariant.antt =====
-- What holds of the pipeline between two frames, and of each result
-- (src/vision/vision_pipeline.py).
use aot_drone.Common.{>>=-eq-ok, ◌≡◌, ◌⊎◌, true, false, Option, none, some, List, ok, arith}
use aot_drone.Common.Int.{ℤ, pos, leb_ℤ, ltb_ℤ}
use aot_drone.Runtime.{Runtime, Laws, zero_f, one_f}
use aot_drone.Vision.Types.{VisState, no_target, target_detected, tracking, searching, Detection}
use aot_drone.Vision.Types.Clamp.{InUnit, clamp01-InUnit, zero-InUnit}
use aot_drone.Vision.Pipeline.Config.{Config}
use aot_drone.Vision.Pipeline.Config.Valid.{IsValid}
use aot_drone.Vision.Pipeline.Defs.{
  TrackerLike, TrackerResult, Pipeline, new_pipeline, update_no_target, update_searching,
}
use aot_drone.Vision.Pipeline.Frame.{
  current_of, update_target_detected, decayed_conf, update_tracking, detect_best, dispatch,
  process_frame,
}

module _ (R : Runtime) (tl : TrackerLike R.Float) (cfg : Config R.Float) where
  open R use {Float, lt, le, mul}
  open tl use {Frame, Tracker}

  pub record Inv (s : Pipeline Float Tracker) : Type 0 where
    pub active_tracks : s.tracker_active ≡ true → s.state ≡ tracking
    pub cached_active : s.tracker_active ≡ false → s.last_tracker_bbox ≡ none
    pub conf_in : InUnit R s.last_tracking_conf
    pub conf_idle : (s.state ≡ tracking) ⊎ (s.last_tracking_conf ≡ zero_f R)
    pub streak_tolerated :
        leb_ℤ (pos s.target_detected_miss_streak) cfg.target_detected_grace_frames ≡ true
    pub hold_short :
        s.state ≡ target_detected
        → (s.detected_hold_counter ≡ 0)
          ⊎ (ltb_ℤ (pos s.detected_hold_counter) cfg.detect_hold_n ≡ true)
    pub search_short :
        s.state ≡ searching
        → (s.search_counter ≡ 0) ⊎ (ltb_ℤ (pos s.search_counter) cfg.search_n ≡ true)

  module _ (laws : Laws R) (valid : IsValid R cfg) where
    open laws use {le_of_lt, le_trans, mul_shrinks}

    pub new_pipeline-Inv : (t : Tracker) → Inv (new_pipeline R tl t)
    new_pipeline-Inv t = ground (arith, valid, zero-InUnit R laws)

    decayed_conf-InUnit : (c : Float) → InUnit R c → InUnit R (decayed_conf R tl cfg c)
    unfolding decayed_conf
    decayed_conf-InUnit c h = ground (
      arith,
      valid,
      mul_shrinks c cfg.tracker_only_conf_decay,
      le_trans (mul c cfg.tracker_only_conf_decay) c (one_f R),
    )

    no_target-Inv :
        (s : Pipeline Float Tracker) (o : Option (Detection Float)) {r : TrackerResult Float}
        {s' : Pipeline Float Tracker}
        → Inv s
        → s.state ≡ no_target
        → update_no_target R tl s o ≡ ok (r, s')
        → Inv s'
    unfolding update_no_target
    no_target-Inv s none h e p = ground (arith, h)
    no_target-Inv s (some d) h e p = ground (arith, h, valid)

    searching-Inv :
        (s : Pipeline Float Tracker) (o : Option (Detection Float)) {r : TrackerResult Float}
        {s' : Pipeline Float Tracker}
        → Inv s
        → s.state ≡ searching
        → update_searching R tl cfg s o ≡ ok (r, s')
        → Inv s'
    unfolding update_searching
    searching-Inv s none h e p = ground (arith, h, valid, zero-InUnit R laws)
    searching-Inv s (some d) h e p = ground (arith, h, valid)

    target_detected-Inv :
        (s : Pipeline Float Tracker) (frame : Frame) (img_w img_h : ℤ)
        (o : Option (Detection Float)) {r : TrackerResult Float} {s' : Pipeline Float Tracker}
        → Inv s
        → s.state ≡ target_detected
        → update_target_detected R tl cfg s frame img_w img_h o ≡ ok (r, s')
        → Inv s'
    unfolding update_target_detected
    target_detected-Inv s frame img_w img_h none h e p =
        ground (arith, h, valid, zero-InUnit R laws)
    target_detected-Inv s frame img_w img_h (some d) h e p =
        ground (arith, h, valid, clamp01-InUnit R laws d.confidence)

    tracking-Inv :
        (s : Pipeline Float Tracker) (frame : Frame) (img_w img_h : ℤ)
        (o : Option (Detection Float)) {r : TrackerResult Float} {s' : Pipeline Float Tracker}
        → Inv s
        → s.state ≡ tracking
        → update_tracking R tl cfg s frame img_w img_h o ≡ ok (r, s')
        → Inv s'
    unfolding update_tracking
    tracking-Inv s frame img_w img_h none h e p =
        ground
          (arith, h, valid, zero-InUnit R laws, decayed_conf-InUnit s.last_tracking_conf h.conf_in)
    tracking-Inv s frame img_w img_h (some d) h e p =
        ground (arith, h, valid, clamp01-InUnit R laws d.confidence)

    -- detection changes the two fields that no clause of the invariant names
    detect_best-Inv :
        (s : Pipeline Float Tracker) (frame_id img_w img_h : ℤ)
        (detections : List (Detection Float)) {d : Option (Detection Float)}
        {s' : Pipeline Float Tracker}
        → Inv s
        → detect_best R tl cfg s frame_id img_w img_h detections ≡ ok (d, s')
        → Inv s' × (s'.state ≡ s.state)
    unfolding detect_best
    detect_best-Inv s frame_id img_w img_h detections h p = ground (arith, h)

    dispatch-Inv :
        (v : VisState) (s : Pipeline Float Tracker) (frame : Frame) (frame_id img_w img_h : ℤ)
        (o : Option (Detection Float)) {r : TrackerResult Float} {s' : Pipeline Float Tracker}
        → Inv s
        → s.state ≡ v
        → dispatch R tl cfg v s frame frame_id img_w img_h o ≡ ok (r, s')
        → Inv s'
    unfolding dispatch
    dispatch-Inv no_target s frame frame_id img_w img_h o h e p = no_target-Inv s o h e p
    dispatch-Inv target_detected s frame frame_id img_w img_h o h e p =
        target_detected-Inv s frame img_w img_h (current_of R tl cfg s frame_id o) h e p
    dispatch-Inv tracking s frame frame_id img_w img_h o h e p =
        tracking-Inv s frame img_w img_h o h e p
    dispatch-Inv searching s frame frame_id img_w img_h o h e p = searching-Inv s o h e p

    -- When the laws of floats hold and the configuration is valid, a frame that `process_frame`
    -- handles without an error keeps the invariant of the pipeline: the tracker is active only in
    -- TRACKING, no box is cached without it, the confidence is in [0, 1] and is 0.0 outside
    -- TRACKING, missed frames are within the grace, and the counters of holding and searching are
    -- 0 or below their limits.
    pub process_frame-Inv :
        (s : Pipeline Float Tracker) (frame : Frame) (frame_id img_w img_h : ℤ)
        (detections : List (Detection Float)) {r : TrackerResult Float}
        {s' : Pipeline Float Tracker}
        → Inv s
        → process_frame R tl cfg s frame frame_id img_w img_h detections ≡ ok (r, s')
        → Inv s'
    unfolding process_frame
    process_frame-Inv s frame frame_id img_w img_h detections h p =
        let (seen, found, rest) =
          >>=-eq-ok (detect_best R tl cfg s frame_id img_w img_h detections) _ p in
        let (h', same) = detect_best-Inv s frame_id img_w img_h detections h found in
        dispatch-Inv s.state seen.1 frame frame_id img_w img_h seen.0 h' same rest
