-- ===== src/Vision/Pipeline/Results.antt =====
-- What `process_frame` returns beside the new state, and the moves of the state machine
-- (src/vision/vision_pipeline.py).
use aot_drone.Common.{
  false, inl, if_true, ◌∙◌, sym, Bool-cases, ◌>>=◌, inr, >>=-eq-ok, ◌≡◌, ◌⊎◌, Bool, true, Option,
  none, some, List, ok, arith,
}
use aot_drone.Common.Int.{ℤ, pos}
use aot_drone.Runtime.{Runtime, Laws}
use aot_drone.Vision.Types.{
  VisState, no_target, target_detected, tracking, searching, PixelBbox, Detection, clamp01,
  normalize_bbox_xywh,
}
use aot_drone.Vision.Types.Clamp.{IsNormalized, normalize_bbox_xywh-IsNormalized}
use aot_drone.Vision.Pipeline.Config.{Config}
use aot_drone.Vision.Pipeline.Defs.{
  TrackerLike, TrackerResult, Pipeline, zero_result, tracking_result, update_no_target,
  update_searching,
}
use aot_drone.Vision.Pipeline.Frame.{
  current_of, after_update, update_target_detected, update_tracking, detect_best, dispatch,
  process_frame, decayed_conf,
}

-- the arrows of the state machine
infix 40 ◌⟶◌
pub data ◌⟶◌ : VisState → VisState → Type 0 where
  wait : no_target ⟶ no_target
  find : no_target ⟶ target_detected
  hold : target_detected ⟶ target_detected
  drop : target_detected ⟶ no_target
  lock : target_detected ⟶ tracking
  follow : tracking ⟶ tracking
  lose : tracking ⟶ searching
  search_on : searching ⟶ searching
  refind : searching ⟶ target_detected
  give_up : searching ⟶ no_target

ruleset moves = (wait, find, hold, drop, lock, follow, lose, search_on, refind, give_up)

module _ (R : Runtime) (tl : TrackerLike R.Float) (cfg : Config R.Float) where
  open R use {Float, lt, le, mul}
  open tl use {Frame, Tracker}

  -- a locked result: the box is normalized and the confidence is the one that the state keeps
  pub record IsLocked (r : TrackerResult Float) (s : Pipeline Float Tracker) : Type 0 where
    pub result_tracks : r.state ≡ tracking
    pub state_tracks : s.state ≡ tracking
    pub same_conf : r.conf ≡ s.last_tracking_conf
    pub normalized : IsNormalized R r.bbox
    pub numbered : r.track_id ≡ pos 1

  pub record IsBlank (r : TrackerResult Float) (s : Pipeline Float Tracker) : Type 0 where
    pub not_tracking : (s.state ≡ tracking) → ⊥
    pub zeroed : r ≡ zero_result R s.state

  abbrev pub Agrees : TrackerResult Float → Pipeline Float Tracker → Type 0
  Agrees r s = IsLocked r s ⊎ IsBlank r s

  module _ (laws : Laws R) where
    tracking_result_lem :
        (b : PixelBbox Float) (img_w img_h : ℤ) (conf : Float) (r : TrackerResult Float)
        → tracking_result R b img_w img_h conf ≡ ok r
        → (r.state ≡ tracking) × (r.conf ≡ conf) × IsNormalized R r.bbox × (r.track_id ≡ pos 1)
    unfolding tracking_result
    tracking_result_lem b img_w img_h conf r p =
        let (n, normal, e) = >>=-eq-ok (normalize_bbox_xywh R b img_w img_h) _ p in
        ground (arith, normalize_bbox_xywh-IsNormalized R laws b img_w img_h {n = n})

    -- one frame moves along an arrow, and its result agrees with the state
    abbrev Fits : VisState → TrackerResult Float → Pipeline Float Tracker → Type 0
    Fits v r s = (v ⟶ s.state) × Agrees r s

    no_target-Fits :
        (s : Pipeline Float Tracker) (o : Option (Detection Float)) {r : TrackerResult Float}
        {s' : Pipeline Float Tracker}
        → s.state ≡ no_target
        → update_no_target R tl s o ≡ ok (r, s')
        → Fits no_target r s'
    unfolding update_no_target
    no_target-Fits s none e p = ground (arith, wait)
    no_target-Fits s (some d) e p = ground (arith, find)

    searching-Fits :
        (s : Pipeline Float Tracker) (o : Option (Detection Float)) {r : TrackerResult Float}
        {s' : Pipeline Float Tracker}
        → s.state ≡ searching
        → update_searching R tl cfg s o ≡ ok (r, s')
        → Fits searching r s'
    unfolding update_searching
    searching-Fits s none e p = ground (arith, search_on, give_up)
    searching-Fits s (some d) e p = ground (arith, refind)

    target_detected-Fits :
        (s : Pipeline Float Tracker) (frame : Frame) (img_w img_h : ℤ)
        (o : Option (Detection Float)) {r : TrackerResult Float} {s' : Pipeline Float Tracker}
        → s.state ≡ target_detected
        → update_target_detected R tl cfg s frame img_w img_h o ≡ ok (r, s')
        → Fits target_detected r s'
    unfolding update_target_detected
    target_detected-Fits s frame img_w img_h none e p = ground (arith, hold, drop)
    target_detected-Fits s frame img_w img_h (some d) {r} e p =
        ground
          (arith, hold, lock, tracking_result_lem d.bbox img_w img_h (clamp01 R d.confidence) r)

    after_update-Fits :
        (s : Pipeline Float Tracker) (img_w img_h : ℤ)
        (said : Bool × Option (PixelBbox Float) × Tracker) (r : TrackerResult Float)
        {s' : Pipeline Float Tracker}
        → s.state ≡ tracking
        → after_update R tl cfg s img_w img_h said ≡ ok (r, s')
        → Fits tracking r s'
    unfolding update_tracking
    after_update-Fits s img_w img_h (true, some b, t) r e p = ground (
      arith,
      follow,
      tracking_result_lem b img_w img_h (decayed_conf R tl cfg s.last_tracking_conf) r,
    )
    after_update-Fits s img_w img_h (true, none, t) r e p = ground (arith, lose)
    after_update-Fits s img_w img_h (false, bbox, t) r e p = ground (arith, lose)

    tracking-Fits :
        (s : Pipeline Float Tracker) (frame : Frame) (img_w img_h : ℤ)
        (o : Option (Detection Float)) {r : TrackerResult Float} {s' : Pipeline Float Tracker}
        → s.state ≡ tracking
        → update_tracking R tl cfg s frame img_w img_h o ≡ ok (r, s')
        → Fits tracking r s'
    unfolding update_tracking
    tracking-Fits s frame img_w img_h none {r} {s'} e p = elim (Bool-cases s.tracker_active) [
      | inr off ↦ ground (arith, lose)
      | inl on ↦
          let running : (tl.update s.tracker frame >>= after_update R tl cfg s img_w img_h)
              ≡ ok (r, s') =
            sym (if_true s.tracker_active _ _ on) ∙ p in
          let (said, heard, rest) = >>=-eq-ok (tl.update s.tracker frame) _ running in
          after_update-Fits s img_w img_h said r e rest
    ]
    tracking-Fits s frame img_w img_h (some d) {r} e p =
        ground (arith, follow, tracking_result_lem d.bbox img_w img_h (clamp01 R d.confidence) r)

    dispatch-Fits :
        (v : VisState) (s : Pipeline Float Tracker) (frame : Frame) (frame_id img_w img_h : ℤ)
        (o : Option (Detection Float)) {r : TrackerResult Float} {s' : Pipeline Float Tracker}
        → s.state ≡ v
        → dispatch R tl cfg v s frame frame_id img_w img_h o ≡ ok (r, s')
        → Fits v r s'
    unfolding dispatch
    dispatch-Fits no_target s frame frame_id img_w img_h o e p = no_target-Fits s o e p
    dispatch-Fits target_detected s frame frame_id img_w img_h o e p =
        target_detected-Fits s frame img_w img_h (current_of R tl cfg s frame_id o) e p
    dispatch-Fits tracking s frame frame_id img_w img_h o e p =
        tracking-Fits s frame img_w img_h o e p
    dispatch-Fits searching s frame frame_id img_w img_h o e p = searching-Fits s o e p

    same_state :
        (s : Pipeline Float Tracker) (frame_id img_w img_h : ℤ)
        (detections : List (Detection Float)) {d : Option (Detection Float)}
        {s' : Pipeline Float Tracker}
        → detect_best R tl cfg s frame_id img_w img_h detections ≡ ok (d, s')
        → s'.state ≡ s.state
    unfolding detect_best
    same_state s frame_id img_w img_h detections p = ground arith

    -- When the laws of floats hold, a frame that `process_frame` handles without an error makes
    -- one of the ten moves between the four states, and its result agrees with the state: in
    -- TRACKING it is a normalized box with track id 1 and the confidence that the state keeps,
    -- and otherwise it is the zero result of the state.
    pub process_frame-Fits :
        (s : Pipeline Float Tracker) (frame : Frame) (frame_id img_w img_h : ℤ)
        (detections : List (Detection Float)) {r : TrackerResult Float}
        {s' : Pipeline Float Tracker}
        → process_frame R tl cfg s frame frame_id img_w img_h detections ≡ ok (r, s')
        → (s.state ⟶ s'.state) × Agrees r s'
    unfolding process_frame
    process_frame-Fits s frame frame_id img_w img_h detections p =
        let (seen, found, rest) =
          >>=-eq-ok (detect_best R tl cfg s frame_id img_w img_h detections) _ p in
        dispatch-Fits s.state seen.1 frame frame_id img_w img_h seen.0
          (same_state s frame_id img_w img_h detections found) rest
