-- ===== src/Vision/Pipeline/Runs/Earliest.antt =====
-- How early a run can lock on a target (src/vision/vision_pipeline.py).
use aot_drone.Common.{
  >>=-eq-ok, ◌≡◌, ◌⊎◌, ℕ, suc, ◌+◌, ◌≤◌, true, Option, none, some, List, [], ◌∷◌, ok, length, arith,
}
use aot_drone.Common.Int.{ℤ, pos, ltb_ℤ}
use aot_drone.Runtime.{Runtime}
use aot_drone.Vision.Types.{VisState, no_target, target_detected, tracking, searching, Detection}
use aot_drone.Vision.Pipeline.Config.{Config}
use aot_drone.Vision.Pipeline.Defs.{
  TrackerLike, TrackerResult, Pipeline, new_pipeline, update_no_target, update_searching,
}
use aot_drone.Vision.Pipeline.Frame.{
  current_of, update_target_detected, update_tracking, detect_best, dispatch, process_frame,
}
use aot_drone.Vision.Pipeline.Runs.{FrameInput, on_input, run, run-cons}

module _ (R : Runtime) (tl : TrackerLike R.Float) (cfg : Config R.Float) where
  open R use {Float}
  open tl use {Frame, Tracker}

  -- after n frames: a hold counter has at most n - 1 frames in it, and a lock took more frames than
  -- `detect_hold_n`, and two at least
  record Paid (n : ℕ) (s : Pipeline Float Tracker) : Type 0 where
    counted : s.state ≡ target_detected → s.detected_hold_counter + 1 ≤ n
    locked :
        (s.state ≡ tracking) ⊎ (s.state ≡ searching)
        → (ltb_ℤ cfg.detect_hold_n (pos n) ≡ true) × (2 ≤ n)

  no_target-Paid :
      (n : ℕ) (s : Pipeline Float Tracker) (o : Option (Detection Float)) {r : TrackerResult Float}
      {s' : Pipeline Float Tracker}
      → Paid n s
      → s.state ≡ no_target
      → update_no_target R tl s o ≡ ok (r, s')
      → Paid (suc n) s'
  unfolding update_no_target
  no_target-Paid n s none h e p = ground (arith, h)
  no_target-Paid n s (some d) h e p = ground (arith, h)

  searching-Paid :
      (n : ℕ) (s : Pipeline Float Tracker) (o : Option (Detection Float)) {r : TrackerResult Float}
      {s' : Pipeline Float Tracker}
      → Paid n s
      → s.state ≡ searching
      → update_searching R tl cfg s o ≡ ok (r, s')
      → Paid (suc n) s'
  unfolding update_searching
  searching-Paid n s none h e p = ground (arith, h)
  searching-Paid n s (some d) h e p = ground (arith, h)

  target_detected-Paid :
      (n : ℕ) (s : Pipeline Float Tracker) (frame : Frame) (img_w img_h : ℤ)
      (o : Option (Detection Float)) {r : TrackerResult Float} {s' : Pipeline Float Tracker}
      → Paid n s
      → s.state ≡ target_detected
      → update_target_detected R tl cfg s frame img_w img_h o ≡ ok (r, s')
      → Paid (suc n) s'
  unfolding update_target_detected
  target_detected-Paid n s frame img_w img_h none h e p = ground (arith, h)
  target_detected-Paid n s frame img_w img_h (some d) h e p = ground (arith, h)

  tracking-Paid :
      (n : ℕ) (s : Pipeline Float Tracker) (frame : Frame) (img_w img_h : ℤ)
      (o : Option (Detection Float)) {r : TrackerResult Float} {s' : Pipeline Float Tracker}
      → Paid n s
      → s.state ≡ tracking
      → update_tracking R tl cfg s frame img_w img_h o ≡ ok (r, s')
      → Paid (suc n) s'
  unfolding update_tracking
  tracking-Paid n s frame img_w img_h none h e p = ground (arith, h)
  tracking-Paid n s frame img_w img_h (some d) h e p = ground (arith, h)

  dispatch-Paid :
      (n : ℕ) (v : VisState) (s : Pipeline Float Tracker) (frame : Frame) (frame_id img_w img_h : ℤ)
      (o : Option (Detection Float)) {r : TrackerResult Float} {s' : Pipeline Float Tracker}
      → Paid n s
      → s.state ≡ v
      → dispatch R tl cfg v s frame frame_id img_w img_h o ≡ ok (r, s')
      → Paid (suc n) s'
  unfolding dispatch
  dispatch-Paid n no_target s frame frame_id img_w img_h o h e p = no_target-Paid n s o h e p
  dispatch-Paid n target_detected s frame frame_id img_w img_h o h e p =
      target_detected-Paid n s frame img_w img_h (current_of R tl cfg s frame_id o) h e p
  dispatch-Paid n tracking s frame frame_id img_w img_h o h e p =
      tracking-Paid n s frame img_w img_h o h e p
  dispatch-Paid n searching s frame frame_id img_w img_h o h e p = searching-Paid n s o h e p

  detect_best-Paid :
      (n : ℕ) (s : Pipeline Float Tracker) (frame_id img_w img_h : ℤ)
      (detections : List (Detection Float)) {d : Option (Detection Float)}
      {s' : Pipeline Float Tracker}
      → Paid n s
      → detect_best R tl cfg s frame_id img_w img_h detections ≡ ok (d, s')
      → Paid n s' × (s'.state ≡ s.state)
  unfolding detect_best
  detect_best-Paid n s frame_id img_w img_h detections h p = ground (arith, h)

  on_input-Paid :
      (n : ℕ) (s : Pipeline Float Tracker) (i : FrameInput Float Frame) {r : TrackerResult Float}
      {s' : Pipeline Float Tracker}
      → Paid n s
      → on_input R tl cfg s i ≡ ok (r, s')
      → Paid (suc n) s'
  unfolding process_frame
  on_input-Paid n s i h p =
      let (seen, found, rest) =
        >>=-eq-ok (detect_best R tl cfg s i.frame_id i.img_w i.img_h i.detections) _ p in
      let (h', same) = detect_best-Paid n s i.frame_id i.img_w i.img_h i.detections h found in
      dispatch-Paid n s.state seen.1 i.frame i.frame_id i.img_w i.img_h seen.0 h' same rest

  run-Paid :
      (n : ℕ) (s : Pipeline Float Tracker) (is : List (FrameInput Float Frame))
      {s' : Pipeline Float Tracker}
      → Paid n s
      → run R tl cfg s is ≡ ok s'
      → Paid (n + length is) s'
  unfolding run
  run-Paid n s [] h p = ground (arith, h)
  run-Paid n s (i ∷ is) {s'} h p =
      let (r, m, first, rest) = run-cons R tl cfg s i is p in
      let done = run-Paid (suc n) m is (on_input-Paid n s i h first) rest in ground (arith, done)

  -- If a run of frames from a new pipeline ends in TRACKING, then it has at least two frames and
  -- more frames than `detect_hold_n`.
  pub lock_needs_frames :
      (t : Tracker) (is : List (FrameInput Float Frame)) {s : Pipeline Float Tracker}
      → run R tl cfg (new_pipeline R tl t) is ≡ ok s
      → s.state ≡ tracking
      → (ltb_ℤ cfg.detect_hold_n (pos (length is)) ≡ true) × (2 ≤ length is)
  lock_needs_frames t is p e =
      let paid = run-Paid 0 (new_pipeline R tl t) is (ground arith) p in ground (arith, paid)
