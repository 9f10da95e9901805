-- ===== src/Vision/Pipeline/Runs.antt =====
-- The frames of a run one after another, as the loop of src/vision/main.py hands them to
-- `VisionPipeline.process_frame`.
pub mod Earliest
use aot_drone.Common.{>>=-eq-ok, ◌≡◌, Option, List, [], ◌∷◌, Result, ok, ◌>>=◌, arith}
use aot_drone.Common.Int.{ℤ}
use aot_drone.Runtime.{Runtime, Laws}
use aot_drone.Vision.Types.{Detection}
use aot_drone.Vision.Pipeline.Config.{Config}
use aot_drone.Vision.Pipeline.Config.Valid.{IsValid}
use aot_drone.Vision.Pipeline.Defs.{TrackerLike, TrackerResult, Pipeline}
use aot_drone.Vision.Pipeline.Frame.{process_frame}
use aot_drone.Vision.Pipeline.Invariant.{Inv, process_frame-Inv}

-- what a frame brings: the image, its number and size, and the detector's answer to it
pub record FrameInput (F Frame : Type 0) : Type 0 where
  pub frame : Frame
  pub frame_id : ℤ
  pub img_w : ℤ
  pub img_h : ℤ
  pub detections : List (Detection F)

module _ (R : Runtime) (tl : TrackerLike R.Float) (cfg : Config R.Float) where
  open R use {Float}
  open tl use {Frame, Tracker}

  abbrev pub on_input :
      Pipeline Float Tracker
      → FrameInput Float Frame
      → Result (TrackerResult Float × Pipeline Float Tracker)
  on_input s i = process_frame R tl cfg s i.frame i.frame_id i.img_w i.img_h i.detections

  unfoldable pub run :
      Pipeline Float Tracker → List (FrameInput Float Frame) → Result (Pipeline Float Tracker)
  run s [] = ok s
  run s (i ∷ is) = do out ← on_input s i; run out.1 is

  pub run-cons :
      (s : Pipeline Float Tracker) (i : FrameInput Float Frame) (is : List (FrameInput Float Frame))
      {s' : Pipeline Float Tracker}
      → run s (i ∷ is) ≡ ok s'
      → (r : TrackerResult Float) × (m : Pipeline Float Tracker) × (on_input s i ≡ ok (r, m))
        × (run m is ≡ ok s')
  unfolding run
  run-cons s i is p =
      let (out, first, rest) = >>=-eq-ok (on_input s i) _ p in (out.0, out.1, first, rest)

  module _ (laws : Laws R) (valid : IsValid R cfg) where
    pub run-Inv :
        (s : Pipeline Float Tracker) (is : List (FrameInput Float Frame))
        {s' : Pipeline Float Tracker}
        → Inv R tl cfg s
        → run s is ≡ ok s'
        → Inv R tl cfg s'
    unfolding run
    run-Inv s [] h p = ground (arith, h)
    run-Inv s (i ∷ is) h p =
        let (r, m, first, rest) = run-cons s i is p in
        run-Inv m is
          (process_frame-Inv R tl cfg laws valid s i.frame i.frame_id i.img_w i.img_h i.detections h
            first)
          rest
