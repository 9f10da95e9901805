-- ===== src/Vision/Pipeline/Blind.antt =====
-- Runs of frames in which the detector finds nothing (src/vision/vision_pipeline.py).
pub mod GiveUp
pub mod Coast
use aot_drone.Common.{
  if◌then◌else◌, >>=-eq-ok, ◌≡◌, refl, Bool-cases, inl, inr, Bool, true, false, Option, none, some,
  List, [], ◌∷◌, Result, ok, ◌>>=◌, All, arith,
}
use aot_drone.Common.Int.{ℤ, pos, leb_ℤ}
use aot_drone.Runtime.{Runtime}
use aot_drone.Vision.Types.{VisState, Detection}
use aot_drone.Vision.BoxSelect.{pick_best_box}
use aot_drone.Vision.Pipeline.Config.{Config}
use aot_drone.Vision.Pipeline.Defs.{TrackerLike, TrackerResult, Pipeline, should_detect, Outcome}
use aot_drone.Vision.Pipeline.Frame.{detect_best, dispatch, process_frame}
use aot_drone.Vision.Pipeline.Runs.{FrameInput, on_input}

abbrev pub IsBlind : {F Frame : Type 0} → FrameInput F Frame → Type 0
IsBlind i = i.detections ≡ []

module _ (R : Runtime) (tl : TrackerLike R.Float) (cfg : Config R.Float) where
  open R use {Float}
  open tl use {Frame, Tracker}

  -- the state that the branch by state is entered with
  pub unseen : Pipeline Float Tracker → ℤ → Pipeline Float Tracker
  unseen s frame_id =
      if should_detect R tl cfg frame_id
      then record s { last_detection = none; last_detection_frame = none }
      else s

  -- Detection finds nothing, and leaves all but the last detection alone.
  pub on_input-blind :
      (s : Pipeline Float Tracker) (i : FrameInput Float Frame)
      → IsBlind i
      → on_input R tl cfg s i
        ≡ dispatch R tl cfg s.state (unseen s i.frame_id) i.frame i.frame_id i.img_w i.img_h none
  unfolding process_frame detect_best pick_best_box unseen
  on_input-blind s i b = rw b (ground arith)
