-- ===== src/Vision/OpencvTracker/Drive.antt =====
-- The pipeline of src/vision/vision_pipeline.py with the tracker of src/vision/opencv_tracker.py.
use aot_drone.Vision.Pipeline.Total.{Ends, process_frame_total, on_update}
use aot_drone.Vision.Pipeline.Total.{TrackerRaises, IsSize, on_initialize}
use aot_drone.Vision.Pipeline.Frame.{process_frame}
use aot_drone.Common.Raises.{OnlyRaises}
use aot_drone.Vision.Pipeline.Config.{Config}
use aot_drone.Vision.OpencvTracker.Active.{
  initialize-IsStarted, started, not_taken, no_box, none_type, no_factory, not_a_number,
}
use aot_drone.Vision.OpencvTracker.Active.{IsStarted}
use aot_drone.Common.Int.{ℤ}
use aot_drone.Vision.Types.{Detection, PixelBbox}
use aot_drone.Runtime.{Runtime}
use aot_drone.Vision.Pipeline.Defs.{TrackerResult, Pipeline, TrackerLike}
use aot_drone.Vision.OpencvTracker.{update, reset_opencv, initialize, Cv, OpencvTracker}
use aot_drone.Vision.OpencvTracker.Placed.{IsSide}
use aot_drone.Common.{inr, inl, subst, sym, List, raise, ok, Error, ◌∙◌, Bool, Result, ◌≡◌}

module _ (R : Runtime) (cv : Cv R.Float) (round_int : R.Float → Result ℤ) where
  open R use {Float}
  open cv use {Frame, Native}

  abbrev with_tracker : Result Bool × OpencvTracker Native → Result (Bool × OpencvTracker Native)
  with_tracker (ok flag, t) = ok (flag, t)
  with_tracker (raise e, t) = raise e

  -- `OpenCvTracker` as a `TrackerLike`
  unfoldable pub opencv_tracker : TrackerLike Float
  unfolding initialize update reset_opencv
  opencv_tracker = record {
    Frame = Frame;
    Tracker = OpencvTracker Native;
    initialize = λ t frame bbox. with_tracker (initialize R cv round_int frame bbox t);
    update = λ t frame. ok (update R cv round_int frame t);
    reset = reset_opencv;
  }

  -- rounding a side of some box raised the error
  abbrev pub FromRounding : Error → Type 0
  FromRounding e =
      (b : PixelBbox Float) × (side : Float) × IsSide R cv round_int b side
      × (round_int side ≡ raise e)

  raise-injective : {A : Type 0} {e e' : Error} → ◌≡◌ {A = Result A} (raise e) (raise e') → e ≡ e'
  raise-injective p = cc

  started-FromRounding :
      (t : OpencvTracker Native) (frame : Frame) (b : PixelBbox Float)
      {out : Result Bool × OpencvTracker Native} {e : Error}
      → IsStarted R cv round_int t frame b out
      → with_tracker out ≡ raise e
      → FromRounding e
  started-FromRounding t frame b (not_a_number side named made of_box failed) p =
      (b, side, of_box, cc)
  started-FromRounding t frame b (started box native named made known sized in_x in_y taken) p = cc
  started-FromRounding t frame b (not_taken box named made known sized in_x in_y refused) p = cc
  started-FromRounding t frame b (no_box named made known) p = cc
  started-FromRounding t frame b (none_type off) p = cc
  started-FromRounding t frame b (no_factory named missing) p = cc

  TrackerRaises-FromRounding :
      (img_w img_h : ℤ) (size : IsSize R img_w img_h) (cfg : Config Float)
      (t : opencv_tracker.Tracker) (frame : opencv_tracker.Frame) {e : Error}
      → TrackerRaises R img_w img_h size opencv_tracker cfg t frame e
      → FromRounding e
  unfolding opencv_tracker
  TrackerRaises-FromRounding img_w img_h size cfg t frame (on_initialize b p) =
      started-FromRounding t frame b (initialize-IsStarted R cv round_int frame b t) p
  TrackerRaises-FromRounding img_w img_h size cfg t frame (on_update p) = cc

  ended-FromRounding :
      (img_w img_h : ℤ) (size : IsSize R img_w img_h) (cfg : Config Float)
      (t : opencv_tracker.Tracker) (frame : opencv_tracker.Frame)
      {m : Result (TrackerResult Float × Pipeline Float opencv_tracker.Tracker)} {e : Error}
      → m ≡ raise e
      → Ends R img_w img_h size opencv_tracker cfg t frame m
      → FromRounding e
  unfolding opencv_tracker
  ended-FromRounding img_w img_h size cfg t frame p (inl (out, returned)) = cc
  ended-FromRounding img_w img_h size cfg t frame p (inr (err, failed, why)) =
      TrackerRaises-FromRounding img_w img_h size cfg t frame (
        subst (TrackerRaises R img_w img_h size opencv_tracker cfg t frame)
          (raise-injective (sym failed ∙ p)) why)

  -- With this tracker, a frame of a proper size ends with a result, or with an error that rounding a
  -- side of a box raised.
  pub process_frame-opencv :
      (img_w img_h : ℤ) (size : IsSize R img_w img_h) (cfg : Config Float)
      (s : Pipeline Float opencv_tracker.Tracker) (frame : opencv_tracker.Frame) (frame_id : ℤ)
      (detections : List (Detection Float))
      → OnlyRaises FromRounding
          (process_frame R opencv_tracker cfg s frame frame_id img_w img_h detections)
  process_frame-opencv img_w img_h size cfg s frame frame_id detections = record {
    at = λ e p.
        ended-FromRounding img_w img_h size cfg s.tracker frame p
          (process_frame_total R img_w img_h size opencv_tracker cfg s frame frame_id detections);
  }
