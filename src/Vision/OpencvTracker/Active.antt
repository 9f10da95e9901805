-- ===== src/Vision/OpencvTracker/Active.antt =====
-- When the tracker of OpenCV runs (src/vision/opencv_tracker.py).
use aot_drone.Vision.Types.{PixelBbox}
use aot_drone.Runtime.{zero_f, Runtime}
use aot_drone.Common.Int.{ℤ}
use aot_drone.Vision.OpencvTracker.Placed.{
  to_cv_bbox-IsPlaced, IsPlaced, not_rounded, empty_box, inside, empty_frame, no_shape, Inside,
}
use aot_drone.Common.{
  not, is_some, ◌||◌, if◌then◌else◌, Option, true, str_eq, refl, false, raise, ok, none, some,
  Result, ap, Error, Bool, ◌≡◌,
}
use aot_drone.Vision.OpencvTracker.Placed.{IsSide}
use aot_drone.Vision.OpencvTracker.{
  update, update_in, CvBox, Cv, to_cv_bbox, initialize, OpencvTracker, active, on_cv_box, on_init,
}

module _ (R : Runtime) (cv : Cv R.Float) (round_int : R.Float → Result ℤ) where
  open R use {Float, le}
  open cv use {Frame, Native, shape}

  -- Outcomes of `initialize`: the answer, or an error, and the tracker after it
  pub data IsStarted (t : OpencvTracker Native) (frame : Frame) (bbox : PixelBbox Float)
      : Result Bool × OpencvTracker Native → Type 0 where
    started :
        {img_h img_w : ℤ} (box : CvBox) (native : Native)
        → str_eq t.tracker_type "none" ≡ false
        → t.has_factory ≡ true
        → to_cv_bbox R cv round_int bbox frame ≡ ok (some box)
        → shape frame ≡ some (img_h, img_w)
        → Inside box.x box.w img_w
        → Inside box.y box.h img_h
        → cv.init frame box ≡ (true, native)
        → IsStarted t frame bbox (ok true, record t { tracker = some native })
    not_taken :
        {img_h img_w : ℤ} (box : CvBox)
        → str_eq t.tracker_type "none" ≡ false
        → t.has_factory ≡ true
        → to_cv_bbox R cv round_int bbox frame ≡ ok (some box)
        → shape frame ≡ some (img_h, img_w)
        → Inside box.x box.w img_w
        → Inside box.y box.h img_h
        → (cv.init frame box).0 ≡ false
        → IsStarted t frame bbox (ok false, record t { tracker = none })
    no_box :
        str_eq t.tracker_type "none" ≡ false
        → t.has_factory ≡ true
        → to_cv_bbox R cv round_int bbox frame ≡ ok none
        → IsStarted t frame bbox (ok false, record t { tracker = none })
    none_type :
        str_eq t.tracker_type "none" ≡ true
        → IsStarted t frame bbox (ok false, record t { tracker = none })
    no_factory :
        str_eq t.tracker_type "none" ≡ false
        → t.has_factory ≡ false
        → IsStarted t frame bbox (ok false, t)
    not_a_number :
        {e : Error} (side : Float)
        → str_eq t.tracker_type "none" ≡ false
        → t.has_factory ≡ true
        → IsSide R cv round_int bbox side
        → round_int side ≡ raise e
        → IsStarted t frame bbox (raise e, t)

  on_init-IsStarted :
      (t : OpencvTracker Native) (frame : Frame) (bbox : PixelBbox Float) {img_h img_w : ℤ}
      (box : CvBox) (answer : Bool × Native)
      → str_eq t.tracker_type "none" ≡ false
      → t.has_factory ≡ true
      → to_cv_bbox R cv round_int bbox frame ≡ ok (some box)
      → shape frame ≡ some (img_h, img_w)
      → Inside box.x box.w img_w
      → Inside box.y box.h img_h
      → cv.init frame box ≡ answer
      → IsStarted t frame bbox (on_init R cv round_int t answer)
  on_init-IsStarted t frame bbox box (true, native) named made known sized in_x in_y answered =
      started box native named made known sized in_x in_y answered
  on_init-IsStarted t frame bbox box (false, native) named made known sized in_x in_y answered =
      not_taken box named made known sized in_x in_y (ap (λ a. a.0) answered)

  on_cv_box-IsStarted :
      (t : OpencvTracker Native) (frame : Frame) (bbox : PixelBbox Float) {size : Option (ℤ × ℤ)}
      {out : Result (Option CvBox)}
      → str_eq t.tracker_type "none" ≡ false
      → t.has_factory ≡ true
      → to_cv_bbox R cv round_int bbox frame ≡ out
      → shape frame ≡ size
      → IsPlaced R cv round_int bbox size out
      → IsStarted t frame bbox (on_cv_box R cv round_int t frame out)
  on_cv_box-IsStarted t frame bbox named made known sized (inside box in_x in_y) =
      on_init-IsStarted t frame bbox box (cv.init frame box) named made known sized in_x in_y refl
  on_cv_box-IsStarted t frame bbox named made known sized no_shape = no_box named made known
  on_cv_box-IsStarted t frame bbox named made known sized (empty_frame small) =
      no_box named made known
  on_cv_box-IsStarted t frame bbox named made known sized (empty_box w h known_w known_h short) =
      no_box named made known
  on_cv_box-IsStarted t frame bbox named made known sized (not_rounded side of_box failed) =
      not_a_number side named made of_box failed

  guarded-IsStarted :
      (t : OpencvTracker Native) (frame : Frame) (bbox : PixelBbox Float) (off made : Bool)
      → str_eq t.tracker_type "none" ≡ off
      → t.has_factory ≡ made
      → IsStarted t frame bbox (
          if off
          then (ok false, record t { tracker = none })
          else if not made
          then (ok false, t)
          else on_cv_box R cv round_int t frame (to_cv_bbox R cv round_int bbox frame))
  guarded-IsStarted t frame bbox true made named has = none_type named
  guarded-IsStarted t frame bbox false false named has = no_factory named has
  guarded-IsStarted t frame bbox false true named has =
      on_cv_box-IsStarted t frame bbox named has refl refl
        (to_cv_bbox-IsPlaced R cv round_int bbox frame)

  -- `initialize` answers True only when the type is not none, there is a factory and OpenCV took
  -- a box that lies within the frame and is not empty, and the tracker is active then. It answers
  -- False, and the tracker is not active then, if OpenCV refused such a box, there is no box, or
  -- the type is none; without a factory it answers False and leaves the tracker as it was. It
  -- raises only what rounding one of the four numbers of the box raised, and leaves the tracker
  -- as it was.
  pub initialize-IsStarted :
      (frame : Frame) (bbox : PixelBbox Float) (t : OpencvTracker Native)
      → IsStarted t frame bbox (initialize R cv round_int frame bbox t)
  unfolding initialize
  initialize-IsStarted frame bbox t =
      guarded-IsStarted t frame bbox (str_eq t.tracker_type "none") t.has_factory refl refl

  -- Outcomes of `update`: a box is given exactly when the tracker goes on, and it is not empty
  pub data IsUpdated (t : OpencvTracker Native)
      : Bool × Option (PixelBbox Float) × OpencvTracker Native → Type 0 where
    goes_on :
        (box : PixelBbox Float) (native : Native)
        → active t ≡ true
        → le box.w (zero_f R) ≡ false
        → le box.h (zero_f R) ≡ false
        → IsUpdated t (true, some box, record t { tracker = some native })
    stops : {t' : OpencvTracker Native} → active t' ≡ false → IsUpdated t (false, none, t')

  on_update-IsUpdated :
      (t : OpencvTracker Native) (found : Bool) (box : PixelBbox Float) (native : Native)
      (empty_w empty_h : Bool)
      → active t ≡ true
      → le box.w (zero_f R) ≡ empty_w
      → le box.h (zero_f R) ≡ empty_h
      → IsUpdated t (
          if not found || (empty_w || empty_h)
          then (false, none, record t { tracker = none })
          else (true, some box, record t { tracker = some native }))
  on_update-IsUpdated t false box native empty_w empty_h on known_w known_h = stops refl
  on_update-IsUpdated t true box native true empty_h on known_w known_h = stops refl
  on_update-IsUpdated t true box native false true on known_w known_h = stops refl
  on_update-IsUpdated t true box native false false on known_w known_h =
      goes_on box native on known_w known_h

  update_in-IsUpdated :
      (t : OpencvTracker Native) (frame : Frame) (tracker : Option Native)
      → t.tracker ≡ tracker
      → IsUpdated t (update_in R cv round_int t frame tracker)
  update_in-IsUpdated t frame none off = stops (ap is_some off)
  update_in-IsUpdated t frame (some native) on =
      let (found, box, native') = cv.update native frame in
      on_update-IsUpdated t found box native' (le box.w (zero_f R)) (le box.h (zero_f R))
        (ap is_some on) refl refl

  -- Either `update` gives a box, whose width and height are not at most 0, and the tracker was and
  -- stays active, or it gives none and the tracker is not active afterwards.
  pub update-IsUpdated :
      (frame : Frame) (t : OpencvTracker Native) → IsUpdated t (update R cv round_int frame t)
  unfolding update
  update-IsUpdated frame t = update_in-IsUpdated t frame t.tracker refl
