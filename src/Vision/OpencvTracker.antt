-- ===== src/Vision/OpencvTracker.antt =====
-- `OpenCvTracker` (src/vision/opencv_tracker.py): a tracker of OpenCV behind three calls, and the box
-- that it is started with.
pub mod Placed
pub mod Active
pub mod Drive
use aot_drone.Vision.Types.{PixelBbox}
use aot_drone.Runtime.{Runtime, zero_f, StrMethods}
use aot_drone.Common.Int.{leb_ℤ, pos, ℤ, ◌-ℤ◌, ltb_ℤ}
use aot_drone.Common.{
  ok, false, str_eq, raise, some, Result, true, ◌||◌, is_some, value_error, none, Bool, guard,
  Option, not, runtime_error, String, if◌then◌else◌, ◌>>=◌, ◌>>◌, ◌≡◌,
}

-- (x, y, w, h) in whole pixels
pub record CvBox : Type 0 where
  pub x : ℤ
  pub y : ℤ
  pub w : ℤ
  pub h : ℤ

-- OpenCV: the frames with the height and width that `frame.shape` begins with, if it does, and what a
-- tracker answers
pub record Cv (F : Type 0) : Type 1 where
  pub Frame : Type 0
  pub Native : Type 0
  pub shape : Frame → Option (ℤ × ℤ)
  -- `self._factory()` with `init`
  pub init : Frame → CvBox → Bool × Native
  pub update : Native → Frame → Bool × PixelBbox F × Native

pub record OpencvTracker (T : Type 0) : Type 0 where
  pub tracker_type : String
  -- whether there is a `_factory`
  pub has_factory : Bool
  -- `_tracker`
  pub tracker : Option T

abbrev pub min_ℤ : ℤ → ℤ → ℤ
min_ℤ a b = if ltb_ℤ b a then b else a

abbrev pub max_ℤ : ℤ → ℤ → ℤ
max_ℤ a b = if ltb_ℤ a b then b else a

-- the start and the length along one side of the frame
unfoldable pub place : ℤ → ℤ → ℤ → ℤ × ℤ
unfolding ◌-ℤ◌
place x w size = let x' = max_ℤ (pos 0) (min_ℤ x (size -ℤ pos 1)) in (x', min_ℤ w (size -ℤ x'))

abbrev is_tracker_type : String → Bool
is_tracker_type s = str_eq s "none" || str_eq s "kcf" || str_eq s "csrt"

module _ {T : Type 0} where
  abbrev with_factory : String → Bool → Result (OpencvTracker T)
  with_factory tracker_type found =
      if str_eq tracker_type "none"
      then ok (record { tracker_type = tracker_type; has_factory = false; tracker = none })
      else if found
      then ok (record { tracker_type = tracker_type; has_factory = true; tracker = none })
      else raise runtime_error

  -- `__init__`; `found` says whether OpenCV is there and has the tracker
  unfoldable pub new_opencv_tracker :
      StrMethods → (String → Bool) → String → Result (OpencvTracker T)
  new_opencv_tracker str found tracker_type = do
    guard (is_tracker_type (str.lower (str.strip tracker_type))) value_error
    with_factory (str.lower (str.strip tracker_type)) (found (str.lower (str.strip tracker_type)))

  abbrev pub active : OpencvTracker T → Bool
  active t = is_some t.tracker

  unfoldable pub reset_opencv : OpencvTracker T → OpencvTracker T
  reset_opencv t = record t { tracker = none }

-- `round_int` is `int(round(x))`, which raises on NaN and on the infinities
module _ (R : Runtime) (cv : Cv R.Float) (round_int : R.Float → Result ℤ) where
  open R use {Float, le}
  open cv use {Frame, Native, shape}

  abbrev pub none_if : Bool → Result (Option CvBox) → Result (Option CvBox)
  none_if true rest = ok none
  none_if false rest = rest

  -- the box below the checks of the frame and of the rounded size
  unfoldable pub place_box : ℤ → ℤ → ℤ → ℤ → ℤ × ℤ → Option CvBox
  unfolding place
  place_box x y w h (img_h, img_w) =
      let (x', w') = place x w img_w in
      let (y', h') = place y h img_h in
      if leb_ℤ w' (pos 0) || leb_ℤ h' (pos 0)
      then none
      else some (record { x = x'; y = y'; w = w'; h = h' })

  abbrev pub round_box : PixelBbox Float → ℤ × ℤ → Result (Option CvBox)
  round_box bbox size = do
    x ← round_int bbox.x
    y ← round_int bbox.y
    w ← round_int bbox.w
    h ← round_int bbox.h
    none_if (leb_ℤ w (pos 0) || leb_ℤ h (pos 0)) (ok (place_box x y w h size))

  abbrev pub to_cv_in : PixelBbox Float → Option (ℤ × ℤ) → Result (Option CvBox)
  to_cv_in bbox none = ok none
  to_cv_in bbox (some (img_h, img_w)) =
      none_if (leb_ℤ img_w (pos 0) || leb_ℤ img_h (pos 0)) (round_box bbox (img_h, img_w))

  -- `_to_cv_bbox`
  unfoldable pub to_cv_bbox : PixelBbox Float → Frame → Result (Option CvBox)
  unfolding place_box
  to_cv_bbox bbox frame = to_cv_in bbox (shape frame)

  abbrev pub on_init : OpencvTracker Native → Bool × Native → Result Bool × OpencvTracker Native
  on_init t (true, native) = (ok true, record t { tracker = some native })
  on_init t (false, native) = (ok false, record t { tracker = none })

  abbrev pub on_cv_box :
      OpencvTracker Native → Frame → Result (Option CvBox) → Result Bool × OpencvTracker Native
  on_cv_box t frame (raise e) = (raise e, t)
  on_cv_box t frame (ok none) = (ok false, record t { tracker = none })
  on_cv_box t frame (ok (some box)) = on_init t (cv.init frame box)

  unfoldable pub initialize :
      Frame → PixelBbox Float → OpencvTracker Native → Result Bool × OpencvTracker Native
  unfolding to_cv_bbox
  initialize frame bbox t =
      if str_eq t.tracker_type "none"
      then (ok false, record t { tracker = none })
      else if not t.has_factory
      then (ok false, t)
      else on_cv_box t frame (to_cv_bbox bbox frame)

  abbrev pub on_update :
      OpencvTracker Native
      → Bool × PixelBbox Float × Native
      → Bool × Option (PixelBbox Float) × OpencvTracker Native
  on_update t (found, box, native) =
      if not found || (le box.w (zero_f R) || le box.h (zero_f R))
      then (false, none, record t { tracker = none })
      else (true, some box, record t { tracker = some native })

  abbrev pub update_in :
      OpencvTracker Native
      → Frame
      → Option Native
      → Bool × Option (PixelBbox Float) × OpencvTracker Native
  update_in t frame none = (false, none, t)
  update_in t frame (some native) = on_update t (cv.update native frame)

  unfoldable pub update :
      Frame → OpencvTracker Native → Bool × Option (PixelBbox Float) × OpencvTracker Native
  update frame t = update_in t frame t.tracker
