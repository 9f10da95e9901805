-- ===== src/Vision/BoxSelect.antt =====
-- src/vision/box_select.py: which of a frame's detections is followed.
pub mod Best
use aot_drone.Common.{
  Bool, not, ◌||◌, if◌then◌else◌, Option, none, some, List, [], ◌∷◌, Result, ok, value_error, guard,
  ◌>>=◌, ◌>>◌,
}
use aot_drone.Common.Int.{ℤ, pos, leb_ℤ, ◌*ℤ◌}
use aot_drone.Runtime.{Runtime, or_overflow}
use aot_drone.Vision.Types.{PixelBbox, Detection, clamp01}

module _ (R : Runtime) where
  open R use {Float, decimal, lt, add, sub, mul, div, hypot, of_int}

  unfoldable pub to_norm_center : PixelBbox Float → ℤ → ℤ → Result (Float × Float)
  to_norm_center bbox img_w img_h = do
    guard (not (leb_ℤ img_w (pos 0) || leb_ℤ img_h (pos 0))) value_error
    img_w_f ← or_overflow (of_int img_w)
    img_h_f ← or_overflow (of_int img_h)
    let cx = div (add bbox.x (div bbox.w (decimal (pos 2) 0))) img_w_f
    let cy = div (add bbox.y (div bbox.h (decimal (pos 2) 0))) img_h_f
    ok (clamp01 R cx, clamp01 R cy)

  module _ (img_w img_h : ℤ) (desired_cx desired_cy : Float) where
    unfoldable pub score_box : PixelBbox Float → Result Float
    unfolding to_norm_center
    score_box bbox = do
      center ← to_norm_center bbox img_w img_h
      area ← or_overflow (of_int (img_w *ℤ img_h))
      let dist_to_desired = hypot (sub center.0 desired_cx) (sub center.1 desired_cy)
      let box_area_norm = clamp01 R (div (mul bbox.w bbox.h) area)
      ok (sub dist_to_desired (mul (decimal (pos 25) 2) box_area_norm))

    -- `min` with a key: the first stays unless a later key is below its own.
    unfoldable pub min_by_score :
        Detection Float → Float → List (Detection Float) → Result (Detection Float)
    min_by_score best key [] = ok best
    min_by_score best key (item ∷ items) = do
      k ← score_box item.bbox
      let closer = lt k key
      min_by_score (if closer then item else best) (if closer then k else key) items

    unfoldable pub pick_best_box : List (Detection Float) → Result (Option (Detection Float))
    unfolding min_by_score
    pick_best_box [] = ok none
    pick_best_box (item ∷ items) = do
      key ← score_box item.bbox
      best ← min_by_score item key items
      ok (some best)
