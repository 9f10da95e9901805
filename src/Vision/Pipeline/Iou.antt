-- ===== src/Vision/Pipeline/Iou.antt =====
-- `_iou` (src/vision/vision_pipeline.py).
use aot_drone.Common.{Bool, not, ◌&&◌, ◌||◌, if◌then◌else◌}
use aot_drone.Runtime.{Runtime, zero_f, max_f, min_f}
use aot_drone.Vision.Types.{PixelBbox}

module _ (R : Runtime) where
  open R use {Float, le, add, sub, mul, div, is_finite}

  abbrev pub all_finite : PixelBbox Float → Bool
  all_finite b = is_finite b.x && (is_finite b.y && (is_finite b.w && is_finite b.h))

  -- the overlap of two boxes with positive sides, along with the last two checks
  pub overlap_ratio : PixelBbox Float → PixelBbox Float → Float
  overlap_ratio a b =
      let inter_x1 = max_f R a.x b.x in
      let inter_y1 = max_f R a.y b.y in
      let inter_x2 = min_f R (add a.x a.w) (add b.x b.w) in
      let inter_y2 = min_f R (add a.y a.h) (add b.y b.h) in
      let inter_w = sub inter_x2 inter_x1 in
      let inter_h = sub inter_y2 inter_y1 in
      let inter_area = mul inter_w inter_h in
      let union_area = sub (add (mul a.w a.h) (mul b.w b.h)) inter_area in
      if le inter_w (zero_f R) || le inter_h (zero_f R)
      then zero_f R
      else if le union_area (zero_f R)
      then zero_f R
      else div inter_area union_area

  unfoldable pub iou : PixelBbox Float → PixelBbox Float → Float
  unfolding overlap_ratio
  iou a b =
      if not (all_finite a && all_finite b)
      then zero_f R
      else if le a.w (zero_f R) || (le a.h (zero_f R) || (le b.w (zero_f R) || le b.h (zero_f R)))
      then zero_f R
      else overlap_ratio a b
