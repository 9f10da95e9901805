-- ===== src/Vision/Types/Clamp.antt =====
-- The range of `clamp01` and of the boxes that `normalize_bbox_xywh` builds (src/vision/types.py).
use aot_drone.Common.{
  ◌||◌, not, value_error, not, subst, ok-injective, >>=-eq-ok, guard, ◌≡◌, refl, true, ok, arith,
}
use aot_drone.Common.Int.{leb_ℤ, ℤ, pos}
use aot_drone.Runtime.{or_overflow, Runtime, Laws, zero_f, one_f}
use aot_drone.Vision.Types.{
  PixelBbox, NormalizedBbox, clamp01, normalize_in, normalize_bbox_xywh, zero_bbox,
}

module _ (R : Runtime) where
  open R use {of_int, Float, decimal, le}

  abbrev pub InUnit : Float → Type 0
  InUnit x = (le (zero_f R) x ≡ true) × (le x (one_f R) ≡ true)

  pub record IsNormalized (b : NormalizedBbox Float) : Type 0 where
    pub cx_in : InUnit b.cx
    pub cy_in : InUnit b.cy
    pub w_in : InUnit b.w
    pub h_in : InUnit b.h

  module _ (laws : Laws R) where
    open laws use {le_of_lt, decimal_mono, zero_lt_one}

    pub clamp01-InUnit : (x : Float) → InUnit (clamp01 R x)
    unfolding clamp01
    clamp01-InUnit x = ground (
      arith,
      le_of_lt x (one_f R),
      le_of_lt (zero_f R) x,
      le_of_lt (zero_f R) (one_f R),
      zero_lt_one,
      decimal_mono (pos 0) (pos 0) 0 refl,
      decimal_mono (pos 1) (pos 1) 0 refl,
    )

    -- When the laws of floats hold, clamping a clamped value to [0, 1] changes nothing, NaN
    -- included.
    pub clamp01_idem : (x : Float) → clamp01 R (clamp01 R x) ≡ clamp01 R x
    unfolding clamp01
    clamp01_idem x = ground (arith, zero_lt_one)

    normalize_in-IsNormalized :
        (b : PixelBbox Float) (w h : Float) → IsNormalized (normalize_in R b w h)
    unfolding normalize_in
    normalize_in-IsNormalized b w h = record {
      cx_in = clamp01-InUnit _;
      cy_in = clamp01-InUnit _;
      w_in = clamp01-InUnit _;
      h_in = clamp01-InUnit _;
    }

    -- When the laws of floats hold, the four values of a box that `normalize_bbox_xywh` returns
    -- are in [0, 1].
    pub normalize_bbox_xywh-IsNormalized :
        (b : PixelBbox Float) (img_w img_h : ℤ) {n : NormalizedBbox Float}
        → normalize_bbox_xywh R b img_w img_h ≡ ok n
        → IsNormalized n
    unfolding normalize_bbox_xywh
    normalize_bbox_xywh-IsNormalized b img_w img_h h =
        let (_, sized, h1) =
          >>=-eq-ok (guard (not (leb_ℤ img_w (pos 0) || leb_ℤ img_h (pos 0))) value_error) _ h in
        let (w, wide, h2) = >>=-eq-ok (or_overflow (of_int img_w)) _ h1 in
        let (v, high, h3) = >>=-eq-ok (or_overflow (of_int img_h)) _ h2 in
        subst IsNormalized (ok-injective h3) (normalize_in-IsNormalized b w v)

    pub zero-InUnit : InUnit (zero_f R)
    zero-InUnit = (decimal_mono (pos 0) (pos 0) 0 refl, decimal_mono (pos 0) (pos 1) 0 refl)

    pub zero_bbox-IsNormalized : IsNormalized (zero_bbox R)
    zero_bbox-IsNormalized = record {
      cx_in = zero-InUnit;
      cy_in = zero-InUnit;
      w_in = zero-InUnit;
      h_in = zero-InUnit;
    }
