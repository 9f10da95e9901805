-- ===== src/Vision/Types.antt =====
-- src/vision/types.py: the values that the vision process passes around.
pub mod Clamp
pub mod Message
use aot_drone.Common.{ℕ, Bool, ◌||◌, Option, Result, ok, value_error, guard, not, ◌>>=◌, ◌>>◌}
use aot_drone.Common.Int.{ℤ, pos, leb_ℤ, ◌+ℤ◌}
use aot_drone.Runtime.{Runtime, or_overflow, zero_f, one_f, max_f, min_f}

pub data VisState : Type 0 where
  no_target target_detected tracking searching : VisState

pub record PixelBbox (F : Type 0) : Type 0 where
  pub x : F
  pub y : F
  pub w : F
  pub h : F

pub record NormalizedBbox (F : Type 0) : Type 0 where
  pub cx : F
  pub cy : F
  pub w : F
  pub h : F

pub record Detection (F : Type 0) : Type 0 where
  pub bbox : PixelBbox F
  pub confidence : F
  pub track_id : ℤ

module _ (R : Runtime) where
  open R use {Float, decimal, add, mul, div, of_int}

  unfoldable pub clamp01 : Float → Float
  unfolding max_f min_f
  clamp01 value = max_f R (zero_f R) (min_f R (one_f R) value)

  -- `NormalizedBBox.zero()`
  abbrev pub zero_bbox : NormalizedBbox Float
  zero_bbox = record { cx = zero_f R; cy = zero_f R; w = zero_f R; h = zero_f R }

  -- the body below the check of the dimensions, both already converted
  unfoldable pub normalize_in : PixelBbox Float → Float → Float → NormalizedBbox Float
  unfolding clamp01
  normalize_in b img_w_f img_h_f = record {
    cx = clamp01 (div (add b.x (div b.w (decimal (pos 2) 0))) img_w_f);
    cy = clamp01 (div (add b.y (div b.h (decimal (pos 2) 0))) img_h_f);
    w = clamp01 (div b.w img_w_f);
    h = clamp01 (div b.h img_h_f);
  }

  unfoldable pub normalize_bbox_xywh : PixelBbox Float → ℤ → ℤ → Result (NormalizedBbox Float)
  normalize_bbox_xywh b img_w img_h = do
    guard (not (leb_ℤ img_w (pos 0) || leb_ℤ img_h (pos 0))) value_error
    img_w_f ← or_overflow (of_int img_w)
    img_h_f ← or_overflow (of_int img_h)
    ok (normalize_in b img_w_f img_h_f)
