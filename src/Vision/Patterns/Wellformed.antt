-- ===== src/Vision/Patterns/Wellformed.antt =====
-- The synthetic results have the form of those of a tracker (src/vision/patterns.py).
use aot_drone.Vision.Pipeline.Blind.{unseen}
use aot_drone.Vision.Pipeline.Defs.{TrackerResult, zero_result}
use aot_drone.Vision.Types.Clamp.{clamp01-InUnit, InUnit, IsNormalized}
use aot_drone.Vision.Patterns.{swept, update_pattern, sweep_bbox, lose, reacquire}
use aot_drone.Runtime.{Runtime, one_f, Laws}
use aot_drone.Common.Int.{ℤ, pos}
use aot_drone.Common.{
  inr, false, Bool, if◌then◌else◌, ◌≤◌, ◌≡◌, true, inl, refl, arith, ◌⊎◌, subst, ℕ, String,
}
use aot_drone.Vision.Types.{no_target, tracking, searching, VisState, target_detected}

module _ (R : Runtime) where
  open R use {Float, decimal}

  -- 1.0 and 1.00 are the same number
  abbrev pub DecimalOne : Type 0
  DecimalOne = (decimal (pos 10) 1 ≡ one_f R) × (decimal (pos 100) 2 ≡ one_f R)

  -- a target that is seen with a number and a place, or nothing
  abbrev pub IsWellformed : TrackerResult Float → Type 0
  IsWellformed r =
      (((r.state ≡ tracking) ⊎ (r.state ≡ target_detected))
        × InUnit R r.conf
        × IsNormalized R r.bbox
        × (r.track_id ≡ pos 1))
      ⊎ (((r.state ≡ searching) ⊎ (r.state ≡ no_target)) × (r ≡ zero_result R r.state))

  module _ (laws : Laws R) (one : DecimalOne) (sin : Float → Float) (pi : Float) where
    open laws use {decimal_mono, decimal_zero}

    decimal-InUnit :
        (n m k : ℕ) → decimal (pos m) k ≡ one_f R → n ≤ m → InUnit R (decimal (pos n) k)
    decimal-InUnit n m k is_one small = (
      subst (λ z. R.le z (decimal (pos n) k) ≡ true) (decimal_zero k)
          (decimal_mono (pos 0) (pos n) k (ground arith)),
      subst (λ z. R.le (decimal (pos n) k) z ≡ true) is_one
          (decimal_mono (pos n) (pos m) k (ground (arith, small))),
    )

    swept-IsWellformed :
        (state : VisState) (frame_id : ℤ) (confidence : Float)
        → (state ≡ tracking) ⊎ (state ≡ target_detected)
        → IsWellformed (swept R sin pi state frame_id confidence)
    unfolding swept sweep_bbox
    swept-IsWellformed state frame_id confidence seen = inl (
      seen,
      clamp01-InUnit R laws confidence,
      record {
        cx_in = clamp01-InUnit R laws _;
        cy_in = clamp01-InUnit R laws _;
        w_in = decimal-InUnit 24 100 2 one.1 (omega arith);
        h_in = decimal-InUnit 3 10 1 one.0 (omega arith);
      },
      refl,
    )

    if-IsWellformed :
        (cond : Bool) {r t : TrackerResult Float}
        → IsWellformed r
        → IsWellformed t
        → IsWellformed (if cond then r else t)
    if-IsWellformed true r t = r
    if-IsWellformed false r t = t

    blank-IsWellformed :
        (state : VisState)
        → (state ≡ searching) ⊎ (state ≡ no_target)
        → IsWellformed (zero_result R state)
    blank-IsWellformed state unseen = inr (unseen, refl)

    lose-IsWellformed : (frame_id : ℤ) → IsWellformed (lose R sin pi frame_id)
    unfolding lose
    lose-IsWellformed frame_id =
        if-IsWellformed _ (swept-IsWellformed tracking frame_id _ (inl refl)) (
          if-IsWellformed _ (blank-IsWellformed searching (inl refl)) (
            if-IsWellformed _ (blank-IsWellformed no_target (inr refl))
              (swept-IsWellformed target_detected frame_id _ (inr refl))))

    reacquire-IsWellformed : (frame_id : ℤ) → IsWellformed (reacquire R sin pi frame_id)
    unfolding reacquire
    reacquire-IsWellformed frame_id = if-IsWellformed _ (blank-IsWellformed no_target (inr refl)) (
        if-IsWellformed _ (swept-IsWellformed target_detected frame_id _ (inr refl)) (
          if-IsWellformed _ (swept-IsWellformed tracking frame_id _ (inl refl)) (
            if-IsWellformed _ (blank-IsWellformed searching (inl refl))
              (swept-IsWellformed target_detected frame_id _ (inr refl)))))

    -- When the laws of floats hold and 1.0 and 1.00 are 1, a pattern gives for every frame a
    -- result of a target that is tracked or detected, with track id 1, a confidence in [0, 1] and
    -- a normalized box, or the zero result of a state without a target.
    pub update_pattern-IsWellformed :
        (mode : String) (frame_id : ℤ) → IsWellformed (update_pattern R sin pi mode frame_id)
    unfolding update_pattern
    update_pattern-IsWellformed mode frame_id =
        if-IsWellformed _ (swept-IsWellformed tracking frame_id _ (inl refl)) (
          if-IsWellformed _ (lose-IsWellformed frame_id) (
            if-IsWellformed _ (reacquire-IsWellformed frame_id)
              (blank-IsWellformed no_target (inr refl))))
