-- ===== src/Vision/Patterns/Repeats.antt =====
-- The patterns repeat (src/vision/patterns.py).
use aot_drone.Runtime.{Runtime}
use aot_drone.Vision.Types.{target_detected, VisState, tracking}
use aot_drone.Common.Int.{pos}
use aot_drone.Common.{arith, String, refl, ℕ, ◌≡◌, suc, ◌+◌}
use aot_drone.Vision.Patterns.{reacquire, swept, index_in, update_pattern, sweep_bbox, lose}

-- the numbers of the frames from 1 on, by the three periods
index_in-repeats :
    (n : ℕ)
    → (index_in 120 (pos (suc n + 1440)) ≡ index_in 120 (pos (suc n)))
      × (index_in 160 (pos (suc n + 1440)) ≡ index_in 160 (pos (suc n)))
      × (index_in 180 (pos (suc n + 1440)) ≡ index_in 180 (pos (suc n)))
unfolding index_in
index_in-repeats n = (omega arith, omega arith, omega arith)

module _ (R : Runtime) (sin : R.Float → R.Float) (pi : R.Float) where
  open R use {Float, decimal}

  sweep_bbox-repeats :
      (n : ℕ) → sweep_bbox R sin pi (pos (suc n + 1440)) ≡ sweep_bbox R sin pi (pos (suc n))
  unfolding sweep_bbox
  sweep_bbox-repeats n = rw ((index_in-repeats n).0) refl

  swept-repeats :
      (state : VisState) (n : ℕ) (confidence : Float)
      → swept R sin pi state (pos (suc n + 1440)) confidence
        ≡ swept R sin pi state (pos (suc n)) confidence
  unfolding swept
  swept-repeats state n confidence = rw (sweep_bbox-repeats n) refl

  lose-repeats : (n : ℕ) → lose R sin pi (pos (suc n + 1440)) ≡ lose R sin pi (pos (suc n))
  unfolding lose
  lose-repeats n =
      let (_, same, _) = index_in-repeats n in
      rw
        (
          same,
          swept-repeats tracking n (decimal (pos 9) 1),
          swept-repeats target_detected n (decimal (pos 7) 1),
        )
        refl

  reacquire-repeats :
      (n : ℕ) → reacquire R sin pi (pos (suc n + 1440)) ≡ reacquire R sin pi (pos (suc n))
  unfolding reacquire
  reacquire-repeats n =
      let (_, _, same) = index_in-repeats n in
      rw
        (
          same,
          swept-repeats target_detected n (decimal (pos 65) 2),
          swept-repeats tracking n (decimal (pos 93) 2),
          swept-repeats target_detected n (decimal (pos 72) 2),
        )
        refl

  -- From frame 1 on, every pattern repeats after 1440 frames.
  pub update_pattern-repeats :
      (mode : String) (n : ℕ)
      → update_pattern R sin pi mode (pos (suc n + 1440))
        ≡ update_pattern R sin pi mode (pos (suc n))
  unfolding update_pattern
  update_pattern-repeats mode n =
      rw (swept-repeats tracking n (decimal (pos 92) 2), lose-repeats n, reacquire-repeats n) refl
