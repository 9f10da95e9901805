-- ===== src/Vision/Camera/Backoff.antt =====
-- The waits of the camera stay within their limits (src/vision/camera.py).
use aot_drone.Common.Int.{pos}
use aot_drone.Runtime.{zero_f, min_f, Laws, Runtime, max_f}
use aot_drone.Vision.Camera.{
  grabbed, read, CameraSource, is_live, on_reopened, attempt_one_reconnect, doubled,
}
use aot_drone.Common.{
  Option-cases, inl, ltb, ◌∷◌, inr, Bool-cases, if◌then◌else◌, none, ◌≤◌, Option, ◌⊎◌, ◌≡◌, true,
  some, All, arith, Bool, false, [],
}

module _ (R : Runtime) where
  open R use {Float, decimal, lt, le, mul}

  -- what IEEE 754 says of doubling a number that is not below 0
  abbrev pub DoubleLaw : Type 0
  DoubleLaw = (c : Float) → le (zero_f R) c ≡ true → le c (mul c (decimal (pos 2) 0)) ≡ true

  pub record CameraInv (c : CameraSource Float) : Type 0 where
    pub initial_nonneg : le (zero_f R) c.reconnect_initial_s ≡ true
    pub ordered : le c.reconnect_initial_s c.reconnect_max_s ≡ true
    pub backoff_low : le c.reconnect_initial_s c.next_backoff_s ≡ true
    pub backoff_high : le c.next_backoff_s c.reconnect_max_s ≡ true
    pub grace : c.post_open_grace_remaining ≤ c.black_frames_after_open
    -- every wait was within the limits
    pub waits :
        All (λ s. (le c.reconnect_initial_s s ≡ true) × (le s c.reconnect_max_s ≡ true)) c.slept
    -- only a live source is opened again
    pub opened_once : (c.dead ≡ false) × (c.slept ≡ []) ⊎ (is_live c.spec ≡ true)

  module _ (laws : Laws R) (double : DoubleLaw) where
    open laws use {le_of_lt, le_trans, refl_of_le, le_of_not_lt, not_lt_of_le, decimal_mono}

    le_max : (a x y : Float) → le a x ≡ true → le a (max_f R x y) ≡ true
    unfolding max_f
    le_max a x y low = elim (Bool-cases (lt x y)) [
      | inl less ↦ rw less (le_trans a x y low (le_of_lt x y less))
      | inr more ↦ rw more low
    ]

    min_bounds :
        (a x y : Float)
        → le a x ≡ true
        → le a y ≡ true
        → (le a (min_f R x y) ≡ true) × (le (min_f R x y) x ≡ true)
    unfolding min_f
    min_bounds a x y low_x low_y = elim (Bool-cases (lt y x)) [
      | inl less ↦ rw less (low_y, le_of_lt y x less)
      | inr more ↦ rw more (low_x, (refl_of_le a x low_x).1)
    ]

    doubled-bounds :
        (backoff_s : Float) (c : CameraSource Float)
        → le (zero_f R) c.reconnect_initial_s ≡ true
        → le c.reconnect_initial_s c.reconnect_max_s ≡ true
        → le c.reconnect_initial_s backoff_s ≡ true
        → (le c.reconnect_initial_s (doubled R backoff_s c) ≡ true)
          × (le (doubled R backoff_s c) c.reconnect_max_s ≡ true)
    unfolding doubled
    doubled-bounds backoff_s c nonneg ordered low =
        let twice = mul backoff_s (decimal (pos 2) 0) in
        let grows = double backoff_s (le_trans _ _ _ nonneg low) in
        min_bounds c.reconnect_initial_s c.reconnect_max_s (max_f R twice (decimal (pos 5) 2))
          ordered
          (le_max c.reconnect_initial_s twice (decimal (pos 5) 2) (le_trans _ _ _ low grows))

    on_reopened-CameraInv :
        {A : Type 0} (backoff_s : Float) (first : Option A) (c : CameraSource Float)
        → le c.reconnect_initial_s backoff_s ≡ true
        → CameraInv c
        → CameraInv (on_reopened R backoff_s first c).1
    on_reopened-CameraInv backoff_s (some frame) c low h = record {
      initial_nonneg = h.initial_nonneg;
      ordered = h.ordered;
      backoff_low = (refl_of_le _ _ h.ordered).0;
      backoff_high = h.ordered;
      grace = h.grace;
      waits = h.waits;
      opened_once = h.opened_once;
    }
    on_reopened-CameraInv backoff_s none c low h =
        let (new_low, new_high) = doubled-bounds backoff_s c h.initial_nonneg h.ordered low in
        record {
          initial_nonneg = h.initial_nonneg;
          ordered = h.ordered;
          backoff_low = new_low;
          backoff_high = new_high;
          grace = omega (arith, h.grace);
          waits = h.waits;
          opened_once = h.opened_once;
        }

    slept-All :
        (c : CameraSource Float)
        → CameraInv c
        → All
            (λ s. (le c.reconnect_initial_s s ≡ true) × (le s c.reconnect_max_s ≡ true))
            (if lt (zero_f R) c.next_backoff_s then c.next_backoff_s ∷ c.slept else c.slept)
    slept-All c h = elim (Bool-cases (lt (zero_f R) c.next_backoff_s)) [
      | inl waits ↦ rw waits ((h.backoff_low, h.backoff_high), h.waits)
      | inr at_once ↦ rw at_once h.waits
    ]

    attempt_one_reconnect-CameraInv :
        {A : Type 0} (reopens : Bool) (first : Option A) (c : CameraSource Float)
        → is_live c.spec ≡ true
        → CameraInv c
        → CameraInv (attempt_one_reconnect R reopens first c).1
    unfolding attempt_one_reconnect
    attempt_one_reconnect-CameraInv true first c live h =
        on_reopened-CameraInv c.next_backoff_s first _ h.backoff_low (record {
          initial_nonneg = h.initial_nonneg;
          ordered = h.ordered;
          backoff_low = h.backoff_low;
          backoff_high = h.backoff_high;
          grace = omega arith;
          waits = slept-All c h;
          opened_once = inr live;
        })
    attempt_one_reconnect-CameraInv false first c live h =
        let (new_low, new_high) =
          doubled-bounds c.next_backoff_s c h.initial_nonneg h.ordered h.backoff_low in
        record {
          initial_nonneg = h.initial_nonneg;
          ordered = h.ordered;
          backoff_low = new_low;
          backoff_high = new_high;
          grace = h.grace;
          waits = slept-All c h;
          opened_once = inr live;
        }

    -- When the laws of floats hold and doubling a number that is not below 0 does not lower it, a
    -- read of the camera keeps its invariant: the next wait and all waits so far are between the
    -- initial and the longest one, the frames of grace are within their limit, and only a live
    -- source was waited for or closed.
    pub read-CameraInv :
        {A : Type 0} (grab : Option A) (reopens : Bool) (first : Option A) (c : CameraSource Float)
        → CameraInv c
        → CameraInv (read R grab reopens first c).1
    unfolding read
    read-CameraInv grab reopens first c h = elim (Option-cases (grabbed R grab c)) [
      | inr (frame, got) ↦ rw got (record {
        initial_nonneg = h.initial_nonneg;
        ordered = h.ordered;
        backoff_low = (refl_of_le _ _ h.ordered).0;
        backoff_high = h.ordered;
        grace = omega arith;
        waits = h.waits;
        opened_once = h.opened_once;
      })
      | inl nothing ↦ elim (Bool-cases (is_live c.spec)) [
        | inr recorded ↦ rw (nothing, recorded) h
        | inl live ↦ elim (Bool-cases (ltb 0 c.post_open_grace_remaining)) [
          | inl settling ↦
              rw (nothing, live, settling)
                (record {
                  initial_nonneg = h.initial_nonneg;
                  ordered = h.ordered;
                  backoff_low = h.backoff_low;
                  backoff_high = h.backoff_high;
                  grace = omega (arith, h.grace);
                  waits = h.waits;
                  opened_once = h.opened_once;
                })
          | inr settled ↦
              rw (nothing, live, settled) (attempt_one_reconnect-CameraInv reopens first c live h)
        ]
      ]
    ]
