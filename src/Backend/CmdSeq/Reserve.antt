-- ===== src/Backend/CmdSeq/Reserve.antt =====
-- The numbers that `reserve_cmd_seq` and `ensure_cmd_seq_minimum` of src/backend/state.py give.
use aot_drone.Common.{ℕ, zero, suc, ◌+◌, ◌%◌, ◌<◌, ◌≡◌, ◌≢◌, ◌⊎◌, true, false, none, arith}
use aot_drone.Common.Int.{ℤ, pos, negsuc}
use aot_drone.Backend.CmdSeq.{
  cmd_seq_mod, seq_advances, clamp_seq, ensure_minimum, seq_after, reserve,
}

clamp_seq-lt : (m : ℤ) → clamp_seq m < cmd_seq_mod
clamp_seq-lt (pos n) = ground arith
clamp_seq-lt (negsuc n) = omega arith

-- For a next number in the range, `ensure_cmd_seq_minimum` keeps it in the range, leaves it or
-- moves it ahead, and afterwards the clamped minimum is not ahead of it.
pub ensure_minimum_lem :
    (next : ℕ) (minimum : ℤ)
    → next < cmd_seq_mod
    → (ensure_minimum next minimum < cmd_seq_mod)
      × ((ensure_minimum next minimum ≡ next)
          ⊎ (seq_advances next (ensure_minimum next minimum) ≡ true))
      × (seq_advances (ensure_minimum next minimum) (clamp_seq minimum) ≡ false)
unfolding ensure_minimum
ensure_minimum_lem next (pos n) h = ground arith
ensure_minimum_lem next (negsuc n) h = ground arith

seq_after-mod : (s : ℕ) → s < cmd_seq_mod → seq_after s ≡ (s + 1) % cmd_seq_mod
unfolding seq_after
seq_after-mod s h = ground arith

-- the next number after n calls with no minimum
pub reserve_times : ℕ → ℕ → ℕ
reserve_times zero next = next
reserve_times (suc n) next = reserve_times n (reserve next none).1

-- From a next number in the range, n calls of `reserve_cmd_seq` without a minimum leave it n
-- higher, wrapped at 2^31.
pub reserve_times-mod :
    (n next : ℕ) → next < cmd_seq_mod → reserve_times n next ≡ (next + n) % cmd_seq_mod
unfolding reserve_times reserve
reserve_times-mod zero next h = omega arith
reserve_times-mod (suc n) next h = omega (
  arith,
  seq_after-mod next h,
  reserve_times-mod n (seq_after next) (omega (arith, seq_after-mod next h)),
)

-- From a next number in the range, two calls of `reserve_cmd_seq` without a minimum give out
-- different numbers if they are fewer than 2^31 calls apart.
pub reserve_times_distinct :
    (i k next : ℕ)
    → next < cmd_seq_mod
    → suc k < cmd_seq_mod
    → (reserve (reserve_times i next) none).0 ≢ (reserve (reserve_times (i + suc k) next) none).0
unfolding reserve
reserve_times_distinct i k next h small e =
    omega (arith, e, reserve_times-mod i next h, reserve_times-mod (i + suc k) next h)
