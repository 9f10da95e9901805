-- ===== src/Backend/CmdSeq/Order.antt =====
-- The order of sequence numbers across the wrap (`_seq_advances` of src/backend/state.py).
use aot_drone.Common.{ℕ, ◌+◌, ◌-◌, ◌%◌, ◌≤◌, ◌<◌, ◌≡◌, ◌⊎◌, ◌↔◌, true, false, arith}
use aot_drone.Backend.CmdSeq.{cmd_seq_mod, cmd_seq_half, seq_advances, seq_after}

-- how far `b` is ahead of `a`
abbrev pub steps_to : ℕ → ℕ → ℕ
steps_to a b = (b + cmd_seq_mod - a) % cmd_seq_mod

steps_to_lem : (a b : ℕ) → a < cmd_seq_mod → b < cmd_seq_mod → b ≡ (a + steps_to a b) % cmd_seq_mod
steps_to_lem a b ha hb = omega arith

seq_advances-steps_to :
    (a b : ℕ)
    → a < cmd_seq_mod
    → b < cmd_seq_mod
    → seq_advances a b ≡ true
    → (1 ≤ steps_to a b) × (steps_to a b ≤ cmd_seq_half)
unfolding seq_advances
seq_advances-steps_to a b ha hb h = ground arith

ahead_by :
    (a d : ℕ)
    → a < cmd_seq_mod
    → 1 ≤ d
    → d ≤ cmd_seq_half
    → seq_advances a ((a + d) % cmd_seq_mod) ≡ true
unfolding seq_advances
ahead_by a d ha h1 h2 = ground arith

-- For two numbers in the range, `_seq_advances` holds exactly when the second is reached from the
-- first in 1 to 2^30 steps that wrap at 2^31.
pub seq_advances_iff :
    (a b : ℕ)
    → a < cmd_seq_mod
    → b < cmd_seq_mod
    → (seq_advances a b ≡ true)
      ↔ ((d : ℕ) × (1 ≤ d) × (d ≤ cmd_seq_half) × (b ≡ (a + d) % cmd_seq_mod))
seq_advances_iff a b ha hb = (
  λ h.
      let (low, high) = seq_advances-steps_to a b ha hb h in
      (steps_to a b, low, high, steps_to_lem a b ha hb),
  λ t. rw t.3 (ahead_by a t.0 ha t.1 t.2),
)

-- Of two numbers in the range, they are equal or one of them is ahead of the other, and no number
-- is ahead of itself.
pub seq_advances_total :
    (a b : ℕ)
    → a < cmd_seq_mod
    → b < cmd_seq_mod
    → ((a ≡ b) ⊎ (seq_advances a b ≡ true) ⊎ (seq_advances b a ≡ true)) × (seq_advances a a ≡ false)
unfolding seq_advances
seq_advances_total a b ha hb = ground arith

pub seq_advances_both :
    (a b : ℕ)
    → a < cmd_seq_mod
    → b < cmd_seq_mod
    → seq_advances a b ≡ true
    → seq_advances b a ≡ true
    → (a + cmd_seq_half ≡ b) ⊎ (b + cmd_seq_half ≡ a)
unfolding seq_advances
seq_advances_both a b ha hb p q = ground arith

pub seq_advances-seq_after : (a : ℕ) → a < cmd_seq_mod → seq_advances a (seq_after a) ≡ true
unfolding seq_advances seq_after
seq_advances-seq_after a h = ground arith
