-- ===== src/Backend/CmdSeq.antt =====
-- The sequence numbers of commands (src/backend/state.py): they run from 0 to 2^31 - 1 and then
-- start again at 0.
pub mod Order
pub mod Reserve
use aot_drone.Common.{
  ℕ, ◌+◌, ◌-◌, ◌*◌, ◌/◌, Bool, ◌&&◌, ltb, leb, if◌then◌else◌, Option, none, some,
}
use aot_drone.Common.Int.{ℤ, pos, negsuc, sub_ℕ, mod_ℤ}

abbrev pub cmd_seq_max : ℕ
cmd_seq_max = 2_147_483_647

abbrev pub cmd_seq_mod : ℕ
cmd_seq_mod = cmd_seq_max + 1

abbrev pub cmd_seq_half : ℕ
cmd_seq_half = cmd_seq_mod / 2

-- `_seq_advances`
unfoldable pub seq_advances : ℕ → ℕ → Bool
unfolding mod_ℤ
seq_advances prev candidate =
    let diff = mod_ℤ (sub_ℕ candidate prev) cmd_seq_mod in ltb 0 diff && leb diff cmd_seq_half

-- `max(0, min(int(minimum), CMD_SEQ_MAX))`
abbrev pub clamp_seq : ℤ → ℕ
clamp_seq (pos n) = if ltb cmd_seq_max n then cmd_seq_max else n
clamp_seq (negsuc n) = 0

-- `ensure_cmd_seq_minimum` on the field `cmd_next_seq`
unfoldable pub ensure_minimum : ℕ → ℤ → ℕ
unfolding seq_advances
ensure_minimum next minimum =
    let clamped = clamp_seq minimum in if seq_advances next clamped then clamped else next

-- the number after `seq`
unfoldable pub seq_after : ℕ → ℕ
seq_after seq = if leb cmd_seq_max seq then 0 else seq + 1

-- `reserve_cmd_seq` on the field `cmd_next_seq`: the number given out, and the next one
unfoldable pub reserve : ℕ → Option ℤ → ℕ × ℕ
unfolding seq_after
reserve next none = (next, seq_after next)
reserve next (some minimum) = let seq = ensure_minimum next minimum in (seq, seq_after seq)
