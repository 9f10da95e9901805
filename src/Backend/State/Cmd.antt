-- ===== src/Backend/State/Cmd.antt =====
-- The command side of `SharedState` (src/backend/state.py), and the operator's intent.
use aot_drone.Common.{ℕ, ◌+◌, Bool, true, false, String, if◌then◌else◌, Option, none, some}
use aot_drone.Common.Int.{ℤ, pos}
use aot_drone.Runtime.{Runtime, zero_f, one_f}
use aot_drone.Json.{Value, int, bool, Fields, get, has}
use aot_drone.Backend.State.{SharedState}
use aot_drone.Backend.CmdSeq.{reserve, ensure_minimum}

module _ (R : Runtime) where
  open R use {Float, decimal, lt, le, add, sub, mul, div}

  abbrev State : Type 0
  State = SharedState Float

  unfoldable pub update_intent : Fields Float → Float → State → State
  update_intent intent now_s s = record s {
    latest_intent = some intent;
    intent_last_update_monotonic_s = some now_s;
  }

  unfoldable pub record_fc_connect_attempt : Float → State → State
  record_fc_connect_attempt now_s s = record s {
    cmd = record s.cmd { fc_last_connect_attempt_s = some now_s };
  }

  unfoldable pub set_fc_connected : Bool → State → State
  set_fc_connected connected s = record s { cmd = record s.cmd { fc_connected = connected } }

  unfoldable pub set_tracking_blocked_reason : Option String → State → State
  set_tracking_blocked_reason reason s = record s {
    cmd = record s.cmd { tracking_blocked_reason = reason };
  }

  unfoldable pub record_cmd_tx_attempt : State → State
  record_cmd_tx_attempt s = record s {
    cmd = record s.cmd { cmd_tx_total = s.cmd.cmd_tx_total + 1 };
  }

  -- the estimate after a send at `now_s`
  abbrev pub next_hz : Float → Option Float → Float → Float
  next_hz hz none now_s = hz
  next_hz hz (some prev_sent_s) now_s =
      let delta_s = sub now_s prev_sent_s in
      let inst_hz = div (one_f R) delta_s in
      if lt (zero_f R) delta_s
      then if le hz (zero_f R)
        then inst_hz
        else add (mul (decimal (pos 8) 1) hz) (mul (decimal (pos 2) 1) inst_hz)
      else hz

  unfoldable pub record_cmd_tx_ok : Float → State → State
  record_cmd_tx_ok now_s s = record s {
    cmd = record s.cmd {
      cmd_tx_ok = s.cmd.cmd_tx_ok + 1;
      cmd_last_sent_monotonic_s = some now_s;
      cmd_hz_est = next_hz s.cmd.cmd_hz_est s.cmd.cmd_last_sent_monotonic_s now_s;
    };
  }

  unfoldable pub record_cmd_tx_fail : State → State
  record_cmd_tx_fail s = record s { cmd = record s.cmd { cmd_tx_fail = s.cmd.cmd_tx_fail + 1 } }

  unfoldable pub reserve_cmd_seq : Option ℤ → State → ℕ × State
  reserve_cmd_seq minimum s =
      let (seq, next) = reserve s.cmd.cmd_next_seq minimum in
      (seq, record s { cmd = record s.cmd { cmd_next_seq = next } })

  unfoldable pub ensure_cmd_seq_minimum : ℤ → State → State
  ensure_cmd_seq_minimum minimum s = record s {
    cmd = record s.cmd { cmd_next_seq = ensure_minimum s.cmd.cmd_next_seq minimum };
  }

  -- `int(v) if isinstance(v, int) else None`; a `bool` is an `int` here
  abbrev int_or_none : Option (Value Float) → Option ℤ
  int_or_none (some (int n)) = some n
  int_or_none (some (bool true)) = some (pos 1)
  int_or_none (some (bool false)) = some (pos 0)
  int_or_none _ = none

  unfoldable pub record_last_cmd_payload : Fields Float → ℕ → State → State
  record_last_cmd_payload payload payload_bytes s = record s {
    cmd = record s.cmd {
      last_cmd_seq = int_or_none (get "seq" payload);
      last_cmd_desired_mode = int_or_none (get "desired_mode" payload);
      last_cmd_had_tracking = has "tracking" payload;
      last_cmd_bytes = some payload_bytes;
    };
  }
