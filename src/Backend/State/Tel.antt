-- ===== src/Backend/State/Tel.antt =====
-- The telemetry side of `SharedState` (src/backend/state.py).
use aot_drone.Common.{
  ◌+◌, String, str_eq, if◌then◌else◌, Option, none, some, Result, ok, raise, value_error,
}
use aot_drone.Common.Exec.{Exec, lift, gets, modify, ◌>>=◌, ◌>>◌}
use aot_drone.Common.Int.{ℤ}
use aot_drone.Runtime.{Runtime, zero_f, max_f}
use aot_drone.Json.{Value, Fields, get, int_of, float_of}
use aot_drone.Backend.State.{TelStats, SharedState}

module _ (R : Runtime) where
  open R use {Float, sub}

  -- `int(msg.get(k, default))` for a default that is an int, and `float(msg.get(k, 0.0))`
  abbrev pub int_or : ℤ → Option (Value Float) → Result ℤ
  int_or default none = ok default
  int_or default (some v) = int_of R v

  abbrev pub float_or_zero : Option (Value Float) → Result Float
  float_or_zero none = ok (zero_f R)
  float_or_zero (some v) = float_of R v

  abbrev State : Type 0
  State = SharedState Float

  unfoldable pub record_tel_rx_total : State → State
  record_tel_rx_total s = record s { tel = record s.tel { rx_total = s.tel.rx_total + 1 } }

  unfoldable pub record_tel_ok : Fields Float → Float → Exec State (Unit {0})
  record_tel_ok msg rx_monotonic_s = do
    modify (λ s. record s { latest_tel = some msg })
    default ← gets (λ s. s.tel_seq)
    seq ← lift (int_or default (get "seq" msg))
    modify (λ s. record s { tel_seq = seq })
    modify (λ s. record s { tel = record s.tel { rx_ok = s.tel.rx_ok + 1 } })
    last ← gets (λ s. s.tel.last_seq)
    last_seq ← lift (int_or last (get "seq" msg))
    modify (λ s. record s { tel = record s.tel { last_seq = last_seq } })
    timestamp_s ← lift (float_or_zero (get "timestamp_s" msg))
    modify (λ s. record s {
      tel = record s.tel {
        last_timestamp_s = some timestamp_s;
        last_rx_monotonic_s = some rx_monotonic_s;
      };
    })

  -- the clock is an argument
  unfoldable pub update_tel : Fields Float → Float → Exec State (Unit {0})
  unfolding record_tel_ok
  update_tel msg now_s = record_tel_ok msg now_s

  -- the counter of `_TEL_DROP_REASON_ATTRS`, one higher
  abbrev pub count_tel_drop : String → TelStats Float → Option (TelStats Float)
  count_tel_drop reason t =
      if str_eq reason "oversize"
      then some (record t { drop_reason_oversize = t.drop_reason_oversize + 1 })
      else if str_eq reason "json"
      then some (record t { drop_reason_json = t.drop_reason_json + 1 })
      else if str_eq reason "schema"
      then some (record t { drop_reason_schema = t.drop_reason_schema + 1 })
      else if str_eq reason "range"
      then some (record t { drop_reason_range = t.drop_reason_range + 1 })
      else none

  abbrev count_bad : TelStats Float → TelStats Float
  count_bad t = record t { rx_bad = t.rx_bad + 1 }

  abbrev pub with_tel : State → Option (TelStats Float) → Result (Unit {0}) × State
  with_tel s none = (raise value_error, s)
  with_tel s (some t) = (ok tt, record s { tel = count_bad t })

  unfoldable pub record_tel_drop : String → Exec State (Unit {0})
  record_tel_drop reason s = with_tel s (count_tel_drop reason s.tel)

  -- the age at `now_s` of what was received then
  abbrev pub age_of : Option Float → Float → Option Float
  age_of none now_s = none
  age_of (some last_rx) now_s = some (max_f R (zero_f R) (sub now_s last_rx))

  unfoldable pub get_tel_age_s : State → Float → Option Float
  get_tel_age_s s now_s = age_of s.tel.last_rx_monotonic_s now_s
