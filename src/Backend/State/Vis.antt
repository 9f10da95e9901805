-- ===== src/Backend/State/Vis.antt =====
-- The vision side of `SharedState` (src/backend/state.py).
use aot_drone.Common.{
  ◌+◌, String, str_eq, if◌then◌else◌, Option, none, some, Result, ok, raise, value_error,
}
use aot_drone.Common.Exec.{Exec, lift, gets, modify, ◌>>=◌, ◌>>◌}
use aot_drone.Runtime.{Runtime}
use aot_drone.Json.{Fields, get}
use aot_drone.Backend.State.Tel.{int_or, float_or_zero, age_of}
use aot_drone.Backend.State.{VisStats, SharedState}

module _ (R : Runtime) where
  open R use {Float, sub}

  abbrev State : Type 0
  State = SharedState Float

  unfoldable pub record_vis_rx_total : State → State
  record_vis_rx_total s = record s { vis = record s.vis { rx_total = s.vis.rx_total + 1 } }

  unfoldable pub record_vis_ok : Fields Float → Float → Exec State (Unit {0})
  record_vis_ok msg rx_monotonic_s = do
    modify (λ s. record s { latest_vis = some msg })
    default ← gets (λ s. s.vis_seq)
    seq ← lift (int_or R default (get "seq" msg))
    modify (λ s. record s { vis_seq = seq })
    modify (λ s. record s { vis = record s.vis { rx_ok = s.vis.rx_ok + 1 } })
    last ← gets (λ s. s.vis.last_seq)
    last_seq ← lift (int_or R last (get "seq" msg))
    modify (λ s. record s { vis = record s.vis { last_seq = last_seq } })
    timestamp_s ← lift (float_or_zero R (get "timestamp_s" msg))
    modify (λ s. record s {
      vis = record s.vis {
        last_timestamp_s = some timestamp_s;
        last_rx_monotonic_s = some rx_monotonic_s;
      };
    })

  -- the clock is an argument
  unfoldable pub update_vis : Fields Float → Float → Exec State (Unit {0})
  unfolding record_vis_ok
  update_vis msg now_s = record_vis_ok msg now_s

  -- the counter of `_VIS_DROP_REASON_ATTRS`, one higher
  abbrev pub count_vis_drop : String → VisStats Float → Option (VisStats Float)
  count_vis_drop reason t =
      if str_eq reason "oversize"
      then some (record t { drop_reason_oversize = t.drop_reason_oversize + 1 })
      else if str_eq reason "json"
      then some (record t { drop_reason_json = t.drop_reason_json + 1 })
      else if str_eq reason "schema"
      then some (record t { drop_reason_schema = t.drop_reason_schema + 1 })
      else if str_eq reason "range"
      then some (record t { drop_reason_range = t.drop_reason_range + 1 })
      else if str_eq reason "semantics"
      then some (record t { drop_reason_semantics = t.drop_reason_semantics + 1 })
      else none

  abbrev count_bad : VisStats Float → VisStats Float
  count_bad t = record t { rx_bad = t.rx_bad + 1 }

  abbrev pub with_vis : State → Option (VisStats Float) → Result (Unit {0}) × State
  with_vis s none = (raise value_error, s)
  with_vis s (some t) = (ok tt, record s { vis = count_bad t })

  unfoldable pub record_vis_drop : String → Exec State (Unit {0})
  record_vis_drop reason s = with_vis s (count_vis_drop reason s.vis)

  unfoldable pub get_vis_age_s : State → Float → Option Float
  get_vis_age_s s now_s = age_of R s.vis.last_rx_monotonic_s now_s
