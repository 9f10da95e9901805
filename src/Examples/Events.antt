-- ===== src/Examples/Events.antt =====
-- The broadcaster of the gateway on fixed inputs (src/backend/broadcast.py).
use aot_drone.Backend.WsManager.Queues.{ManagerInv}
use aot_drone.Common.Dicts.{assign, find}
use aot_drone.Backend.WsManager.{broadcast, build_envelope, WsManager}
use aot_drone.Backend.Broadcast.Runs.{Run-BroadcasterInv}
use aot_drone.Common.Int.{◌*ℤ◌, pos, ◌-ℤ◌}
use aot_drone.Backend.State.Views.{get_latest_tel_with_meta}
use aot_drone.Backend.State.{new_state, SharedState}
use aot_drone.Runtime.Micros.{
  scale, decimal_num, le_num, quot, Num, div_ints, micros, num, both, lt_num,
}
use aot_drone.Common.{true, some, ◌∷◌, refl, arith, none, ◌≡◌, ok, []}
use aot_drone.Json.{get, int, end, field}
use aot_drone.Backend.Broadcast.Throttle.{
  is_warning, tel_updates, later, BroadcasterInv, connection_changes, is_event, times, here,
}
use aot_drone.Backend.Broadcast.{
  can_emit, broadcast_link_status, period_s, new_broadcaster, build_tel_update_data, emit_warning,
  on_tel_update, on_fc_connection_changed, Broadcaster, broadcast_tel_update, BroadcastSettings,
}

abbrev pub ten_per_s : BroadcastSettings Num
ten_per_s = record {
  tel_hz = num (pos 10000000);
  vis_hz = num (pos 10000000);
  link_hz = num (pos 2000000);
  vis_fresh_s = num (pos 250000);
  tel_fresh_s = num (pos 500000);
  cmd_timeout_s = num (pos 500000);
  cmd_hz_nominal = num (pos 50000000);
  tel_hz_nominal = num (pos 50000000);
  warning_min_interval_s = num (pos 2000000);
  link_status_extra_provider = none;
}

abbrev pub one_client : WsManager Num
one_client = record {
  queue_max = 2;
  clients = record { client_id = 1; queue = [] } ∷ [];
  next_client_id = 2;
  next_event_seq = 1;
}

one_client-ManagerInv : ManagerInv one_client
one_client-ManagerInv = record {
  room = omega arith;
  all_clients = (record { registered = omega arith; bounded = omega arith; numbered = tt }, tt);
  unique = (tt, tt);
}

abbrev with_tel : SharedState Num
with_tel = record (new_state micros 1) { latest_tel = some (field "seq" (int (pos 7)) end) }

broadcaster : (b : Broadcaster Num) × (new_broadcaster micros ten_per_s with_tel one_client ≡ ok b)
unfolding new_broadcaster le_num lt_num decimal_num scale ◌*ℤ◌
broadcaster = (_, refl)

-- two snapshots within a tenth of a second, and a connection between them
abbrev busy : Broadcaster Num
busy = on_tel_update micros ten_per_s end (num (pos 7050000)) (
    on_fc_connection_changed micros ten_per_s (num (pos 7010000)) (num (pos 7020000)) true
      (on_tel_update micros ten_per_s end (num (pos 7000000)) broadcaster.0))

-- the second snapshot was not broadcast
busy_times :
    (times (is_event "TEL_UPDATE") busy.sent ≡ num (pos 7000000) ∷ [])
    × (times (is_warning "fc_reconnected") busy.sent ≡ num (pos 7010000) ∷ [])
    × (times (is_event "LINK_STATUS") busy.sent ≡ num (pos 7020000) ∷ [])
unfolding broadcaster on_tel_update broadcast_tel_update on_fc_connection_changed emit_warning
    broadcast_link_status times broadcast build_envelope can_emit find assign period_s both ◌-ℤ◌
    div_ints quot le_num lt_num decimal_num scale ◌*ℤ◌ build_tel_update_data
    get_latest_tel_with_meta get
busy_times = (refl, refl, refl)

Run-BroadcasterInv_example : BroadcasterInv micros ten_per_s busy
Run-BroadcasterInv_example =
    Run-BroadcasterInv micros ten_per_s with_tel one_client one_client-ManagerInv broadcaster.1 (
      later
        (later (later here (tel_updates end (num (pos 7000000))))
          (connection_changes (num (pos 7010000)) (num (pos 7020000)) true))
        (tel_updates end (num (pos 7050000))))
