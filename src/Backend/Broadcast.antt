-- ===== src/Backend/Broadcast.antt =====
-- `BackendBroadcaster` (src/backend/broadcast.py): what the gateway tells the browsers, and how
-- often. The heartbeat thread calls `broadcast_link_status` with `force`.
pub mod Throttle
pub mod Runs
use aot_drone.Common.Dicts.{assign, find}
use aot_drone.Common.Texts.{str_of}
use aot_drone.Backend.State.{SharedState}
use aot_drone.Backend.State.Tel.{get_tel_age_s}
use aot_drone.Runtime.{zero_f, one_f, Runtime}
use aot_drone.Backend.State.Views.{
  LinkSettings, get_link_status, snapshot, dict, get_latest_tel_with_meta, opt_float,
  get_latest_vis_with_meta,
}
use aot_drone.Backend.WsManager.{broadcast, Envelope, WsManager}
use aot_drone.Json.{end, Fields, text, put, field}
use aot_drone.Backend.State.Vis.{get_vis_age_s}
use aot_drone.Common.{
  true, guard, Bool, ◌&&◌, false, ok, str_eq, value_error, List, not, ◌||◌, ℕ, none, some, ◌∷◌,
  Option, Result, if◌then◌else◌, ◌>>=◌, ◌>>◌, [],
}
use Prim.Native.String.{String, ◌++◌ as join}

-- what the constructor is given, but for the objects that it shares
pub record BroadcastSettings (F : Type 0) : Type 0 where
  pub tel_hz : F
  pub vis_hz : F
  pub link_hz : F
  pub vis_fresh_s : F
  pub tel_fresh_s : F
  pub cmd_timeout_s : F
  pub cmd_hz_nominal : F
  pub tel_hz_nominal : F
  pub warning_min_interval_s : F
  -- `link_status_extra_provider`
  pub link_status_extra_provider : Option (F → Fields F)

-- An event that has None in `_last_emit_s` is missing here. `sent` is the envelopes that were
-- broadcast so far, the last one first.
pub record Broadcaster (F : Type 0) : Type 0 where
  pub shared : SharedState F
  pub manager : WsManager F
  pub last_emit_s : List (String × F)
  pub warning_last_emit_s : List (String × F)
  pub sent : List (Envelope F)

abbrev tel_update : String
tel_update = "TEL_UPDATE"

abbrev vis_update : String
vis_update = "VIS_UPDATE"

abbrev link_status : String
link_status = "LINK_STATUS"

abbrev warning : String
warning = "WARNING"

module _ {F : Type 0} where
  -- `payload.update(d)`
  unfoldable pub update_with : Fields F → Fields F → Fields F
  update_with payload end = payload
  update_with payload (field k v d) = update_with (put k v payload) d

module _ (R : Runtime) (cfg : BroadcastSettings R.Float) where
  open R use {Float, lt, le, sub, div}

  -- `__init__`
  unfoldable pub new_broadcaster : SharedState Float → WsManager Float → Result (Broadcaster Float)
  new_broadcaster shared manager = do
    guard (not (le cfg.tel_hz (zero_f R))) value_error
    guard (not (le cfg.vis_hz (zero_f R))) value_error
    guard (not (le cfg.link_hz (zero_f R))) value_error
    guard (not (lt cfg.vis_fresh_s (zero_f R))) value_error
    guard (not (le cfg.tel_fresh_s (zero_f R))) value_error
    guard (not (le cfg.cmd_timeout_s (zero_f R))) value_error
    guard (not (lt cfg.warning_min_interval_s (zero_f R))) value_error
    ok (record {
      shared = shared;
      manager = manager;
      last_emit_s = [];
      warning_last_emit_s = [];
      sent = [];
    })

  abbrev with_extra : Option (Float → Fields Float) → Float → Fields Float → Fields Float
  with_extra none now_s payload = payload
  with_extra (some provider) now_s payload = update_with payload (provider now_s)

  unfoldable pub build_link_status : Float → SharedState Float → Fields Float
  unfolding update_with
  build_link_status now_s shared =
      let limits : LinkSettings R = record {
        vis_fresh_s = cfg.vis_fresh_s;
        tel_fresh_s = cfg.tel_fresh_s;
        cmd_timeout_s = cfg.cmd_timeout_s;
        cmd_hz = cfg.cmd_hz_nominal;
        tel_hz = cfg.tel_hz_nominal;
      } in
      with_extra cfg.link_status_extra_provider now_s (get_link_status R shared limits now_s)

  -- the snapshot with the time of its arrival and its age
  abbrev with_age :
      String → Option (Fields Float) × Option Float → Option Float → Option (Fields Float)
  with_age age_key (none, rx_s) age_s = none
  with_age age_key (some snapshot, rx_s) age_s =
      some (put age_key (opt_float age_s) (put "rx_monotonic_s" (opt_float rx_s) snapshot))

  unfoldable pub build_tel_update_data : Float → SharedState Float → Option (Fields Float)
  build_tel_update_data now_s shared =
      with_age "tel_age_s" (get_latest_tel_with_meta shared) (get_tel_age_s R shared now_s)

  unfoldable pub build_vis_update_data : Float → SharedState Float → Option (Fields Float)
  build_vis_update_data now_s shared =
      with_age "vis_age_s" (get_latest_vis_with_meta shared) (get_vis_age_s R shared now_s)

  unfoldable pub period_s : String → Float
  period_s event =
      if str_eq event tel_update
      then div (one_f R) cfg.tel_hz
      else if str_eq event vis_update
      then div (one_f R) cfg.vis_hz
      else if str_eq event link_status
      then div (one_f R) cfg.link_hz
      else zero_f R

  abbrev pub is_due : Float → Float → Option Float → Bool
  is_due now_s period none = true
  is_due now_s period (some last_emit_s) = le period (sub now_s last_emit_s)

  unfoldable pub can_emit : String → Float → Bool → Broadcaster Float → Bool
  unfolding period_s
  can_emit event now_s force b = force || is_due now_s (period_s event) (find event b.last_emit_s)

  -- `self._ws_manager.broadcast(...)`
  abbrev pub broadcast_to_clients :
      String → Fields Float → Float → Broadcaster Float → Broadcaster Float
  broadcast_to_clients event payload now_s b =
      let (envelope, manager) = broadcast event payload now_s b.manager in
      record b { manager = manager; sent = envelope ∷ b.sent }

  -- the event with its payload, and the time of it kept
  abbrev pub emit : String → Fields Float → Float → Broadcaster Float → Broadcaster Float
  emit event payload now_s b = record (broadcast_to_clients event payload now_s b) {
    last_emit_s = assign event now_s b.last_emit_s;
  }

  abbrev pub emit_if_some :
      String → Option (Fields Float) → Float → Broadcaster Float → Bool × Broadcaster Float
  emit_if_some event none now_s b = (false, b)
  emit_if_some event (some payload) now_s b = (true, emit event payload now_s b)

  unfoldable pub broadcast_tel_update : Float → Bool → Broadcaster Float → Bool × Broadcaster Float
  unfolding can_emit broadcast
  broadcast_tel_update now_s force b =
      if not (can_emit tel_update now_s force b)
      then (false, b)
      else emit_if_some tel_update (build_tel_update_data now_s b.shared) now_s b

  unfoldable pub broadcast_vis_update : Float → Bool → Broadcaster Float → Bool × Broadcaster Float
  unfolding can_emit broadcast
  broadcast_vis_update now_s force b =
      if not (can_emit vis_update now_s force b)
      then (false, b)
      else emit_if_some vis_update (build_vis_update_data now_s b.shared) now_s b

  unfoldable pub broadcast_link_status : Float → Bool → Broadcaster Float → Bool × Broadcaster Float
  unfolding can_emit broadcast
  broadcast_link_status now_s force b =
      if not (can_emit link_status now_s force b)
      then (false, b)
      else (true, emit link_status (build_link_status now_s b.shared) now_s b)

  abbrev pub is_repeated : Float → Option Float → Bool
  is_repeated now_s none = false
  is_repeated now_s (some last_emit_s) =
      lt (zero_f R) cfg.warning_min_interval_s
      && lt (sub now_s last_emit_s) cfg.warning_min_interval_s

  -- the warning with the time of it kept
  abbrev pub warn : String → String → String → Float → Broadcaster Float → Broadcaster Float
  warn kind detail severity now_s b =
      let payload =
        dict (("kind", text kind) ∷ ("detail", text detail) ∷ ("severity", text severity) ∷ []) in
      record (broadcast_to_clients warning payload now_s b) {
        warning_last_emit_s = assign kind now_s b.warning_last_emit_s;
      }

  unfoldable pub emit_warning :
      Float → String → String → String → Broadcaster Float → Bool × Broadcaster Float
  unfolding broadcast
  emit_warning now_s kind detail severity b =
      if is_repeated now_s (find kind b.warning_last_emit_s)
      then (false, b)
      else (true, warn kind detail severity now_s b)

  unfoldable pub on_tel_update : Fields Float → Float → Broadcaster Float → Broadcaster Float
  on_tel_update msg rx_monotonic_s b = (broadcast_tel_update rx_monotonic_s false b).1

  unfoldable pub on_vis_update : Fields Float → Float → Broadcaster Float → Broadcaster Float
  on_vis_update msg rx_monotonic_s b = (broadcast_vis_update rx_monotonic_s false b).1

  abbrev drop_text : String → String → ℕ → String
  drop_text start detail drop_count =
      join start (join detail (join " (count=" (join (str_of drop_count) ")")))

  -- the count is the entry "tel_drop_reason_oversize" of `get_tel_stats()`
  unfoldable pub on_tel_drop : Float → String → String → Broadcaster Float → Broadcaster Float
  on_tel_drop now_s reason detail b =
      if str_eq reason "oversize"
      then (emit_warning now_s "tel_oversize_drop"
          (drop_text "Oversize TEL datagram dropped: " detail b.shared.tel.drop_reason_oversize)
          "warn" b).1
      else b

  -- the count is the entry "vis_drop_reason_oversize" of `get_vis_stats()`
  unfoldable pub on_vis_drop : Float → String → String → Broadcaster Float → Broadcaster Float
  on_vis_drop now_s reason detail b =
      if str_eq reason "oversize"
      then (emit_warning now_s "vis_oversize_drop"
          (drop_text "Oversize VIS datagram dropped: " detail b.shared.vis.drop_reason_oversize)
          "warn" b).1
      else b

  -- the clock is read for the warning and again for the link status
  unfoldable pub on_fc_connection_changed :
      Float → Float → Bool → Broadcaster Float → Broadcaster Float
  on_fc_connection_changed warn_s now_s connected b =
      let b' =
        if connected
        then (emit_warning warn_s "fc_reconnected"
            "Backend command bridge connected to FC TCP server" "info" b).1
        else (emit_warning warn_s "fc_disconnected"
            "Backend command bridge disconnected from FC TCP server" "warn" b).1 in
      (broadcast_link_status now_s true b').1

  unfoldable pub on_tracking_blocked :
      Float → Float → String → Broadcaster Float → Broadcaster Float
  on_tracking_blocked warn_s now_s reason b =
      let detail =
        join "Tracking mode request blocked by backend safety gate (" (join reason ")") in
      let b' = (emit_warning warn_s (join "tracking_blocked_" reason) detail "warn" b).1 in
      (broadcast_link_status now_s true b').1
