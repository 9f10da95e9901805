-- ===== src/Backend/State/Views.antt =====
-- The methods of `SharedState` that give the state out as dicts (src/backend/state.py). A float that
-- the clock would give is an argument.
pub mod Agree
use aot_drone.Common.{
  ℕ, ◌≡◌, Bool, true, false, not, String, Option, none, some, List, [], ◌∷◌, ◌++◌, Result, ok,
  value_error, guard, ◌>>◌,
}
use aot_drone.Common.Int.{ℤ, pos}
use aot_drone.Runtime.{Runtime, zero_f, max_f}
use aot_drone.Json.{Value, null, bool, int, float, text, object, Fields, end, field}
use aot_drone.Backend.State.{TelStats, VisStats, CmdStatus, SharedState}

module _ {F : Type 0} where
  -- a dict display
  abbrev pub dict : List (String × Value F) → Fields F
  dict [] = end
  dict ((k, v) ∷ kvs) = field k v (dict kvs)

  abbrev pub count : ℕ → Value F
  count n = int (pos n)

  abbrev pub opt_float : Option F → Value F
  opt_float none = null
  opt_float (some x) = float x

  abbrev pub opt_int : Option ℤ → Value F
  opt_int none = null
  opt_int (some n) = int n

  abbrev pub opt_count : Option ℕ → Value F
  opt_count none = null
  opt_count (some n) = count n

  abbrev pub opt_text : Option String → Value F
  opt_text none = null
  opt_text (some s) = text s

  abbrev pub opt_object : Option (Fields F) → Value F
  opt_object none = null
  opt_object (some d) = object d

  abbrev tel_entries : TelStats F → List (String × Value F)
  tel_entries t =
      ("tel_rx_total", count t.rx_total)
      ∷ ("tel_rx_ok", count t.rx_ok)
      ∷ ("tel_rx_bad", count t.rx_bad)
      ∷ ("tel_drop_reason_oversize", count t.drop_reason_oversize)
      ∷ ("tel_drop_reason_json", count t.drop_reason_json)
      ∷ ("tel_drop_reason_schema", count t.drop_reason_schema)
      ∷ ("tel_drop_reason_range", count t.drop_reason_range)
      ∷ ("tel_last_seq", int t.last_seq)
      ∷ ("tel_last_timestamp_s", opt_float t.last_timestamp_s)
      ∷ ("tel_last_rx_monotonic_s", opt_float t.last_rx_monotonic_s)
      ∷ []

  abbrev vis_drop_entries : VisStats F → List (String × Value F)
  vis_drop_entries v =
      ("vis_drop_reason_oversize", count v.drop_reason_oversize)
      ∷ ("vis_drop_reason_json", count v.drop_reason_json)
      ∷ ("vis_drop_reason_schema", count v.drop_reason_schema)
      ∷ ("vis_drop_reason_range", count v.drop_reason_range)
      ∷ ("vis_drop_reason_semantics", count v.drop_reason_semantics)
      ∷ []

  abbrev vis_entries : VisStats F → List (String × Value F)
  vis_entries v =
      ("vis_rx_total", count v.rx_total)
        ∷ ("vis_rx_ok", count v.rx_ok)
        ∷ ("vis_rx_bad", count v.rx_bad)
        ∷ vis_drop_entries v
      ++ (("vis_last_seq", int v.last_seq)
          ∷ ("vis_last_timestamp_s", opt_float v.last_timestamp_s)
          ∷ ("vis_last_rx_monotonic_s", opt_float v.last_rx_monotonic_s)
          ∷ [])

  -- the entries of the command link that three of the methods begin with
  abbrev link_entries : CmdStatus F → List (String × Value F)
  link_entries c =
      ("fc_connected", bool c.fc_connected)
      ∷ ("fc_last_connect_attempt_s", opt_float c.fc_last_connect_attempt_s)
      ∷ ("cmd_tx_total", count c.cmd_tx_total)
      ∷ ("cmd_tx_ok", count c.cmd_tx_ok)
      ∷ ("cmd_tx_fail", count c.cmd_tx_fail)
      ∷ ("cmd_last_sent_monotonic_s", opt_float c.cmd_last_sent_monotonic_s)
      ∷ ("cmd_hz_est", float c.cmd_hz_est)
      ∷ ("tracking_blocked_reason", opt_text c.tracking_blocked_reason)
      ∷ []

  abbrev cmd_entries : CmdStatus F → List (String × Value F)
  cmd_entries c =
      link_entries c
      ++ (("last_cmd_seq", opt_int c.last_cmd_seq)
          ∷ ("last_cmd_desired_mode", opt_int c.last_cmd_desired_mode)
          ∷ ("last_cmd_had_tracking", bool c.last_cmd_had_tracking)
          ∷ ("last_cmd_bytes", opt_count c.last_cmd_bytes)
          ∷ [])

  unfoldable pub get_latest_tel : SharedState F → Option (Fields F)
  get_latest_tel s = s.latest_tel

  unfoldable pub get_latest_vis : SharedState F → Option (Fields F)
  get_latest_vis s = s.latest_vis

  unfoldable pub get_latest_intent : SharedState F → Option (Fields F)
  get_latest_intent s = s.latest_intent

  unfoldable pub get_cmd_bridge_status : SharedState F → Fields F
  get_cmd_bridge_status s = dict (cmd_entries s.cmd)

  unfoldable pub snapshot : SharedState F → Fields F
  snapshot s = dict (
      ("tel", opt_object s.latest_tel)
      ∷ ("vis", opt_object s.latest_vis)
      ∷ ("intent", opt_object s.latest_intent)
      ∷ ("tel_seq", int s.tel_seq)
      ∷ ("vis_seq", int s.vis_seq)
      ∷ ("tel_stats", object (dict (tel_entries s.tel)))
      ∷ ("vis_stats", object (dict (vis_entries s.vis)))
      ∷ ("cmd_status", object (dict (cmd_entries s.cmd)))
      ∷ [])

  -- `get_latest_tel_with_meta` and `get_latest_vis_with_meta`
  abbrev with_meta : Option (Fields F) → Option F → Option (Fields F) × Option F
  with_meta none at = (none, none)
  with_meta (some d) at = (some d, at)

  unfoldable pub get_latest_tel_with_meta : SharedState F → Option (Fields F) × Option F
  get_latest_tel_with_meta s = with_meta s.latest_tel s.tel.last_rx_monotonic_s

  unfoldable pub get_latest_vis_with_meta : SharedState F → Option (Fields F) × Option F
  get_latest_vis_with_meta s = with_meta s.latest_vis s.vis.last_rx_monotonic_s

module _ (R : Runtime) where
  open R use {Float, lt, le, sub}

  -- `tel_age_s` and `vis_age_s` of the statistics
  abbrev pub stats_age : Option Float → Float → Option Float
  stats_age none now_s = none
  stats_age (some last_rx) now_s = some (max_f R (zero_f R) (sub now_s last_rx))

  unfoldable pub get_tel_stats : SharedState Float → Float → Fields Float
  get_tel_stats s now_s = dict (
      tel_entries s.tel
      ++ (("tel_age_s", opt_float (stats_age s.tel.last_rx_monotonic_s now_s)) ∷ []))

  unfoldable pub get_vis_stats : SharedState Float → Float → Fields Float
  get_vis_stats s now_s = dict (
      vis_entries s.vis
      ++ (("vis_age_s", opt_float (stats_age s.vis.last_rx_monotonic_s now_s)) ∷ []))

  -- `vis_age_s` and `vis_connected`
  abbrev pub vis_link : Option Float → Float → Float → Option Float × Bool
  vis_link none connected_threshold_s now_s = (none, false)
  vis_link (some last_rx) connected_threshold_s now_s =
      let vis_age_s = max_f R (zero_f R) (sub now_s last_rx) in
      (some vis_age_s, le vis_age_s connected_threshold_s)

  unfoldable pub get_vis_status : SharedState Float → Float → Float → Result (Fields Float)
  get_vis_status s connected_threshold_s now_s = do
    guard (not (lt connected_threshold_s (zero_f R))) value_error
    let (vis_age_s, vis_connected) = vis_link s.vis.last_rx_monotonic_s connected_threshold_s now_s
    ok (
        dict (
          ("vis_connected", bool vis_connected)
          ∷ ("vis_age_s", opt_float vis_age_s)
          ∷ ("vis_rx_ok", count s.vis.rx_ok)
          ∷ ("vis_rx_bad", count s.vis.rx_bad)
          ∷ ("vis_last_seq", int s.vis.last_seq)
          ∷ ("vis_last_timestamp_s", opt_float s.vis.last_timestamp_s)
          ∷ []))

  -- the limits and rates that `get_link_status` passes on
  pub record LinkSettings : Type 0 where
    pub vis_fresh_s : Float
    pub tel_fresh_s : Float
    pub cmd_timeout_s : Float
    pub cmd_hz : Float
    pub tel_hz : Float

  -- the two ages of the link
  abbrev pub link_age : Option Float → Float → Option Float
  link_age none now_s = none
  link_age (some last_rx_monotonic_s) now_s =
      some (max_f R (zero_f R) (sub now_s last_rx_monotonic_s))

  unfoldable pub get_link_status : SharedState Float → LinkSettings → Float → Fields Float
  get_link_status s l now_s = dict (
      link_entries s.cmd
      ++ (("vis_age_s", opt_float (link_age s.vis.last_rx_monotonic_s now_s))
            ∷ ("vis_rx_ok", count s.vis.rx_ok)
            ∷ ("vis_rx_bad", count s.vis.rx_bad)
            ∷ vis_drop_entries s.vis
          ++ (("tel_age_s", opt_float (link_age s.tel.last_rx_monotonic_s now_s))
              ∷ ("tel_rx_ok", count s.tel.rx_ok)
              ∷ ("tel_rx_bad", count s.tel.rx_bad)
              ∷ ("vis_fresh_s", float l.vis_fresh_s)
              ∷ ("tel_fresh_s", float l.tel_fresh_s)
              ∷ ("cmd_timeout_s", float l.cmd_timeout_s)
              ∷ ("cmd_hz", float l.cmd_hz)
              ∷ ("tel_hz", float l.tel_hz)
              ∷ [])))
