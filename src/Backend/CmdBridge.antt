-- ===== src/Backend/CmdBridge.antt =====
-- `CmdBridge` (src/backend/cmd_bridge.py): the thread that connects to the flight controller and
-- sends it a command per tick.
pub mod Waits
pub mod Connection
pub mod Ticks
use aot_drone.Common.{
  ℕ, ◌-◌, Bool, true, false, not, ◌&&◌, ltb, if◌then◌else◌, String, str_eq, Option, none, some,
  List, [], ◌∷◌, length, Result, ok, raise, Error, value_error, guard, ◌>>=◌, ◌>>◌,
}
use aot_drone.Common.Exec.{Exec}
use aot_drone.Common.Int.{to_ℕ, ltb_ℤ, ℤ, pos}
use aot_drone.Runtime.{Runtime, zero_f, min_f}
use aot_drone.Json.{Fields}
use aot_drone.Backend.State.{SharedState}
use aot_drone.Backend.State.Cmd.{
  record_fc_connect_attempt, set_fc_connected, set_tracking_blocked_reason, record_cmd_tx_attempt,
  record_cmd_tx_ok, record_cmd_tx_fail, reserve_cmd_seq, ensure_cmd_seq_minimum,
  record_last_cmd_payload,
}
use aot_drone.Backend.State.Vis.{get_vis_age_s}
use aot_drone.Backend.DropLog.{Buckets, log}
use aot_drone.Backend.CmdSchema.{build_cmd_payload, frame_cmd_payload}

-- what the constructor is given, but for `seq_start`
pub record BridgeSettings (F : Type 0) : Type 0 where
  pub tick_hz : F
  pub vis_fresh_s : F
  pub max_payload_bytes : ℤ
  pub connect_timeout_s : F
  pub connect_backoff_initial_s : F
  pub connect_backoff_max_s : F
  pub log_interval_s : F
  -- the bytes of `json.dumps(payload)`, for a payload that holds text and numbers only
  pub dumps : Fields F → List ℕ

-- `on_connection_change` and `on_tracking_blocked`; an error of theirs is logged and goes no further
pub data Notice : Type 0 where
  connection_change : Bool → Notice
  tracking_blocked : String → Notice

-- `sock` tells whether there is a socket; `told` is the notices so far, the last one first.
pub record Bridge (F : Type 0) : Type 0 where
  pub shared : SharedState F
  pub sock : Bool
  pub next_connect_attempt_s : F
  pub connect_backoff_s : F
  pub last_fc_connected : Bool
  pub last_tracking_blocked_reason : Option String
  pub bridge_log : Buckets F
  pub told : List Notice

module _ (R : Runtime) (cfg : BridgeSettings R.Float) where
  open R use {Float, decimal, lt, le, add, mul}

  abbrev start_seq : Option ℤ → SharedState Float → SharedState Float
  start_seq none shared = shared
  start_seq (some seq_start) shared = ensure_cmd_seq_minimum R seq_start shared

  -- `__init__`
  unfoldable pub new_bridge : Option ℤ → SharedState Float → Result (Bridge Float)
  new_bridge seq_start shared = do
    guard (not (le cfg.tick_hz (zero_f R))) value_error
    guard (not (lt cfg.vis_fresh_s (zero_f R))) value_error
    guard (ltb_ℤ (pos 0) cfg.max_payload_bytes) value_error
    guard (not (le cfg.connect_timeout_s (zero_f R))) value_error
    guard (not (le cfg.connect_backoff_initial_s (zero_f R))) value_error
    guard (not (lt cfg.connect_backoff_max_s cfg.connect_backoff_initial_s)) value_error
    guard (not (lt cfg.log_interval_s (zero_f R))) value_error
    ok (record {
      shared = start_seq seq_start shared;
      sock = false;
      next_connect_attempt_s = zero_f R;
      connect_backoff_s = cfg.connect_backoff_initial_s;
      last_fc_connected = false;
      last_tracking_blocked_reason = none;
      bridge_log = [];
      told = [];
    })

  abbrev same_bool : Bool → Bool → Bool
  same_bool true b = b
  same_bool false b = not b

  -- `_set_fc_connected`
  unfoldable pub set_connected : Bool → Bridge Float → Bridge Float
  set_connected connected s =
      let s' = record s { shared = set_fc_connected R connected s.shared } in
      if same_bool connected s'.last_fc_connected
      then s'
      else record s' { last_fc_connected = connected; told = connection_change connected ∷ s'.told }

  abbrev is_same_reason : Option String → String → Bool
  is_same_reason none r = false
  is_same_reason (some q) r = str_eq r q

  -- `_emit_tracking_blocked_callback`
  unfoldable pub emit_tracking_blocked : Option String → Bridge Float → Bridge Float
  emit_tracking_blocked none s = record s { last_tracking_blocked_reason = none }
  emit_tracking_blocked (some reason) s =
      if is_same_reason s.last_tracking_blocked_reason reason then s else record s {
        last_tracking_blocked_reason = some reason;
        told = tracking_blocked reason ∷ s.told;
      }

  -- the wait before the next attempt, doubled for the one after it, and the failure logged
  unfoldable pub back_off : String → Float → Float → Bridge Float → Bridge Float
  unfolding min_f
  back_off reason now_s log_s s = record s {
    next_connect_attempt_s = add now_s s.connect_backoff_s;
    connect_backoff_s =
        min_f R (mul s.connect_backoff_s (decimal (pos 2) 0)) cfg.connect_backoff_max_s;
    bridge_log = (log R cfg.log_interval_s reason log_s s.bridge_log).1;
  }

  -- `_attempt_connect`; `connects` tells whether `sock.connect` returns or raises OSError
  unfoldable pub attempt_connect : Float → Float → Bool → Bridge Float → Bridge Float
  unfolding set_connected back_off
  attempt_connect now_s log_s connects s =
      let s1 = record s { shared = record_fc_connect_attempt R now_s s.shared } in
      let s2 = set_connected true (record s1 { sock = true }) in
      if lt now_s s.next_connect_attempt_s
      then s
      else if connects
      then record s2 {
        connect_backoff_s = cfg.connect_backoff_initial_s;
        next_connect_attempt_s = now_s;
      }
      else back_off "connect_fail" now_s log_s (set_connected false s1)

  -- the part of `_send_tick` below the framing; `sends` tells whether `sock.sendall` returns
  unfoldable pub send_frame : Float → Float → Bool → Bridge Float → Bridge Float
  unfolding set_connected back_off
  send_frame now_s log_s sends s =
      let failed = record s { shared = record_cmd_tx_fail R s.shared } in
      if not s.sock
      then record (set_connected false failed) { next_connect_attempt_s = now_s }
      else if sends
      then record s { shared = record_cmd_tx_ok R now_s s.shared }
      else back_off "send_fail" now_s log_s (record (set_connected false failed) { sock = false })

  abbrev pub on_framed :
      Fields Float → Result (List ℕ) → Float → Float → Bool → Exec (Bridge Float) (Unit {0})
  on_framed payload (ok frame) now_s log_s sends s =
      let noted = record s {
        shared = record_last_cmd_payload R payload (length frame - 4) s.shared;
      } in
      (ok tt, send_frame now_s log_s sends noted)
  on_framed payload (raise value_error) now_s log_s sends s =
      (ok tt, record s { shared = record_cmd_tx_fail R s.shared })
  on_framed payload (raise e) now_s log_s sends s = (raise e, s)

  abbrev pub on_built :
      Result (Fields Float × Option String) → Float → Float → Bool → Exec (Bridge Float) (Unit {0})
  on_built (raise e) now_s log_s sends s = (raise e, s)
  on_built (ok (payload, blocked)) now_s log_s sends s =
      let s1 = record s { shared = set_tracking_blocked_reason R blocked s.shared } in
      let s2 = emit_tracking_blocked blocked s1 in
      let s3 = record s2 { shared = record_cmd_tx_attempt R s2.shared } in
      on_framed payload (frame_cmd_payload (cfg.dumps payload) (to_ℕ cfg.max_payload_bytes)) now_s
        log_s sends s3

  -- `_send_tick`
  unfoldable pub send_tick : Float → Float → Bool → Exec (Bridge Float) (Unit {0})
  unfolding emit_tracking_blocked send_frame
  send_tick now_s log_s sends s =
      let (seq, shared) = reserve_cmd_seq R none s.shared in
      on_built
        (build_cmd_payload R (pos seq) now_s s.shared.latest_intent s.shared.latest_vis
          (get_vis_age_s R s.shared now_s) cfg.vis_fresh_s)
        now_s log_s sends (record s { shared = shared })

  -- one round of `run_forever`; `works` is the answer of the network to it
  unfoldable pub round : Float → Float → Bool → Exec (Bridge Float) (Unit {0})
  unfolding attempt_connect send_tick
  round now_s log_s works s =
      if s.sock then send_tick now_s log_s works s else (ok tt, attempt_connect now_s log_s works s)
