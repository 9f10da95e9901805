-- ===== src/Backend/State.antt =====
-- `SharedState` of src/backend/state.py: what the threads of the gateway share. Each method runs
-- under one lock, so it is one step. The attributes stand in the groups of the source.
pub mod Tel
pub mod Vis
pub mod Cmd
pub mod Views
use aot_drone.Common.{ℕ, Bool, false, Option, none, String}
use aot_drone.Common.Int.{ℤ, negsuc}
use aot_drone.Runtime.{Runtime, zero_f}
use aot_drone.Json.{Fields}

-- `tel_rx_total` to `tel_last_rx_monotonic_s`
pub record TelStats (F : Type 0) : Type 0 where
  pub rx_total : ℕ
  pub rx_ok : ℕ
  pub rx_bad : ℕ
  pub drop_reason_oversize : ℕ
  pub drop_reason_json : ℕ
  pub drop_reason_schema : ℕ
  pub drop_reason_range : ℕ
  pub last_seq : ℤ
  pub last_timestamp_s : Option F
  pub last_rx_monotonic_s : Option F

-- `vis_rx_total` to `vis_last_rx_monotonic_s`
pub record VisStats (F : Type 0) : Type 0 where
  pub rx_total : ℕ
  pub rx_ok : ℕ
  pub rx_bad : ℕ
  pub drop_reason_oversize : ℕ
  pub drop_reason_json : ℕ
  pub drop_reason_schema : ℕ
  pub drop_reason_range : ℕ
  pub drop_reason_semantics : ℕ
  pub last_seq : ℤ
  pub last_timestamp_s : Option F
  pub last_rx_monotonic_s : Option F

-- `fc_connected` to `last_cmd_bytes`
pub record CmdStatus (F : Type 0) : Type 0 where
  pub fc_connected : Bool
  pub fc_last_connect_attempt_s : Option F
  pub cmd_tx_total : ℕ
  pub cmd_tx_ok : ℕ
  pub cmd_tx_fail : ℕ
  pub cmd_last_sent_monotonic_s : Option F
  pub cmd_hz_est : F
  pub tracking_blocked_reason : Option String
  pub cmd_next_seq : ℕ
  pub last_cmd_seq : Option ℤ
  pub last_cmd_desired_mode : Option ℤ
  pub last_cmd_had_tracking : Bool
  pub last_cmd_bytes : Option ℕ

pub record SharedState (F : Type 0) : Type 0 where
  pub latest_tel : Option (Fields F)
  pub latest_vis : Option (Fields F)
  pub latest_intent : Option (Fields F)
  pub tel_seq : ℤ
  pub vis_seq : ℤ
  pub intent_last_update_monotonic_s : Option F
  pub tel : TelStats F
  pub vis : VisStats F
  pub cmd : CmdStatus F

module _ (R : Runtime) where
  open R use {Float}

  -- a new object, and what `reset` leaves; `seq` is `_initial_cmd_seq()`, taken from the clock
  abbrev pub new_state : ℕ → SharedState Float
  new_state seq = record {
    latest_tel = none;
    latest_vis = none;
    latest_intent = none;
    tel_seq = negsuc 0;
    vis_seq = negsuc 0;
    intent_last_update_monotonic_s = none;
    tel = record {
      rx_total = 0;
      rx_ok = 0;
      rx_bad = 0;
      drop_reason_oversize = 0;
      drop_reason_json = 0;
      drop_reason_schema = 0;
      drop_reason_range = 0;
      last_seq = negsuc 0;
      last_timestamp_s = none;
      last_rx_monotonic_s = none;
    };
    vis = record {
      rx_total = 0;
      rx_ok = 0;
      rx_bad = 0;
      drop_reason_oversize = 0;
      drop_reason_json = 0;
      drop_reason_schema = 0;
      drop_reason_range = 0;
      drop_reason_semantics = 0;
      last_seq = negsuc 0;
      last_timestamp_s = none;
      last_rx_monotonic_s = none;
    };
    cmd = record {
      fc_connected = false;
      fc_last_connect_attempt_s = none;
      cmd_tx_total = 0;
      cmd_tx_ok = 0;
      cmd_tx_fail = 0;
      cmd_last_sent_monotonic_s = none;
      cmd_hz_est = zero_f R;
      tracking_blocked_reason = none;
      cmd_next_seq = seq;
      last_cmd_seq = none;
      last_cmd_desired_mode = none;
      last_cmd_had_tracking = false;
      last_cmd_bytes = none;
    };
  }
