-- ===== src/Backend/CmdBridge/Waits.antt =====
-- What the bridge says of its connection, and how long it waits for the next one
-- (src/backend/cmd_bridge.py).
use aot_drone.Common.{
  eq_iff, ap, sym, ◌+◌, ◌≡◌, refl, inl, inr, Bool, true, false, not, Bool-cases, String, Option,
  none, some, List, [], ◌∷◌, arith,
}
use aot_drone.Common.Int.{pos}
use aot_drone.Runtime.{Runtime, Laws, zero_f, min_f}
use aot_drone.Backend.State.Cmd.{record_fc_connect_attempt, set_fc_connected}
use aot_drone.Backend.CmdBridge.{
  is_same_reason, BridgeSettings, Notice, connection_change, tracking_blocked, Bridge,
  attempt_connect,
}

-- The notices of the connection alternate, and the last one says `b`: the first one is a connection.
pub data Alternates : Bool → List Notice → Type 0 where
  quiet : Alternates false []
  switched :
      {b : Bool} {ns : List Notice}
      → Alternates (not b) ns
      → Alternates b (connection_change b ∷ ns)
  other :
      {b : Bool} {ns : List Notice} (r : String)
      → Alternates b ns
      → Alternates b (tracking_blocked r ∷ ns)

module _ (R : Runtime) (cfg : BridgeSettings R.Float) where
  open R use {Float, lt, le}

  -- a wait that the settings allow
  pub record IsBackoff (c : Float) : Type 0 where
    pub positive : lt (zero_f R) c ≡ true
    pub from_initial : le cfg.connect_backoff_initial_s c ≡ true
    pub to_max : le c cfg.connect_backoff_max_s ≡ true

  pub record BridgeInv (s : Bridge Float) : Type 0 where
    pub told_of : Alternates s.last_fc_connected s.told
    pub same_connected : s.shared.cmd.fc_connected ≡ s.last_fc_connected
    pub same_sock : s.sock ≡ s.last_fc_connected
    pub same_reason : s.shared.cmd.tracking_blocked_reason ≡ s.last_tracking_blocked_reason
    pub counted : s.shared.cmd.cmd_tx_total ≡ s.shared.cmd.cmd_tx_ok + s.shared.cmd.cmd_tx_fail
    pub waits : IsBackoff s.connect_backoff_s

  pub is_same_reason_lem :
      (last : Option String) (r : String) → is_same_reason R cfg last r ≡ true → last ≡ some r
  is_same_reason_lem none r h = cc
  is_same_reason_lem (some q) r h = ap some (sym ((eq_iff r q).0 h))

  module _ (laws : Laws R) (initial_pos : lt (zero_f R) cfg.connect_backoff_initial_s ≡ true)
      (ordered : le cfg.connect_backoff_initial_s cfg.connect_backoff_max_s ≡ true) where
    open laws use {le_of_lt, le_trans, refl_of_le, le_of_not_lt, double_grows, lt_of_lt_le}

    pub initial-IsBackoff : IsBackoff cfg.connect_backoff_initial_s
    initial-IsBackoff = record {
      positive = initial_pos;
      from_initial = (refl_of_le _ _ ordered).0;
      to_max = ordered;
    }

    pub doubled-IsBackoff :
        (c : Float)
        → IsBackoff c
        → IsBackoff (min_f R (R.mul c (R.decimal (pos 2) 0)) cfg.connect_backoff_max_s)
    unfolding min_f
    doubled-IsBackoff c w =
        let d = R.mul c (R.decimal (pos 2) 0) in
        let grown = double_grows c w.positive in
        let top = refl_of_le c cfg.connect_backoff_max_s w.to_max in
        let own = refl_of_le c d grown in
        ground (
          arith,
          w,
          ordered,
          initial_pos,
          le_trans cfg.connect_backoff_initial_s c d w.from_initial grown,
          lt_of_lt_le (zero_f R) c d w.positive grown,
          lt_of_lt_le (zero_f R) cfg.connect_backoff_initial_s cfg.connect_backoff_max_s initial_pos
              ordered,
          le_of_not_lt cfg.connect_backoff_max_s d top.1 own.1,
        )

    pub attempt_connect-BridgeInv :
        (now_s log_s : Float) (connects : Bool) (s : Bridge Float)
        → s.last_fc_connected ≡ false
        → BridgeInv s
        → BridgeInv (attempt_connect R cfg now_s log_s connects s)
    unfolding attempt_connect set_fc_connected record_fc_connect_attempt
    attempt_connect-BridgeInv now_s log_s true s out h =
        elim (Bool-cases (lt now_s s.next_connect_attempt_s)) [
          | inl early ↦ rw early h
          | inr due ↦
              rw (due, out)
                (record {
                  told_of = switched (rw out at h.told_of);
                  same_connected = refl;
                  same_sock = refl;
                  same_reason = h.same_reason;
                  counted = h.counted;
                  waits = initial-IsBackoff;
                })
        ]
    attempt_connect-BridgeInv now_s log_s false s out h =
        elim (Bool-cases (lt now_s s.next_connect_attempt_s)) [
          | inl early ↦ rw early h
          | inr due ↦
              rw (due, out)
                (record {
                  told_of = rw out at h.told_of;
                  same_connected = refl;
                  same_sock = rw out at h.same_sock;
                  same_reason = h.same_reason;
                  counted = h.counted;
                  waits = doubled-IsBackoff s.connect_backoff_s h.waits;
                })
        ]
