-- ===== src/Backend/CmdBridge/Connection.antt =====
-- A round of the bridge keeps what the bridge says (src/backend/cmd_bridge.py).
use aot_drone.Common.{
  sym, ℕ, subst, if_true, if_false, value_error, type_error, overflow_error, key_error,
  struct_error, runtime_error, decode_error, validation, ◌∙◌, ◌+◌, ◌-◌, ◌≡◌, refl, inl, inr, Bool,
  true, false, Bool-cases, String, Option, none, some, List, Result, ok, raise, arith,
}
use aot_drone.Common.Int.{pos}
use aot_drone.Runtime.{Runtime, Laws, zero_f}
use aot_drone.Backend.State.{new_state}
use aot_drone.Backend.State.Cmd.{
  set_fc_connected, set_tracking_blocked_reason, record_cmd_tx_attempt, record_cmd_tx_ok,
  record_cmd_tx_fail, reserve_cmd_seq, record_last_cmd_payload,
}
use aot_drone.Backend.CmdBridge.{
  get_vis_age_s, build_cmd_payload, to_ℕ, new_bridge, frame_cmd_payload, length, is_same_reason,
  Fields, BridgeSettings, Bridge, emit_tracking_blocked, send_frame, on_framed, on_built, send_tick,
  round,
}
use aot_drone.Backend.CmdBridge.Waits.{
  Alternates, quiet, switched, other, IsBackoff, BridgeInv, is_same_reason_lem, initial-IsBackoff,
  doubled-IsBackoff, attempt_connect-BridgeInv,
}

module _ (R : Runtime) (cfg : BridgeSettings R.Float) where
  open R use {Float, lt, le}

  module _ (laws : Laws R) (initial_pos : lt (zero_f R) cfg.connect_backoff_initial_s ≡ true)
      (ordered : le cfg.connect_backoff_initial_s cfg.connect_backoff_max_s ≡ true) where
    -- the state below the framing, where an attempt is counted and its outcome is not
    pub record Pending (s : Bridge Float) : Type 0 where
      pub told_of : Alternates s.last_fc_connected s.told
      pub same_connected : s.shared.cmd.fc_connected ≡ s.last_fc_connected
      pub same_sock : s.sock ≡ s.last_fc_connected
      pub same_reason : s.shared.cmd.tracking_blocked_reason ≡ s.last_tracking_blocked_reason
      pub counted :
          s.shared.cmd.cmd_tx_total ≡ s.shared.cmd.cmd_tx_ok + s.shared.cmd.cmd_tx_fail + 1
      pub waits : IsBackoff R cfg s.connect_backoff_s

    send_frame-BridgeInv :
        (now_s log_s : Float) (sends : Bool) (s : Bridge Float)
        → s.last_fc_connected ≡ true
        → Pending s
        → BridgeInv R cfg (send_frame R cfg now_s log_s sends s)
    unfolding send_frame set_fc_connected record_cmd_tx_fail record_cmd_tx_ok
    send_frame-BridgeInv now_s log_s true s on h =
        let open_sock : s.sock ≡ true = cc in
        rw (open_sock, on)
          (record {
            told_of = rw on at h.told_of;
            same_connected = rw on at h.same_connected;
            same_sock = refl;
            same_reason = h.same_reason;
            counted = omega (arith, h.counted);
            waits = h.waits;
          })
    send_frame-BridgeInv now_s log_s false s on h =
        let open_sock : s.sock ≡ true = cc in
        rw (open_sock, on)
          (record {
            told_of = switched (rw on at h.told_of);
            same_connected = refl;
            same_sock = refl;
            same_reason = h.same_reason;
            counted = omega (arith, h.counted);
            waits = doubled-IsBackoff R cfg laws initial_pos ordered s.connect_backoff_s h.waits;
          })

    -- the state after `_emit_tracking_blocked_callback` and `record_cmd_tx_attempt`
    abbrev attempted : Option String → Bridge Float → Bridge Float
    attempted blocked s =
        let s1 = record s { shared = set_tracking_blocked_reason R blocked s.shared } in
        let s2 = emit_tracking_blocked R cfg blocked s1 in
        record s2 { shared = record_cmd_tx_attempt R s2.shared }

    attempted-Pending :
        (blocked : Option String) (s : Bridge Float)
        → BridgeInv R cfg s
        → Pending (attempted blocked s)
          × ((attempted blocked s).last_fc_connected ≡ s.last_fc_connected)
    unfolding emit_tracking_blocked set_tracking_blocked_reason record_cmd_tx_attempt
    attempted-Pending none s h = (
      record {
        told_of = h.told_of;
        same_connected = h.same_connected;
        same_sock = h.same_sock;
        same_reason = refl;
        counted = omega (arith, h.counted);
        waits = h.waits;
      },
      refl,
    )
    attempted-Pending (some r) s h =
        elim (Bool-cases (is_same_reason R cfg s.last_tracking_blocked_reason r)) [
          | inl same ↦ rw same (
            record {
              told_of = h.told_of;
              same_connected = h.same_connected;
              same_sock = h.same_sock;
              same_reason = sym (is_same_reason_lem R cfg s.last_tracking_blocked_reason r same);
              counted = omega (arith, h.counted);
              waits = h.waits;
            },
            refl,
          )
          | inr fresh ↦ rw fresh (
            record {
              told_of = other r h.told_of;
              same_connected = h.same_connected;
              same_sock = h.same_sock;
              same_reason = refl;
              counted = omega (arith, h.counted);
              waits = h.waits;
            },
            refl,
          )
        ]

    on_framed-BridgeInv :
        (payload : Fields Float) (framed : Result (List ℕ)) (now_s log_s : Float) (sends : Bool)
        (s : Bridge Float)
        → s.last_fc_connected ≡ true
        → Pending s
        → (on_framed R cfg payload framed now_s log_s sends s).0 ≡ ok tt
        → BridgeInv R cfg (on_framed R cfg payload framed now_s log_s sends s).1
    unfolding record_cmd_tx_fail record_last_cmd_payload
    on_framed-BridgeInv payload (ok frame) now_s log_s sends s on h returned =
        let noted = record s {
          shared = record_last_cmd_payload R payload (length frame - 4) s.shared;
        } in
        send_frame-BridgeInv now_s log_s sends noted on (record {
          told_of = h.told_of;
          same_connected = h.same_connected;
          same_sock = h.same_sock;
          same_reason = h.same_reason;
          counted = h.counted;
          waits = h.waits;
        })
    on_framed-BridgeInv payload (raise value_error) now_s log_s sends s on h returned = record {
      told_of = h.told_of;
      same_connected = h.same_connected;
      same_sock = h.same_sock;
      same_reason = h.same_reason;
      counted = omega (arith, h.counted);
      waits = h.waits;
    }
    on_framed-BridgeInv payload (raise type_error) now_s log_s sends s on h returned = cc
    on_framed-BridgeInv payload (raise overflow_error) now_s log_s sends s on h returned = cc
    on_framed-BridgeInv payload (raise key_error) now_s log_s sends s on h returned = cc
    on_framed-BridgeInv payload (raise struct_error) now_s log_s sends s on h returned = cc
    on_framed-BridgeInv payload (raise runtime_error) now_s log_s sends s on h returned = cc
    on_framed-BridgeInv payload (raise decode_error) now_s log_s sends s on h returned = cc
    on_framed-BridgeInv payload (raise (validation why)) now_s log_s sends s on h returned = cc

    on_built-BridgeInv :
        (built : Result (Fields Float × Option String)) (now_s log_s : Float) (sends : Bool)
        (s : Bridge Float)
        → s.last_fc_connected ≡ true
        → BridgeInv R cfg s
        → (on_built R cfg built now_s log_s sends s).0 ≡ ok tt
        → BridgeInv R cfg (on_built R cfg built now_s log_s sends s).1
    on_built-BridgeInv (raise e) now_s log_s sends s on h returned = cc
    on_built-BridgeInv (ok (payload, blocked)) now_s log_s sends s on h returned =
        let (pending, same) = attempted-Pending blocked s h in
        on_framed-BridgeInv payload
          (frame_cmd_payload (cfg.dumps payload) (to_ℕ cfg.max_payload_bytes)) now_s log_s sends
          (attempted blocked s) (same ∙ on) pending returned

    -- a sequence number is taken
    abbrev reserved : Bridge Float → Bridge Float
    reserved s = record s { shared = (reserve_cmd_seq R none s.shared).1 }

    reserved-BridgeInv : (s : Bridge Float) → BridgeInv R cfg s → BridgeInv R cfg (reserved s)
    unfolding reserve_cmd_seq
    reserved-BridgeInv s h = record {
      told_of = h.told_of;
      same_connected = h.same_connected;
      same_sock = h.same_sock;
      same_reason = h.same_reason;
      counted = h.counted;
      waits = h.waits;
    }

    send_tick-BridgeInv :
        (now_s log_s : Float) (sends : Bool) (s : Bridge Float)
        → s.last_fc_connected ≡ true
        → BridgeInv R cfg s
        → (send_tick R cfg now_s log_s sends s).0 ≡ ok tt
        → BridgeInv R cfg (send_tick R cfg now_s log_s sends s).1
    unfolding send_tick
    send_tick-BridgeInv now_s log_s sends s on h returned =
        on_built-BridgeInv
          (build_cmd_payload R (pos (reserve_cmd_seq R none s.shared).0) now_s
            s.shared.latest_intent s.shared.latest_vis (get_vis_age_s R s.shared now_s)
            cfg.vis_fresh_s)
          now_s log_s sends (reserved s) on (reserved-BridgeInv s h) returned

    -- if the call returned, the invariant holds
    abbrev Kept : Result (Unit {0}) × Bridge Float → Type 0
    Kept out = out.0 ≡ ok tt → BridgeInv R cfg out.1

    -- When the laws of floats hold and the backoff settings are positive and ordered, a round of
    -- the bridge that ends without an error keeps its invariant: there is a socket exactly when
    -- the shared state says that the flight controller is connected, the notices of the
    -- connection alternate and begin with a connection, the reason last told is the one in the
    -- shared state, every attempt to send is counted as sent or failed, and the wait is between
    -- the initial and the longest one.
    pub round-BridgeInv :
        (now_s log_s : Float) (works : Bool) (s : Bridge Float)
        → BridgeInv R cfg s
        → (round R cfg now_s log_s works s).0 ≡ ok tt
        → BridgeInv R cfg (round R cfg now_s log_s works s).1
    unfolding round
    round-BridgeInv now_s log_s works s h = elim (Bool-cases s.sock) [
      | inl open_sock ↦
          subst Kept (sym (if_true s.sock _ _ open_sock))
            (send_tick-BridgeInv now_s log_s works s (sym h.same_sock ∙ open_sock) h)
      | inr no_sock ↦ subst Kept (sym (if_false s.sock _ _ no_sock)) (λ _.
          attempt_connect-BridgeInv R cfg laws initial_pos ordered now_s log_s works s
            (sym h.same_sock ∙ no_sock) h)
    ]

    pub new_bridge-BridgeInv :
        (seq : ℕ) {s : Bridge Float}
        → new_bridge R cfg none (new_state R seq) ≡ ok s
        → BridgeInv R cfg s
    unfolding new_bridge
    new_bridge-BridgeInv seq made =
        ground (arith, initial-IsBackoff R cfg laws initial_pos ordered, quiet)
