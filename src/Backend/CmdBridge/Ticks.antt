-- ===== src/Backend/CmdBridge/Ticks.antt =====
-- A round of the bridge ends without an error (src/backend/cmd_bridge.py).
use aot_drone.Backend.CmdSchema.{pack_u32, frame_cmd_payload}
use aot_drone.Backend.CmdSchema.Total.{IsPosted, IsIngested, build_cmd_payload_total}
use aot_drone.Common.{
  if_false, inr, if_true, inl, Bool-cases, ◌-◌, ◌∙◌, ◌^◌, leb, ℕ, ◌≡◌, refl, ap, List, Result, ok,
  raise, Bool, true, false, arith,
}
use aot_drone.Common.Int.{pos, ltb_ℤ, to_ℕ}
use aot_drone.Runtime.{Runtime, zero_f}
use aot_drone.Json.{Fields}
use aot_drone.Backend.CmdBridge.{
  get_vis_age_s, none, reserve_cmd_seq, value_error, frame_cmd_payload, Error, BridgeSettings,
  Bridge, on_framed, send_tick, round,
}

module _ (R : Runtime) (cfg : BridgeSettings R.Float) where
  open R use {Float, lt}

  frame_cmd_payload-value_error :
      (raw : List ℕ) (most : ℕ) (e : Error)
      → leb most (2 ^ 32 - 1) ≡ true
      → frame_cmd_payload raw most ≡ raise e
      → e ≡ value_error
  unfolding frame_cmd_payload pack_u32
  frame_cmd_payload-value_error raw most e small h = ground arith

  nat_nonneg : (n : ℕ) → ltb_ℤ (pos n) (pos 0) ≡ false
  nat_nonneg n = ground arith

  on_framed_total :
      (payload : Fields Float) (framed : Result (List ℕ)) (now_s log_s : Float) (sends : Bool)
      (s : Bridge Float)
      → ((e : Error) → framed ≡ raise e → e ≡ value_error)
      → (on_framed R cfg payload framed now_s log_s sends s).0 ≡ ok tt
  on_framed_total payload (ok frame) now_s log_s sends s only = refl
  on_framed_total payload (raise e) now_s log_s sends s only = rw (only e refl) refl

  module _ (small : leb (to_ℕ cfg.max_payload_bytes) (2 ^ 32 - 1) ≡ true)
      (limit : lt cfg.vis_fresh_s (zero_f R) ≡ false) where
    send_tick_total :
        (now_s log_s : Float) (sends : Bool) (s : Bridge Float)
        → IsPosted R s.shared.latest_intent
        → IsIngested R s.shared.latest_vis
        → (send_tick R cfg now_s log_s sends s).0 ≡ ok tt
    unfolding send_tick
    send_tick_total now_s log_s sends s posted ingested =
        let seq = (reserve_cmd_seq R none s.shared).0 in
        let (p, blocked, built) =
          build_cmd_payload_total R (pos seq) now_s s.shared.latest_intent s.shared.latest_vis
            (get_vis_age_s R s.shared now_s) cfg.vis_fresh_s (nat_nonneg seq) limit posted
            ingested in
        rw built (
          on_framed_total p (frame_cmd_payload (cfg.dumps p) (to_ℕ cfg.max_payload_bytes)) now_s
            log_s sends _
            (λ e h.
              frame_cmd_payload-value_error (cfg.dumps p) (to_ℕ cfg.max_payload_bytes) e small h))

    -- When the payload limit is below 2^32, the limit of freshness is not below 0, the intent is
    -- missing or was stored by `post_intent`, and the vision snapshot is missing or has the form
    -- that the validator returns, a round of the bridge ends without an error, whatever the
    -- network does.
    pub round_total :
        (now_s log_s : Float) (works : Bool) (s : Bridge Float)
        → IsPosted R s.shared.latest_intent
        → IsIngested R s.shared.latest_vis
        → (round R cfg now_s log_s works s).0 ≡ ok tt
    unfolding round
    round_total now_s log_s works s posted ingested =
        let sent = send_tick_total now_s log_s works s posted ingested in
        elim (Bool-cases s.sock) [
          | inl open_sock ↦
              ap (λ (out : Result (Unit {0}) × Bridge Float). out.0) (if_true s.sock _ _ open_sock)
              ∙ sent
          | inr no_sock ↦
              ap (λ (out : Result (Unit {0}) × Bridge Float). out.0) (if_false s.sock _ _ no_sock)
        ]
