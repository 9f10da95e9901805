-- ===== src/Backend/CmdSchema/Total.antt =====
-- Payloads from what the gateway itself stored: they are always built
-- (src/backend/cmd_schema.py, src/backend/app.py).
use aot_drone.Common.{
  Bool-cases, inl, inr, ◌≡◌, refl, String, Bool, true, false, Option, none, some, is_some, ok,
}
use aot_drone.Common.Int.{ℤ, pos, ltb_ℤ}
use aot_drone.Runtime.{Runtime, zero_f}
use aot_drone.Json.{object, Fields, get, put, has_all, int_of, float_of, bool_of}
use aot_drone.Backend.Schema.{is_control_mode}
use aot_drone.Backend.VisSchema.{VisFields, vis_dict}
use aot_drone.Backend.Intent.{IntentRequest, stored, intent_payload, intent_payload-eq-some}
use aot_drone.Backend.CmdSchema.{
  Intent, read_intent, fresh_vis, gate_mode, build_tracking_object, with_tracking, base_payload,
  build_cmd_payload,
}

module _ (R : Runtime) where
  open R use {Float, lt, le}

  read_intent-stored :
      (mode : ℤ) (arm : Option Bool) (setpoints : Option (Fields Float))
      → is_control_mode mode ≡ true
      → read_intent R (some (stored mode arm setpoints))
        ≡ ok (record { desired_mode = mode; arm = arm; setpoints = setpoints })
  unfolding read_intent stored get int_of bool_of
  read_intent-stored mode none none k = rw k
  read_intent-stored mode (some a) none k = rw k
  read_intent-stored mode none (some s) k = rw k
  read_intent-stored mode (some a) (some s) k = rw k

  -- What `build_cmd_payload` reads from the dict that `post_intent` stores for a request is the
  -- mode, arming and setpoints of the request.
  pub read_intent-intent_payload :
      (req : IntentRequest Float) {d : Fields Float}
      → intent_payload req ≡ some d
      → read_intent R (some d)
        ≡ ok (record { desired_mode = req.desired_mode; arm = req.arm; setpoints = req.setpoints })
  read_intent-intent_payload req h =
      let (k, same) = intent_payload-eq-some req h in
      rw (← same) (read_intent-stored req.desired_mode req.arm req.setpoints k)

  -- what `post_intent` may have left as the latest intent
  abbrev pub IsPosted : Option (Fields Float) → Type 0
  IsPosted none = Unit
  IsPosted (some d) = (req : IntentRequest Float) × (intent_payload req ≡ some d)

  read_intent_total :
      (intent : Option (Fields Float))
      → IsPosted intent
      → (asked : Intent Float) × (read_intent R intent ≡ ok asked)
  unfolding read_intent
  read_intent_total none posted = (_, refl)
  read_intent_total (some d) (req, h) = (_, read_intent-intent_payload req h)

  -- what the ingestor may have left as the latest vision message
  abbrev pub IsIngested : Option (Fields Float) → Type 0
  IsIngested none = Unit
  IsIngested (some d) = (v : VisFields Float) × (d ≡ vis_dict v)

  build_tracking_object-vis_dict :
      (v : VisFields Float) → (t : Fields Float) × (build_tracking_object R (vis_dict v) ≡ ok t)
  unfolding build_tracking_object get has_all int_of float_of
  build_tracking_object-vis_dict v = (_, refl)

  with_tracking_total :
      (vis_snapshot : Option (Fields Float)) (age : Option Float) (limit : Float) (d : Fields Float)
      → IsIngested vis_snapshot
      → (p : Fields Float) × (with_tracking R (fresh_vis R vis_snapshot age limit) d ≡ ok p)
  unfolding with_tracking fresh_vis
  with_tracking_total none age limit d i = (d, refl)
  with_tracking_total (some vis) none limit d i = (d, refl)
  with_tracking_total (some vis) (some age) limit d (v, e) =
      let (t, built) = build_tracking_object-vis_dict v in
      elim (Bool-cases (le age limit)) [
        | inl near ↦ (put "tracking" (object t) d, rw near (rw e (rw built)))
        | inr far ↦ (d, rw far)
      ]

  -- For a sequence number that is not negative, a limit of freshness that is not below 0, an
  -- intent that is missing or was stored by `post_intent`, and a snapshot that is missing or has
  -- the form that the validator returns, `build_cmd_payload` returns a payload.
  pub build_cmd_payload_total :
      (seq : ℤ) (t : Float) (intent vis_snapshot : Option (Fields Float)) (age : Option Float)
      (limit : Float)
      → ltb_ℤ seq (pos 0) ≡ false
      → lt limit (zero_f R) ≡ false
      → IsPosted intent
      → IsIngested vis_snapshot
      → (p : Fields Float) × (blocked : Option String) × (build_cmd_payload R seq t intent
            vis_snapshot age limit
          ≡ ok (p, blocked))
  unfolding build_cmd_payload
  build_cmd_payload_total seq t intent vis_snapshot age limit n l posted ingested =
      let (asked, read) = read_intent_total intent posted in
      let fresh = fresh_vis R vis_snapshot age limit in
      let gated = gate_mode R asked.desired_mode vis_snapshot (is_some fresh) in
      let (p, built) =
        with_tracking_total vis_snapshot age limit
          (base_payload R seq t gated.0 asked.arm asked.setpoints) ingested in
      (p, gated.1, rw (n, l, read, built))
