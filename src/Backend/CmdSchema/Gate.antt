-- ===== src/Backend/CmdSchema/Gate.antt =====
-- What a command payload holds, and when Tracking is let through (src/backend/cmd_schema.py).
use aot_drone.Common.{
  >>=-eq-ok, ok_pair, ap, guard, if◌then◌else◌, String, ◌≡◌, refl, sym, ◌∙◌, ◌⊎◌, Bool, true, false,
  not, Option, none, some, is_some, ok, value_error, arith, str_eq,
}
use aot_drone.Common.Int.{ℤ, pos, ltb_ℤ, eqb_ℤ}
use aot_drone.Runtime.{Runtime, zero_f}
use aot_drone.Json.{int, object, Fields, get}
use aot_drone.Json.Laws.{get-put}
use aot_drone.Backend.CmdSchema.{
  Intent, mode_tracking, mode_land_safely, read_intent, fresh_vis, gate_mode, build_tracking_object,
  with_tracking, base_payload, build_cmd_payload,
}

module _ (R : Runtime) where
  open R use {Float, lt, le}

  -- an entry that `base_payload` writes always
  base_payload-get :
      (seq : ℤ) (t : Float) (mode : ℤ) (arm : Option Bool) (setpoints : Option (Fields Float))
      → let d = base_payload R seq t mode arm setpoints in
        (get "desired_mode" d ≡ some (int mode))
        × (get "seq" d ≡ some (int seq))
        × (get "tracking" d ≡ none)
  unfolding base_payload get
  base_payload-get seq t mode none none = (refl, refl, refl)
  base_payload-get seq t mode (some a) none = (refl, refl, refl)
  base_payload-get seq t mode none (some s) = (refl, refl, refl)
  base_payload-get seq t mode (some a) (some s) = (refl, refl, refl)

  with_tracking-get :
      (fresh : Option (Fields Float)) (d : Fields Float) {p : Fields Float} (k : String)
      → str_eq "tracking" k ≡ false
      → with_tracking R fresh d ≡ ok p
      → get k p ≡ get k d
  unfolding with_tracking
  with_tracking-get none d k other h = ground arith
  with_tracking-get (some vis) d k other h =
      let (t, built, e) = >>=-eq-ok (build_tracking_object R vis) _ h in
      ground (arith, get-put "tracking" k (object t) d)

  with_tracking-tracking :
      (fresh : Option (Fields Float)) (d : Fields Float) {p : Fields Float}
      → get "tracking" d ≡ none
      → with_tracking R fresh d ≡ ok p
      → is_some (get "tracking" p) ≡ is_some fresh
  unfolding with_tracking
  with_tracking-tracking none d e h = ground arith
  with_tracking-tracking (some vis) d e h =
      let (t, built, e') = >>=-eq-ok (build_tracking_object R vis) _ h in
      ground (arith, get-put "tracking" "tracking" (object t) d)

  -- a payload and the reason beside it, for what was asked and the vision that was fresh
  pub record IsCommand (seq asked : ℤ) (vis_snapshot fresh : Option (Fields Float))
      (p : Fields Float) (blocked : Option String) : Type 0 where
    pub mode : ℤ
    pub sent_mode : get "desired_mode" p ≡ some (int mode)
    pub sent_seq : get "seq" p ≡ some (int seq)
    pub sent_tracking : is_some (get "tracking" p) ≡ is_some fresh
    pub passed :
        (eqb_ℤ asked mode_tracking ≡ false) ⊎ (is_some fresh ≡ true)
        → (mode ≡ asked) × (blocked ≡ none)
    pub held_back :
        eqb_ℤ asked mode_tracking ≡ true
        → is_some fresh ≡ false
        → (mode ≡ mode_land_safely)
          × (blocked ≡ some (if is_some vis_snapshot then "stale_vis" else "no_vis"))

  gate_mode_lem :
      (asked : ℤ) (vis_snapshot : Option (Fields Float)) (fresh : Bool)
      → ((eqb_ℤ asked mode_tracking ≡ false) ⊎ (fresh ≡ true)
          → gate_mode R asked vis_snapshot fresh ≡ (asked, none))
        × (eqb_ℤ asked mode_tracking ≡ true
            → fresh ≡ false
            → gate_mode R asked vis_snapshot fresh
              ≡ (mode_land_safely, some (if is_some vis_snapshot then "stale_vis" else "no_vis")))
  unfolding gate_mode
  gate_mode_lem asked vis_snapshot fresh = (λ o. ground arith, λ a f. rw (a, f) refl)

  -- the parts of a call that returns
  build_cmd_payload-eq-ok :
      (seq : ℤ) (t : Float) (intent vis_snapshot : Option (Fields Float)) (age : Option Float)
      (limit : Float) {p : Fields Float} {blocked : Option String}
      → build_cmd_payload R seq t intent vis_snapshot age limit ≡ ok (p, blocked)
      → (asked : Intent Float) × (read_intent R intent ≡ ok asked)
        × (let fresh = fresh_vis R vis_snapshot age limit in
            let gated = gate_mode R asked.desired_mode vis_snapshot (is_some fresh) in
            (with_tracking R fresh (base_payload R seq t gated.0 asked.arm asked.setpoints) ≡ ok p)
            × (gated.1 ≡ blocked))
  unfolding build_cmd_payload
  build_cmd_payload-eq-ok seq t intent vis_snapshot age limit h =
      let (_, nonneg, h1) = >>=-eq-ok (guard (not (ltb_ℤ seq (pos 0))) value_error) _ h in
      let (_, nonneg', h2) = >>=-eq-ok (guard (not (lt limit (zero_f R))) value_error) _ h1 in
      let (asked, read, h3) = >>=-eq-ok (read_intent R intent) _ h2 in
      let fresh = fresh_vis R vis_snapshot age limit in
      let gated = gate_mode R asked.desired_mode vis_snapshot (is_some fresh) in
      let (q, built, h4) =
        >>=-eq-ok (with_tracking R fresh (base_payload R seq t gated.0 asked.arm asked.setpoints)) _
          h3 in
      let (same, reason) = ok_pair h4 in (asked, read, (built ∙ ap ok same, reason))

  -- If `build_cmd_payload` returns, then the intent was read, and the payload has the given
  -- sequence number, a `tracking` object exactly when there was fresh vision, and the mode that
  -- was asked for without a reason, unless Tracking was asked for without fresh vision: then the
  -- mode is LandSafely and the reason tells a stale snapshot from a missing one.
  pub build_cmd_payload-IsCommand :
      (seq : ℤ) (t : Float) (intent vis_snapshot : Option (Fields Float)) (age : Option Float)
      (limit : Float) {p : Fields Float} {blocked : Option String}
      → build_cmd_payload R seq t intent vis_snapshot age limit ≡ ok (p, blocked)
      → (asked : Intent Float) × (read_intent R intent ≡ ok asked)
        × IsCommand seq asked.desired_mode vis_snapshot
            (fresh_vis R vis_snapshot age limit)
            p
            blocked
  build_cmd_payload-IsCommand seq t intent vis_snapshot age limit h =
      let (asked, read, (built, reason)) =
        build_cmd_payload-eq-ok seq t intent vis_snapshot age limit h in
      let fresh = fresh_vis R vis_snapshot age limit in
      let gated = gate_mode R asked.desired_mode vis_snapshot (is_some fresh) in
      let base = base_payload R seq t gated.0 asked.arm asked.setpoints in
      let (base_mode, base_seq, base_tracking) =
        base_payload-get seq t gated.0 asked.arm asked.setpoints in
      let (passes, holds) = gate_mode_lem asked.desired_mode vis_snapshot (is_some fresh) in
      (
        asked,
        read,
        record {
          mode = gated.0;
          sent_mode = with_tracking-get fresh base "desired_mode" refl built ∙ base_mode;
          sent_seq = with_tracking-get fresh base "seq" refl built ∙ base_seq;
          sent_tracking = with_tracking-tracking fresh base base_tracking built;
          passed = λ o. (ap (λ g. g.0) (passes o), sym reason ∙ ap (λ g. g.1) (passes o));
          held_back = λ a f. (ap (λ g. g.0) (holds a f), sym reason ∙ ap (λ g. g.1) (holds a f));
        },
      )

  fresh_vis_lem :
      (vis_snapshot : Option (Fields Float)) (age : Option Float) (limit : Float)
      → is_some (fresh_vis R vis_snapshot age limit) ≡ true
      → (vis : Fields Float) × (a : Float) × (vis_snapshot ≡ some vis)
        × (age ≡ some a)
        × (le a limit ≡ true)
  unfolding fresh_vis
  fresh_vis_lem vis_snapshot age limit h = ground arith

  untracked : {b : Bool} → b ≡ false → b ≡ true → ⊥
  untracked e f = cc

  -- Of a payload that `build_cmd_payload` returns: if its `desired_mode` is Tracking, then there
  -- was a vision snapshot with a known age of at most `vis_fresh_s`, and the payload has a
  -- `tracking` object.
  pub tracking_needs_vision :
      (seq : ℤ) (t : Float) (intent vis_snapshot : Option (Fields Float)) (age : Option Float)
      (limit : Float) {p : Fields Float} {blocked : Option String}
      → build_cmd_payload R seq t intent vis_snapshot age limit ≡ ok (p, blocked)
      → get "desired_mode" p ≡ some (int mode_tracking)
      → ((vis : Fields Float) × (a : Float) × (vis_snapshot ≡ some vis)
          × (age ≡ some a)
          × (le a limit ≡ true))
        × (is_some (get "tracking" p) ≡ true)
  tracking_needs_vision seq t intent vis_snapshot age limit {p} h m =
      let (asked, read, c) = build_cmd_payload-IsCommand seq t intent vis_snapshot age limit h in
      let is_fresh : is_some (fresh_vis R vis_snapshot age limit) ≡ true = ground (arith, c, m) in
      (fresh_vis_lem vis_snapshot age limit is_fresh, c.sent_tracking ∙ is_fresh)
