-- ===== src/Backend/Broadcast/Throttle.antt =====
-- How often the browsers are told (src/backend/broadcast.py): the events of one kind, and the
-- warnings of one kind, are apart in time.
use aot_drone.Backend.Broadcast.{warn, is_repeated, can_emit}
use aot_drone.Common.Dicts.{find-assign_other, assign, find, find-assign_same}
use aot_drone.Backend.State.{SharedState}
use aot_drone.Json.{Fields, get, is_text}
use aot_drone.Runtime.{Runtime, zero_f}
use aot_drone.Backend.WsManager.Queues.{step-ManagerInv, broadcasts, ◌⟹◌, ManagerInv}
use aot_drone.Backend.Broadcast.{
  warn, is_repeated, can_emit, on_vis_drop, on_fc_connection_changed, on_tel_update, on_tel_drop,
  on_tracking_blocked, broadcast_link_status, on_vis_update, emit, period_s, Broadcaster,
  BroadcastSettings,
}
use aot_drone.Common.{
  latest, Spaced, IsAfter, eq_refl, subst, inr, Bool, not, ◌&&◌, List, false, String, ◌≡◌, true,
  eq_iff, ap, ◌∷◌, Bool-cases, inl, ◌∙◌, refl, str_eq, sym, if◌then◌else◌, [],
}
use aot_drone.Backend.WsManager.{WsManager, broadcast, build_envelope, Envelope}

module _ {F : Type 0} where
  -- the times of the envelopes that pass a test, the last one first
  unfoldable pub times : (Envelope F → Bool) → List (Envelope F) → List F
  times test [] = []
  times test (e ∷ es) = let rest = times test es in if test e then e.timestamp_s ∷ rest else rest

  abbrev pub is_event : String → Envelope F → Bool
  is_event event e = str_eq e.event event

  abbrev pub is_warning : String → Envelope F → Bool
  is_warning kind e = str_eq e.event "WARNING" && is_text kind (get "kind" e.payload)

  times_passed :
      (test : Envelope F → Bool) (e : Envelope F) (es : List (Envelope F))
      → test e ≡ true
      → times test (e ∷ es) ≡ e.timestamp_s ∷ times test es
  unfolding times
  times_passed test e es h = rw h refl

  pub times_skipped :
      (test : Envelope F → Bool) (e : Envelope F) (es : List (Envelope F))
      → test e ≡ false
      → times test (e ∷ es) ≡ times test es
  unfolding times
  times_skipped test e es h = rw h refl

  pub push-Spaced :
      (test : Envelope F → Bool) (apart : F → F → Bool) (e : Envelope F) (es : List (Envelope F))
      → Spaced apart (times test es)
      → (test e ≡ true → IsAfter apart e.timestamp_s (latest (times test es)))
      → Spaced apart (times test (e ∷ es))
  push-Spaced test apart e es spaced after = elim (Bool-cases (test e)) [
    | inl passed ↦ rw (times_passed test e es passed) (after passed, spaced)
    | inr skipped ↦ rw (times_skipped test e es skipped) spaced
  ]

  -- an entry that is kept for each key is the time of the last envelope of that key
  pub assign-latest :
      (tests : String → Envelope F → Bool) (key : String) (e : Envelope F) (es : List (Envelope F))
      (kept : List (String × F)) (other : String)
      → tests key e ≡ true
      → (str_eq key other ≡ false → tests other e ≡ false)
      → find other kept ≡ latest (times (tests other) es)
      → find other (assign key e.timestamp_s kept) ≡ latest (times (tests other) (e ∷ es))
  assign-latest tests key e es kept other own away before = elim (Bool-cases (str_eq key other)) [
    | inl same ↦
        subst (λ o. find o (assign key e.timestamp_s kept) ≡ latest (times (tests o) (e ∷ es)))
          ((eq_iff key other).0 same)
          (find-assign_same key e.timestamp_s kept
            ∙ sym (ap latest (times_passed (tests key) e es own)))
    | inr apart ↦
        find-assign_other key other e.timestamp_s kept apart
        ∙ (before ∙ sym (ap latest (times_skipped (tests other) e es (away apart))))
  ]

module _ (R : Runtime) (cfg : BroadcastSettings R.Float) where
  open R use {Float, lt, le, sub}

  -- at least the period of an event later
  abbrev pub far : String → Float → Float → Bool
  far event t u = le (period_s R cfg event) (sub t u)

  -- not within the interval of the warnings, when there is one
  abbrev pub quiet : Float → Float → Bool
  quiet t u =
      not (lt (zero_f R) cfg.warning_min_interval_s && lt (sub t u) cfg.warning_min_interval_s)

  -- the events that one thread alone sends: its ingestor's, which checks the time that it kept itself
  pub data IsOwned : String → Type 0 where
    by_tel : IsOwned "TEL_UPDATE"
    by_vis : IsOwned "VIS_UPDATE"

  pub IsOwned-no_warning : {event : String} → IsOwned event → str_eq "WARNING" event ≡ false
  IsOwned-no_warning by_tel = refl
  IsOwned-no_warning by_vis = refl

  pub record BroadcasterInv (b : Broadcaster Float) : Type 0 where
    pub managed : ManagerInv b.manager
    pub tel_spaced : Spaced (far "TEL_UPDATE") (times (is_event "TEL_UPDATE") b.sent)
    pub vis_spaced : Spaced (far "VIS_UPDATE") (times (is_event "VIS_UPDATE") b.sent)
    pub warnings_spaced : (kind : String) → Spaced quiet (times (is_warning kind) b.sent)
    pub last_emits :
        (event : String)
        → IsOwned event
        → find event b.last_emit_s ≡ latest (times (is_event event) b.sent)
    pub last_warnings :
        (kind : String) → find kind b.warning_last_emit_s ≡ latest (times (is_warning kind) b.sent)

  -- What may happen to the broadcaster: the calls of the ingestors, of the bridge and of the
  -- heartbeat, and what other threads do to the objects that it shares. No lock is held over a call.
  -- One that others run into checks a broadcaster `before`, and sends on the one that they left,
  -- which has the time that its own thread kept; its payload was built in between. A kind of warning
  -- has one thread too, but LINK_STATUS has two, so nothing is assumed of its time.
  infix 40 ◌⟶◌
  pub data ◌⟶◌ (b : Broadcaster Float) : Broadcaster Float → Type 0 where
    tel_updates : (msg : Fields Float) (rx_s : Float) → b ⟶ on_tel_update R cfg msg rx_s b
    vis_updates : (msg : Fields Float) (rx_s : Float) → b ⟶ on_vis_update R cfg msg rx_s b
    tel_drops :
        (now_s : Float) (reason detail : String) → b ⟶ on_tel_drop R cfg now_s reason detail b
    vis_drops :
        (now_s : Float) (reason detail : String) → b ⟶ on_vis_drop R cfg now_s reason detail b
    connection_changes :
        (warn_s now_s : Float) (connected : Bool)
        → b ⟶ on_fc_connection_changed R cfg warn_s now_s connected b
    tracking_blocks :
        (warn_s now_s : Float) (reason : String)
        → b ⟶ on_tracking_blocked R cfg warn_s now_s reason b
    link_statuses :
        (now_s : Float) (force : Bool) → b ⟶ (broadcast_link_status R cfg now_s force b).1
    tel_sends :
        (before : Broadcaster Float) (d : Fields Float) (rx_s : Float)
        → find "TEL_UPDATE" before.last_emit_s ≡ find "TEL_UPDATE" b.last_emit_s
        → can_emit R cfg "TEL_UPDATE" rx_s false before ≡ true
        → b ⟶ emit R cfg "TEL_UPDATE" d rx_s b
    vis_sends :
        (before : Broadcaster Float) (d : Fields Float) (rx_s : Float)
        → find "VIS_UPDATE" before.last_emit_s ≡ find "VIS_UPDATE" b.last_emit_s
        → can_emit R cfg "VIS_UPDATE" rx_s false before ≡ true
        → b ⟶ emit R cfg "VIS_UPDATE" d rx_s b
    warning_sends :
        (before : Broadcaster Float) (kind detail severity : String) (now_s : Float)
        → find kind before.warning_last_emit_s ≡ find kind b.warning_last_emit_s
        → is_repeated R cfg now_s (find kind before.warning_last_emit_s) ≡ false
        → b ⟶ warn R cfg kind detail severity now_s b
    link_sends : (d : Fields Float) (now_s : Float) → b ⟶ emit R cfg "LINK_STATUS" d now_s b
    shares :
        (shared : SharedState Float) {m : WsManager Float}
        → b.manager ⟹ m
        → b ⟶ record b { shared = shared; manager = m }

  -- the calls so far
  pub data Run (b : Broadcaster Float) : Broadcaster Float → Type 0 where
    here : Run b b
    later : {c d : Broadcaster Float} → Run b c → c ⟶ d → Run b d

  pub emit-BroadcasterInv :
      (event : String) (payload : Fields Float) (now_s : Float) (b : Broadcaster Float)
      → str_eq event "WARNING" ≡ false
      → str_eq "WARNING" event ≡ false
      → (str_eq event "TEL_UPDATE" ≡ true
          → IsAfter (far "TEL_UPDATE") now_s (find "TEL_UPDATE" b.last_emit_s))
      → (str_eq event "VIS_UPDATE" ≡ true
          → IsAfter (far "VIS_UPDATE") now_s (find "VIS_UPDATE" b.last_emit_s))
      → BroadcasterInv b
      → BroadcasterInv (emit R cfg event payload now_s b)
  unfolding broadcast build_envelope
  emit-BroadcasterInv event payload now_s b no_warning no_warning' tel_due vis_due h =
      let e = (build_envelope event payload now_s b.manager).0 in
      let silent : (kind : String) → is_warning kind e ≡ false = λ kind. rw no_warning refl in
      record {
        managed = step-ManagerInv b.manager (broadcasts event payload now_s) h.managed;
        tel_spaced =
            push-Spaced (is_event "TEL_UPDATE") (far "TEL_UPDATE") e b.sent h.tel_spaced (λ is_tel.
              subst (IsAfter (far "TEL_UPDATE") now_s) (h.last_emits "TEL_UPDATE" by_tel)
                (tel_due is_tel));
        vis_spaced =
            push-Spaced (is_event "VIS_UPDATE") (far "VIS_UPDATE") e b.sent h.vis_spaced (λ is_vis.
              subst (IsAfter (far "VIS_UPDATE") now_s) (h.last_emits "VIS_UPDATE" by_vis)
                (vis_due is_vis));
        warnings_spaced = λ kind.
            rw (times_skipped (is_warning kind) e b.sent (silent kind)) (h.warnings_spaced kind);
        last_emits = λ other known.
            assign-latest is_event event e b.sent b.last_emit_s other (eq_refl event)
              (λ apart. apart) (h.last_emits other known);
        last_warnings = λ kind.
            h.last_warnings kind
            ∙ sym (ap latest (times_skipped (is_warning kind) e b.sent (silent kind)));
      }
