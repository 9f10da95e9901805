-- ===== src/Backend/Broadcast/Runs.antt =====
-- Every call of the broadcaster keeps the events apart (src/backend/broadcast.py).
use aot_drone.Backend.Broadcast.Throttle.{
  tel_sends, vis_sends, warning_sends, link_sends, IsOwned-no_warning,
}
use aot_drone.Common.Dicts.{find}
use aot_drone.Backend.State.{SharedState}
use aot_drone.Backend.WsManager.Queues.{step-ManagerInv, broadcasts, ManagerInv}
use aot_drone.Backend.State.Views.{dict}
use aot_drone.Runtime.{Runtime}
use aot_drone.Backend.WsManager.{WsManager, build_envelope, broadcast}
use aot_drone.Json.{text, Fields, get}
use aot_drone.Backend.Broadcast.Throttle.{
  tel_sends, vis_sends, warning_sends, link_sends, BroadcasterInv, ◌⟶◌, Run, here, later,
  tel_updates, vis_updates, tel_drops, vis_drops, connection_changes, tracking_blocks,
  link_statuses, shares, emit-BroadcasterInv, times_skipped, push-Spaced, assign-latest, times,
  is_event, is_warning, far, quiet,
}
use aot_drone.Common.{
  latest, IsAfter, arith, ap, eq_refl, sym, subst, str_eq, ok, ◌∷◌, eq_iff, Bool, ◌∙◌, [], ◌≡◌,
  Option, inr, false, String, refl, Bool-cases, some, none, true, inl,
}
use aot_drone.Backend.Broadcast.{
  warn, on_tracking_blocked, build_vis_update_data, on_vis_update, broadcast_link_status,
  new_broadcaster, on_vis_drop, build_link_status, broadcast_vis_update, on_fc_connection_changed,
  on_tel_drop, is_repeated, broadcast_tel_update, on_tel_update, emit, build_tel_update_data,
  emit_warning, can_emit, Broadcaster, is_due, BroadcastSettings, period_s, emit_if_some,
}

module _ (R : Runtime) (cfg : BroadcastSettings R.Float) where
  open R use {Float}

  due-IsAfter :
      (event : String) (now_s : Float) (last : Option Float)
      → is_due R cfg now_s (period_s R cfg event) last ≡ true
      → IsAfter (far R cfg event) now_s last
  due-IsAfter event now_s none due = tt
  due-IsAfter event now_s (some last_s) due = due

  quiet-IsAfter :
      (now_s : Float) (last : Option Float)
      → is_repeated R cfg now_s last ≡ false
      → IsAfter (quiet R cfg) now_s last
  quiet-IsAfter now_s none fresh = tt
  quiet-IsAfter now_s (some last_s) fresh = rw fresh refl

  can_emit-IsAfter :
      (event : String) (now_s : Float) (b : Broadcaster Float)
      → can_emit R cfg event now_s false b ≡ true
      → IsAfter (far R cfg event) now_s (find event b.last_emit_s)
  unfolding can_emit
  can_emit-IsAfter event now_s b due = due-IsAfter event now_s (find event b.last_emit_s) due

  emit_if_some-BroadcasterInv :
      (event : String) (payload : Option (Fields Float)) (now_s : Float) (b : Broadcaster Float)
      → ((d : Fields Float) → BroadcasterInv R cfg (emit R cfg event d now_s b))
      → BroadcasterInv R cfg b
      → BroadcasterInv R cfg (emit_if_some R cfg event payload now_s b).1
  emit_if_some-BroadcasterInv event none now_s b emitted h = h
  emit_if_some-BroadcasterInv event (some d) now_s b emitted h = emitted d

  broadcast_tel_update-BroadcasterInv :
      (now_s : Float) (b : Broadcaster Float)
      → BroadcasterInv R cfg b
      → BroadcasterInv R cfg (broadcast_tel_update R cfg now_s false b).1
  unfolding broadcast_tel_update
  broadcast_tel_update-BroadcasterInv now_s b h =
      elim (Bool-cases (can_emit R cfg "TEL_UPDATE" now_s false b)) [
        | inr early ↦ rw early h
        | inl due ↦ rw due (
            emit_if_some-BroadcasterInv "TEL_UPDATE" (build_tel_update_data R cfg now_s b.shared)
              now_s b
              (λ d.
                emit-BroadcasterInv R cfg "TEL_UPDATE" d now_s b refl refl
                  (λ is_tel. can_emit-IsAfter "TEL_UPDATE" now_s b due) (λ is_vis. cc) h)
              h)
      ]

  broadcast_vis_update-BroadcasterInv :
      (now_s : Float) (b : Broadcaster Float)
      → BroadcasterInv R cfg b
      → BroadcasterInv R cfg (broadcast_vis_update R cfg now_s false b).1
  unfolding broadcast_vis_update
  broadcast_vis_update-BroadcasterInv now_s b h =
      elim (Bool-cases (can_emit R cfg "VIS_UPDATE" now_s false b)) [
        | inr early ↦ rw early h
        | inl due ↦ rw due (
            emit_if_some-BroadcasterInv "VIS_UPDATE" (build_vis_update_data R cfg now_s b.shared)
              now_s b
              (λ d.
                emit-BroadcasterInv R cfg "VIS_UPDATE" d now_s b refl refl (λ is_tel. cc)
                  (λ is_vis. can_emit-IsAfter "VIS_UPDATE" now_s b due) h)
              h)
      ]

  broadcast_link_status-BroadcasterInv :
      (now_s : Float) (force : Bool) (b : Broadcaster Float)
      → BroadcasterInv R cfg b
      → BroadcasterInv R cfg (broadcast_link_status R cfg now_s force b).1
  unfolding broadcast_link_status
  broadcast_link_status-BroadcasterInv now_s force b h =
      elim (Bool-cases (can_emit R cfg "LINK_STATUS" now_s force b)) [
        | inr early ↦ rw early h
        | inl due ↦ rw due (
            emit-BroadcasterInv R cfg "LINK_STATUS" (build_link_status R cfg now_s b.shared) now_s b
              refl refl (λ is_tel. cc) (λ is_vis. cc) h)
      ]

  warn-BroadcasterInv :
      (kind detail severity : String) (now_s : Float) (b : Broadcaster Float)
      → is_repeated R cfg now_s (find kind b.warning_last_emit_s) ≡ false
      → BroadcasterInv R cfg b
      → BroadcasterInv R cfg (warn R cfg kind detail severity now_s b)
  unfolding broadcast build_envelope get
  warn-BroadcasterInv kind detail severity now_s b fresh h =
      let last = find kind b.warning_last_emit_s in
      let payload =
        dict (("kind", text kind) ∷ ("detail", text detail) ∷ ("severity", text severity) ∷ []) in
      let e = (build_envelope "WARNING" payload now_s b.manager).0 in
      record {
        managed = step-ManagerInv b.manager (broadcasts "WARNING" payload now_s) h.managed;
        tel_spaced = rw (times_skipped (is_event "TEL_UPDATE") e b.sent refl) h.tel_spaced;
        vis_spaced = rw (times_skipped (is_event "VIS_UPDATE") e b.sent refl) h.vis_spaced;
        warnings_spaced = λ k.
            push-Spaced (is_warning k) (quiet R cfg) e b.sent (h.warnings_spaced k) (λ same.
              subst (λ o. IsAfter (quiet R cfg) now_s (latest (times (is_warning o) b.sent)))
                ((eq_iff kind k).0 same)
                (subst (IsAfter (quiet R cfg) now_s) (h.last_warnings kind)
                  (quiet-IsAfter now_s last fresh)));
        last_emits = λ event known.
            h.last_emits event known
            ∙ sym (
                ap latest
                  (times_skipped (is_event event) e b.sent (IsOwned-no_warning R cfg known)));
        last_warnings = λ k.
            assign-latest is_warning kind e b.sent b.warning_last_emit_s k (eq_refl kind)
              (λ apart. apart) (h.last_warnings k);
      }

  emit_warning-BroadcasterInv :
      (now_s : Float) (kind detail severity : String) (b : Broadcaster Float)
      → BroadcasterInv R cfg b
      → BroadcasterInv R cfg (emit_warning R cfg now_s kind detail severity b).1
  unfolding emit_warning
  emit_warning-BroadcasterInv now_s kind detail severity b h =
      elim (Bool-cases (is_repeated R cfg now_s (find kind b.warning_last_emit_s))) [
        | inl soon ↦ rw soon h
        | inr fresh ↦ rw fresh (warn-BroadcasterInv kind detail severity now_s b fresh h)
      ]

  fresh : SharedState Float → WsManager Float → Broadcaster Float
  fresh shared m = record {
    shared = shared;
    manager = m;
    last_emit_s = [];
    warning_last_emit_s = [];
    sent = [];
  }

  fresh-BroadcasterInv :
      (shared : SharedState Float) (m : WsManager Float)
      → ManagerInv m
      → BroadcasterInv R cfg (fresh shared m)
  unfolding fresh times find
  fresh-BroadcasterInv shared m managed = record {
    managed = managed;
    tel_spaced = tt;
    vis_spaced = tt;
    warnings_spaced = λ kind. tt;
    last_emits = λ event known. refl;
    last_warnings = λ kind. refl;
  }

  new_broadcaster-BroadcasterInv :
      (shared : SharedState Float) (m : WsManager Float) {b : Broadcaster Float}
      → ManagerInv m
      → new_broadcaster R cfg shared m ≡ ok b
      → BroadcasterInv R cfg b
  unfolding new_broadcaster fresh
  new_broadcaster-BroadcasterInv shared m managed made =
      let is_fresh : fresh shared m ≡ _ = ground (arith, made) in
      subst (BroadcasterInv R cfg) is_fresh (fresh-BroadcasterInv shared m managed)

  step-BroadcasterInv :
      (b : Broadcaster Float) {c : Broadcaster Float}
      → ◌⟶◌ R cfg b c
      → BroadcasterInv R cfg b
      → BroadcasterInv R cfg c
  unfolding on_tel_update on_vis_update on_tel_drop on_vis_drop on_fc_connection_changed
      on_tracking_blocked
  step-BroadcasterInv b (tel_updates msg rx_s) h = broadcast_tel_update-BroadcasterInv rx_s b h
  step-BroadcasterInv b (vis_updates msg rx_s) h = broadcast_vis_update-BroadcasterInv rx_s b h
  step-BroadcasterInv b (tel_drops now_s reason detail) h =
      elim (Bool-cases (str_eq reason "oversize")) [
        | inl large ↦ rw large (emit_warning-BroadcasterInv now_s _ _ _ b h)
        | inr reported ↦ rw reported h
      ]
  step-BroadcasterInv b (vis_drops now_s reason detail) h =
      elim (Bool-cases (str_eq reason "oversize")) [
        | inl large ↦ rw large (emit_warning-BroadcasterInv now_s _ _ _ b h)
        | inr reported ↦ rw reported h
      ]
  step-BroadcasterInv b (connection_changes warn_s now_s true) h =
      broadcast_link_status-BroadcasterInv now_s true _
        (emit_warning-BroadcasterInv warn_s _ _ _ b h)
  step-BroadcasterInv b (connection_changes warn_s now_s false) h =
      broadcast_link_status-BroadcasterInv now_s true _
        (emit_warning-BroadcasterInv warn_s _ _ _ b h)
  step-BroadcasterInv b (tracking_blocks warn_s now_s reason) h =
      broadcast_link_status-BroadcasterInv now_s true _
        (emit_warning-BroadcasterInv warn_s _ _ _ b h)
  step-BroadcasterInv b (link_statuses now_s force) h =
      broadcast_link_status-BroadcasterInv now_s force b h
  step-BroadcasterInv b (tel_sends before d rx_s kept due) h =
      emit-BroadcasterInv R cfg "TEL_UPDATE" d rx_s b refl refl
        (λ is_tel.
          subst (IsAfter (far R cfg "TEL_UPDATE") rx_s) kept
            (can_emit-IsAfter "TEL_UPDATE" rx_s before due))
        (λ is_vis. cc) h
  step-BroadcasterInv b (vis_sends before d rx_s kept due) h =
      emit-BroadcasterInv R cfg "VIS_UPDATE" d rx_s b refl refl (λ is_tel. cc)
        (λ is_vis.
          subst (IsAfter (far R cfg "VIS_UPDATE") rx_s) kept
            (can_emit-IsAfter "VIS_UPDATE" rx_s before due))
        h
  step-BroadcasterInv b (warning_sends before kind detail severity now_s kept fresh) h =
      warn-BroadcasterInv kind detail severity now_s b
        (subst (λ last. is_repeated R cfg now_s last ≡ false) kept fresh) h
  step-BroadcasterInv b (link_sends d now_s) h =
      emit-BroadcasterInv R cfg "LINK_STATUS" d now_s b refl refl (λ is_tel. cc) (λ is_vis. cc) h
  step-BroadcasterInv b (shares shared step) h = record {
    managed = step-ManagerInv b.manager step h.managed;
    tel_spaced = h.tel_spaced;
    vis_spaced = h.vis_spaced;
    warnings_spaced = h.warnings_spaced;
    last_emits = h.last_emits;
    last_warnings = h.last_warnings;
  }

  -- After any calls of the ingestors, of the bridge and of the heartbeat on a new broadcaster,
  -- which other threads may run into between the check and the send, and between which they may
  -- change the shared state and the queues, the queues are bounded and hold numbers that were
  -- given out, two broadcasts of TEL_UPDATE are at least 1 / tel_hz apart, so are two of
  -- VIS_UPDATE by 1 / vis_hz, no warning is within warning_min_interval_s of the one of its kind
  -- before it if that is above 0, and the times kept for TEL_UPDATE, for VIS_UPDATE and for each
  -- kind of warning are those of the last one that was sent, if each of these is sent by one
  -- thread.
  pub Run-BroadcasterInv :
      (shared : SharedState Float) (m : WsManager Float) {b c : Broadcaster Float}
      → ManagerInv m
      → new_broadcaster R cfg shared m ≡ ok b
      → Run R cfg b c
      → BroadcasterInv R cfg c
  Run-BroadcasterInv shared m managed made here =
      new_broadcaster-BroadcasterInv shared m managed made
  Run-BroadcasterInv shared m managed made (later run step) =
      step-BroadcasterInv _ step (Run-BroadcasterInv shared m managed made run)
