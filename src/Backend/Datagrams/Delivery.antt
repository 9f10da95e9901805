-- ===== src/Backend/Datagrams/Delivery.antt =====
-- What the browsers are told after a datagram (src/backend/broadcast.py, src/backend/ws_manager.py).
use aot_drone.Backend.State.{SharedState}
use aot_drone.Common.Dicts.{find}
use aot_drone.Backend.State.Views.{dict}
use aot_drone.Json.{Fields, text}
use aot_drone.Backend.Broadcast.{
  emit, is_repeated, emit_if_some, can_emit, build_vis_update_data, emit_warning,
  broadcast_vis_update, Broadcaster, build_tel_update_data, BroadcastSettings, broadcast_tel_update,
}
use aot_drone.Runtime.{Runtime}
use aot_drone.Backend.WsManager.{
  build_envelope, push, broadcast_envelope, push_to, Envelope, ClientQueue, broadcast,
}
use aot_drone.Common.{
  String, true, All, map, ap, ℕ, inl, false, List, ◌∷◌, some, ◌++◌, Option, inr, str_eq, eq_iff,
  refl, Bool-cases, if◌then◌else◌, [], ◌≡◌,
}

module _ {F : Type 0} where
  -- the newest envelope of a queue
  abbrev pub EndsWith : Envelope F → ClientQueue F → Type 0
  EndsWith e c = (older : List (Envelope F)) × (c.queue ≡ older ++ (e ∷ []))

  abbrev pub ids : List (ClientQueue F) → List ℕ
  ids cs = map (λ c. c.client_id) cs

  -- one envelope was broadcast: every client, none of them new or gone, has it as its newest
  pub record Delivered (event : String) (payload : Fields F) (now_s : F) (b c : Broadcaster F)
      : Type 0 where
    pub sent : c.sent ≡ (build_envelope event payload now_s b.manager).0 ∷ b.sent
    pub queued : All (EndsWith (build_envelope event payload now_s b.manager).0) c.manager.clients
    pub same_clients : ids c.manager.clients ≡ ids b.manager.clients

  pub record Silent (b c : Broadcaster F) : Type 0 where
    pub sent : c.sent ≡ b.sent
    pub manager : c.manager ≡ b.manager

  push_to-All :
      (queue_max : ℕ) (e : Envelope F) (cs : List (ClientQueue F))
      → All (EndsWith e) (map (push_to queue_max e) cs)
  unfolding push
  push_to-All queue_max e [] = tt
  push_to-All queue_max e (c ∷ cs) = ((_, refl), push_to-All queue_max e cs)

  ids-push_to :
      (queue_max : ℕ) (e : Envelope F) (cs : List (ClientQueue F))
      → ids (map (push_to queue_max e) cs) ≡ ids cs
  ids-push_to queue_max e [] = refl
  ids-push_to queue_max e (c ∷ cs) = ap (λ ns. c.client_id ∷ ns) (ids-push_to queue_max e cs)

module _ (R : Runtime) (cfg : BroadcastSettings R.Float) where
  open R use {Float}

  -- an update that is sent when it is due
  pub data Update (event : String) (payload : Fields Float) (now_s : Float)
      (b c : Broadcaster Float) : Type 0 where
    updated :
        can_emit R cfg event now_s false b ≡ true
        → Delivered event payload now_s b c
        → Update event payload now_s b c
    throttled :
        can_emit R cfg event now_s false b ≡ false → Silent b c → Update event payload now_s b c

  abbrev pub warning_dict : String → String → Fields Float
  warning_dict kind detail =
      dict (("kind", text kind) ∷ ("detail", text detail) ∷ ("severity", text "warn") ∷ [])

  -- a drop is told only when the datagram was too long and no such warning is recent
  pub data DropTold (kind reason : String) (now_s : Float) (b c : Broadcaster Float) : Type 0 where
    warned :
        (detail : String)
        → reason ≡ "oversize"
        → is_repeated R cfg now_s (find kind b.warning_last_emit_s) ≡ false
        → Delivered "WARNING" (warning_dict kind detail) now_s b c
        → DropTold kind reason now_s b c
    repeated :
        reason ≡ "oversize"
        → is_repeated R cfg now_s (find kind b.warning_last_emit_s) ≡ true
        → Silent b c
        → DropTold kind reason now_s b c
    untold : str_eq reason "oversize" ≡ false → Silent b c → DropTold kind reason now_s b c

  emit-Delivered :
      (event : String) (payload : Fields Float) (now_s : Float) (b : Broadcaster Float)
      → Delivered event payload now_s b (emit R cfg event payload now_s b)
  unfolding broadcast build_envelope broadcast_envelope push
  emit-Delivered event payload now_s b = record {
    sent = refl;
    queued = push_to-All b.manager.queue_max _ b.manager.clients;
    same_clients = ids-push_to b.manager.queue_max _ b.manager.clients;
  }

  emit_if_some-Update :
      (event : String) {data_of : Option (Fields Float)} (payload : Fields Float) (now_s : Float)
      (b : Broadcaster Float)
      → data_of ≡ some payload
      → can_emit R cfg event now_s false b ≡ true
      → let c = (emit_if_some R cfg event data_of now_s b).1 in
        (c.shared ≡ b.shared) × Update event payload now_s b c
  emit_if_some-Update event payload now_s b known due =
      rw known (refl, updated due (emit-Delivered event payload now_s b))

  pub broadcast_tel_update-Update :
      (payload : Fields Float) (now_s : Float) (b : Broadcaster Float)
      → build_tel_update_data R cfg now_s b.shared ≡ some payload
      → let c = (broadcast_tel_update R cfg now_s false b).1 in
        (c.shared ≡ b.shared) × Update "TEL_UPDATE" payload now_s b c
  unfolding broadcast_tel_update
  broadcast_tel_update-Update payload now_s b known =
      elim (Bool-cases (can_emit R cfg "TEL_UPDATE" now_s false b)) [
        | inr early ↦ rw early (refl, throttled early (record { sent = refl; manager = refl }))
        | inl due ↦ rw due (emit_if_some-Update "TEL_UPDATE" payload now_s b known due)
      ]

  pub broadcast_vis_update-Update :
      (payload : Fields Float) (now_s : Float) (b : Broadcaster Float)
      → build_vis_update_data R cfg now_s b.shared ≡ some payload
      → let c = (broadcast_vis_update R cfg now_s false b).1 in
        (c.shared ≡ b.shared) × Update "VIS_UPDATE" payload now_s b c
  unfolding broadcast_vis_update
  broadcast_vis_update-Update payload now_s b known =
      elim (Bool-cases (can_emit R cfg "VIS_UPDATE" now_s false b)) [
        | inr early ↦ rw early (refl, throttled early (record { sent = refl; manager = refl }))
        | inl due ↦ rw due (emit_if_some-Update "VIS_UPDATE" payload now_s b known due)
      ]

  pub emit_warning-DropTold :
      (now_s : Float) (kind detail reason : String) (b : Broadcaster Float)
      → reason ≡ "oversize"
      → let c = (emit_warning R cfg now_s kind detail "warn" b).1 in
        (c.shared ≡ b.shared) × DropTold kind reason now_s b c
  unfolding emit_warning broadcast build_envelope broadcast_envelope push
  emit_warning-DropTold now_s kind detail reason b large =
      elim (Bool-cases (is_repeated R cfg now_s (find kind b.warning_last_emit_s))) [
        | inl soon ↦ rw soon (refl, repeated large soon (record { sent = refl; manager = refl }))
        | inr fresh ↦ rw fresh (
          refl,
          warned detail large fresh (record {
            sent = refl;
            queued = push_to-All b.manager.queue_max _ b.manager.clients;
            same_clients = ids-push_to b.manager.queue_max _ b.manager.clients;
          }),
        )
      ]

  -- both callbacks warn of an oversize datagram only
  pub if_oversize-DropTold :
      (now_s : Float) (kind detail reason : String) (b : Broadcaster Float)
      → let c =
          if str_eq reason "oversize"
          then (emit_warning R cfg now_s kind detail "warn" b).1
          else b in
        (c.shared ≡ b.shared) × DropTold kind reason now_s b c
  if_oversize-DropTold now_s kind detail reason b = elim (Bool-cases (str_eq reason "oversize")) [
    | inl large ↦
        rw large
          (emit_warning-DropTold now_s kind detail reason b ((eq_iff reason "oversize").0 large))
    | inr small ↦ rw small (refl, untold small (record { sent = refl; manager = refl }))
  ]

  -- what is told does not depend on the shared state but through the payload
  abbrev with_shared : SharedState Float → Broadcaster Float → Broadcaster Float
  with_shared shared b = record b { shared = shared }

  Delivered-with_shared :
      (shared : SharedState Float) (b : Broadcaster Float) {c : Broadcaster Float} {event : String}
      {payload : Fields Float} {now_s : Float}
      → Delivered event payload now_s (with_shared shared b) c
      → Delivered event payload now_s b c
  Delivered-with_shared shared b d = record {
    sent = d.sent;
    queued = d.queued;
    same_clients = d.same_clients;
  }

  Silent-with_shared :
      (shared : SharedState Float) (b : Broadcaster Float) {c : Broadcaster Float}
      → Silent (with_shared shared b) c
      → Silent b c
  Silent-with_shared shared b d = record { sent = d.sent; manager = d.manager }

  pub Update-with_shared :
      (shared : SharedState Float) (b : Broadcaster Float) {c : Broadcaster Float} {event : String}
      {payload : Fields Float} {now_s : Float}
      → Update event payload now_s (with_shared shared b) c
      → Update event payload now_s b c
  unfolding can_emit
  Update-with_shared shared b (updated due d) = updated due (Delivered-with_shared shared b d)
  Update-with_shared shared b (throttled early d) = throttled early (Silent-with_shared shared b d)

  pub DropTold-with_shared :
      (shared : SharedState Float) (b : Broadcaster Float) {c : Broadcaster Float}
      {kind reason : String} {now_s : Float}
      → DropTold kind reason now_s (with_shared shared b) c
      → DropTold kind reason now_s b c
  DropTold-with_shared shared b (warned detail large fresh d) =
      warned detail large fresh (Delivered-with_shared shared b d)
  DropTold-with_shared shared b (repeated large soon d) =
      repeated large soon (Silent-with_shared shared b d)
  DropTold-with_shared shared b (untold small d) = untold small (Silent-with_shared shared b d)
