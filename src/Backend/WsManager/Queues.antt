-- ===== src/Backend/WsManager/Queues.antt =====
-- The queues of the clients stay bounded (src/backend/ws_manager.py).
use aot_drone.Backend.WsManager.Numbers.{
  Unique, Unique-same, numbers_of-push_at, numbers_of-map, numbers_of-pop_from, without-Unique,
  append-Unique,
}
use aot_drone.Common.{
  inr, inl, ℕ, suc, ◌+◌, ◌≤◌, ◌<◌, ◌≡◌, leb, ◌==◌, Bool-cases, String, List, [], ◌∷◌, length, map,
  length-append, All, All-append, ok, arith,
}
use aot_drone.Common.Int.{ℤ}
use aot_drone.Json.{Fields}
use aot_drone.Backend.WsManager.{
  push_at, push_to_client, Envelope, ClientQueue, WsManager, new_manager, register, without,
  unregister, build_envelope, pop_left, push, push_to, broadcast, pop_from, pop_next,
}

module _ {F : Type 0} where
  -- the numbers of the envelopes are below `next`
  abbrev pub Below : ℕ → List (Envelope F) → Type 0
  Below next es = All (λ d. d.seq < next) es

  pub record IsClient (queue_max next_id next_seq : ℕ) (c : ClientQueue F) : Type 0 where
    pub registered : c.client_id < next_id
    pub bounded : length c.queue ≤ queue_max
    pub numbered : Below next_seq c.queue

  pub record ManagerInv (m : WsManager F) : Type 0 where
    pub room : 1 ≤ m.queue_max
    pub all_clients : All (IsClient m.queue_max m.next_client_id m.next_event_seq) m.clients
    pub unique : Unique m.clients

  -- What a thread may do to the manager, in steps as small as the locked sections: the number of a
  -- broadcast, then the push of an envelope that has a number to one client, while others run. A
  -- broadcast that no other thread runs into is a step too.
  infix 40 ◌⟹◌
  pub data ◌⟹◌ (m : WsManager F) : WsManager F → Type 0 where
    registers : m ⟹ (register m).1
    unregisters : (client_id : ℕ) → m ⟹ unregister client_id m
    numbers : (event : String) (d : Fields F) (now_s : F) → m ⟹ (build_envelope event d now_s m).1
    pushes :
        (client_id : ℕ) (e : Envelope F)
        → e.seq < m.next_event_seq
        → m ⟹ push_to_client client_id e m
    broadcasts : (event : String) (d : Fields F) (now_s : F) → m ⟹ (broadcast event d now_s m).1
    pops : (client_id : ℕ) → m ⟹ (pop_next client_id m).1

  Below-suc : (next : ℕ) (es : List (Envelope F)) → Below next es → Below (next + 1) es
  Below-suc next [] r = tt
  Below-suc next (e ∷ es) (below, r) = (omega arith, Below-suc next es r)

  pop_left-Below : (next : ℕ) (es : List (Envelope F)) → Below next es → Below next (pop_left es)
  pop_left-Below next [] r = tt
  pop_left-Below next (e ∷ es) (below, r) = r

  push-Below :
      (queue_max next : ℕ) (e : Envelope F) (es : List (Envelope F))
      → e.seq < next
      → Below next es
      → Below next (push queue_max e es)
  unfolding push
  push-Below queue_max next e es below r = elim (Bool-cases (leb queue_max (length es))) [
    | inl full ↦
        rw full (All-append _ (pop_left es) (e ∷ []) (pop_left-Below next es r) (below, tt))
    | inr free ↦ rw free (All-append _ es (e ∷ []) r (below, tt))
  ]

  push-bounded :
      (queue_max : ℕ) (e : Envelope F) (es : List (Envelope F))
      → 1 ≤ queue_max
      → length es ≤ queue_max
      → length (push queue_max e es) ≤ queue_max
  unfolding push
  push-bounded queue_max e [] room b = elim (Bool-cases (leb queue_max 0)) [
    | inl full ↦ rw full (omega arith)
    | inr free ↦ rw free (omega arith)
  ]
  push-bounded queue_max e (d ∷ es) room b = elim (Bool-cases (leb queue_max (suc (length es)))) [
    | inl full ↦ rw full (omega (arith, length-append es (e ∷ [])))
    | inr free ↦
        let more : suc (suc (length es)) ≤ queue_max = ground (arith, free) in
        rw free (omega (arith, length-append es (e ∷ []), more))
  ]

  push_to-IsClient :
      (queue_max next_id next_seq : ℕ) (e : Envelope F) (c : ClientQueue F)
      → 1 ≤ queue_max
      → e.seq < next_seq
      → IsClient queue_max next_id next_seq c
      → IsClient queue_max next_id next_seq (push_to queue_max e c)
  push_to-IsClient queue_max next_id next_seq e c room below h = record {
    registered = h.registered;
    bounded = push-bounded queue_max e c.queue room h.bounded;
    numbered = push-Below queue_max next_seq e c.queue below h.numbered;
  }

  push_at-All :
      (client_id queue_max next_id next_seq : ℕ) (e : Envelope F) (cs : List (ClientQueue F))
      → 1 ≤ queue_max
      → e.seq < next_seq
      → All (IsClient queue_max next_id next_seq) cs
      → All (IsClient queue_max next_id next_seq) (push_at client_id queue_max e cs)
  unfolding push_at
  push_at-All client_id queue_max next_id next_seq e [] room below a = tt
  push_at-All client_id queue_max next_id next_seq e (c ∷ cs) room below (h, a) =
      let rest = push_at-All client_id queue_max next_id next_seq e cs room below a in
      elim (Bool-cases (c.client_id == client_id)) [
        | inl same ↦ rw same (push_to-IsClient queue_max next_id next_seq e c room below h, a)
        | inr other ↦ rw other (h, rest)
      ]

  numbered-All :
      (queue_max next_id next_seq : ℕ) (cs : List (ClientQueue F))
      → All (IsClient queue_max next_id next_seq) cs
      → All (IsClient queue_max next_id (next_seq + 1)) cs
  numbered-All queue_max next_id next_seq [] a = tt
  numbered-All queue_max next_id next_seq (c ∷ cs) (h, a) = (
    record {
      registered = h.registered;
      bounded = h.bounded;
      numbered = Below-suc next_seq c.queue h.numbered;
    },
    numbered-All queue_max next_id next_seq cs a,
  )

  broadcast-All :
      (queue_max next_id next_seq : ℕ) (e : Envelope F) (cs : List (ClientQueue F))
      → 1 ≤ queue_max
      → e.seq < next_seq
      → All (IsClient queue_max next_id next_seq) cs
      → All (IsClient queue_max next_id next_seq) (map (push_to queue_max e) cs)
  broadcast-All queue_max next_id next_seq e [] room below a = tt
  broadcast-All queue_max next_id next_seq e (c ∷ cs) room below (h, a) = (
    push_to-IsClient queue_max next_id next_seq e c room below h,
    broadcast-All queue_max next_id next_seq e cs room below a,
  )

  without-All :
      (P : ClientQueue F → Type 0) (client_id : ℕ) (cs : List (ClientQueue F))
      → All P cs
      → All P (without client_id cs)
  unfolding without
  without-All P client_id [] a = tt
  without-All P client_id (c ∷ cs) (h, a) =
      let rest = without-All P client_id cs a in
      elim (Bool-cases (c.client_id == client_id)) [
        | inl same ↦ rw same a
        | inr other ↦ rw other (h, rest)
      ]

  pop_left-bounded : (n : ℕ) (es : List (Envelope F)) → length es ≤ n → length (pop_left es) ≤ n
  pop_left-bounded n [] b = b
  pop_left-bounded n (e ∷ es) b = omega (arith, b)

  pop_left-IsClient :
      (queue_max next_id next_seq : ℕ) (c : ClientQueue F)
      → IsClient queue_max next_id next_seq c
      → IsClient queue_max next_id next_seq (record c { queue = pop_left c.queue })
  pop_left-IsClient queue_max next_id next_seq c h = record {
    registered = h.registered;
    bounded = pop_left-bounded queue_max c.queue h.bounded;
    numbered = pop_left-Below next_seq c.queue h.numbered;
  }

  pop_from-All :
      (queue_max next_id next_seq client_id : ℕ) (cs : List (ClientQueue F))
      → All (IsClient queue_max next_id next_seq) cs
      → All (IsClient queue_max next_id next_seq) (pop_from client_id cs).1
  unfolding pop_from
  pop_from-All queue_max next_id next_seq client_id [] a = tt
  pop_from-All queue_max next_id next_seq client_id (c ∷ cs) (h, a) =
      let rest = pop_from-All queue_max next_id next_seq client_id cs a in
      elim (Bool-cases (c.client_id == client_id)) [
        | inl same ↦ rw same (pop_left-IsClient queue_max next_id next_seq c h, a)
        | inr other ↦ rw other (h, rest)
      ]

  later-All :
      (queue_max next_id next_seq : ℕ) (cs : List (ClientQueue F))
      → All (IsClient queue_max next_id next_seq) cs
      → All (IsClient queue_max (next_id + 1) next_seq) cs
  later-All queue_max next_id next_seq [] a = tt
  later-All queue_max next_id next_seq (c ∷ cs) (h, a) = (
    record { registered = omega (arith, h.registered); bounded = h.bounded; numbered = h.numbered },
    later-All queue_max next_id next_seq cs a,
  )

  registered_below :
      (queue_max next_id next_seq : ℕ) (cs : List (ClientQueue F))
      → All (IsClient queue_max next_id next_seq) cs
      → All (λ d. d.client_id < next_id) cs
  registered_below queue_max next_id next_seq [] a = tt
  registered_below queue_max next_id next_seq (c ∷ cs) (h, a) =
      (h.registered, registered_below queue_max next_id next_seq cs a)

  -- Registering, unregistering and popping, the number of a broadcast and the push of a numbered
  -- envelope to one client, in any order, and a broadcast that nothing runs into keep the
  -- invariant of the manager: no queue is longer than `queue_max`, every envelope in a queue has
  -- a number below the next one, and the clients have distinct numbers below the next one.
  pub step-ManagerInv : (m : WsManager F) {m' : WsManager F} → m ⟹ m' → ManagerInv m → ManagerInv m'
  unfolding register unregister build_envelope push_to_client broadcast pop_next
  step-ManagerInv m registers h =
      let fresh : IsClient m.queue_max (m.next_client_id + 1) m.next_event_seq
          (record { client_id = m.next_client_id; queue = [] }) =
        record { registered = omega arith; bounded = omega arith; numbered = tt } in
      record {
        room = h.room;
        all_clients =
            All-append _ m.clients _
              (later-All m.queue_max m.next_client_id m.next_event_seq m.clients h.all_clients)
              (fresh, tt);
        unique =
            append-Unique (record { client_id = m.next_client_id; queue = [] }) m.clients
              (registered_below m.queue_max m.next_client_id m.next_event_seq m.clients
                h.all_clients)
              h.unique;
      }
  step-ManagerInv m (unregisters client_id) h = record {
    room = h.room;
    all_clients = without-All _ client_id m.clients h.all_clients;
    unique = without-Unique client_id m.clients h.unique;
  }
  step-ManagerInv m (numbers event d now_s) h = record {
    room = h.room;
    all_clients =
        numbered-All m.queue_max m.next_client_id m.next_event_seq m.clients h.all_clients;
    unique = h.unique;
  }
  step-ManagerInv m (pushes client_id e below) h = record {
    room = h.room;
    all_clients =
        push_at-All client_id m.queue_max m.next_client_id m.next_event_seq e m.clients h.room below
          h.all_clients;
    unique =
        Unique-same m.clients _ (numbers_of-push_at client_id m.queue_max e m.clients) h.unique;
  }
  step-ManagerInv m (broadcasts event d now_s) h =
      let e = (build_envelope event d now_s m).0 in
      record {
        room = h.room;
        all_clients =
            broadcast-All m.queue_max m.next_client_id (m.next_event_seq + 1) e m.clients h.room
              (omega arith)
              (numbered-All m.queue_max m.next_client_id m.next_event_seq m.clients h.all_clients);
        unique = Unique-same m.clients _ (numbers_of-map m.queue_max e m.clients) h.unique;
      }
  step-ManagerInv m (pops client_id) h = record {
    room = h.room;
    all_clients =
        pop_from-All m.queue_max m.next_client_id m.next_event_seq client_id m.clients
          h.all_clients;
    unique = Unique-same m.clients _ (numbers_of-pop_from client_id m.clients) h.unique;
  }

  pub new_manager-ManagerInv :
      (queue_max : ℤ) {m : WsManager F} → new_manager queue_max ≡ ok m → ManagerInv m
  unfolding new_manager
  new_manager-ManagerInv queue_max made = ground arith
