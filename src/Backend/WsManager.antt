-- ===== src/Backend/WsManager.antt =====
-- `WsManager` (src/backend/ws_manager.py): one bounded queue of events for each client of the
-- browser. Each locked section is a step: a broadcast takes its number in one and
-- pushes to each client in one of its own, so two broadcasts may run into each other.
pub mod Numbers
pub mod Queues
pub mod Sections
use aot_drone.Common.{
  ℕ, ◌+◌, ◌==◌, leb, Bool, if◌then◌else◌, String, Option, none, some, List, [], ◌∷◌, ◌++◌, length,
  map, Result, ok, value_error, guard, ◌>>◌,
}
use aot_drone.Common.Int.{ℤ, pos, ltb_ℤ, to_ℕ}
use aot_drone.Runtime.{Runtime}
use aot_drone.Json.{Fields}

pub record Envelope (F : Type 0) : Type 0 where
  pub ws_ver : ℕ
  pub event : String
  pub payload : Fields F
  pub timestamp_s : F
  pub seq : ℕ

-- `_ClientQueue` with its number, the oldest envelope first; the socket itself is not kept here
pub record ClientQueue (F : Type 0) : Type 0 where
  pub client_id : ℕ
  pub queue : List (Envelope F)

pub record WsManager (F : Type 0) : Type 0 where
  pub queue_max : ℕ
  pub clients : List (ClientQueue F)
  pub next_client_id : ℕ
  pub next_event_seq : ℕ

module _ {F : Type 0} where
  -- `__init__`
  unfoldable pub new_manager : ℤ → Result (WsManager F)
  new_manager queue_max = do
    guard (ltb_ℤ (pos 0) queue_max) value_error
    ok (record { queue_max = to_ℕ queue_max; clients = []; next_client_id = 1; next_event_seq = 1 })

  unfoldable pub register : WsManager F → ℕ × WsManager F
  register m = (
    m.next_client_id,
    record m {
      next_client_id = m.next_client_id + 1;
      clients = m.clients ++ (record { client_id = m.next_client_id; queue = [] } ∷ []);
    },
  )

  -- `self._clients.pop(client_id, None)`
  unfoldable pub without : ℕ → List (ClientQueue F) → List (ClientQueue F)
  without client_id [] = []
  without client_id (c ∷ cs) =
      let rest = without client_id cs in if c.client_id == client_id then cs else c ∷ rest

  unfoldable pub unregister : ℕ → WsManager F → WsManager F
  unfolding without
  unregister client_id m = record m { clients = without client_id m.clients }

  unfoldable pub build_envelope : String → Fields F → F → WsManager F → Envelope F × WsManager F
  build_envelope event payload now_s m = (
    record {
      ws_ver = 1;
      event = event;
      payload = payload;
      timestamp_s = now_s;
      seq = m.next_event_seq;
    },
    record m { next_event_seq = m.next_event_seq + 1 },
  )

  -- `popleft` on a queue that is not empty
  abbrev pub pop_left : List (Envelope F) → List (Envelope F)
  pop_left [] = []
  pop_left (e ∷ es) = es

  abbrev pub head_of : List (Envelope F) → Option (Envelope F)
  head_of [] = none
  head_of (e ∷ es) = some e

  unfoldable pub push : ℕ → Envelope F → List (Envelope F) → List (Envelope F)
  push queue_max envelope queue =
      (if leb queue_max (length queue) then pop_left queue else queue) ++ (envelope ∷ [])

  abbrev pub push_to : ℕ → Envelope F → ClientQueue F → ClientQueue F
  push_to queue_max envelope c = record c { queue = push queue_max envelope c.queue }

  -- the locked section that pushes to one client, which may be gone by then
  unfoldable pub push_at : ℕ → ℕ → Envelope F → List (ClientQueue F) → List (ClientQueue F)
  unfolding push
  push_at client_id queue_max envelope [] = []
  push_at client_id queue_max envelope (c ∷ cs) =
      let rest = push_at client_id queue_max envelope cs in
      if c.client_id == client_id then push_to queue_max envelope c ∷ cs else c ∷ rest

  unfoldable pub push_to_client : ℕ → Envelope F → WsManager F → WsManager F
  unfolding push_at
  push_to_client client_id envelope m = record m {
    clients = push_at client_id m.queue_max envelope m.clients;
  }

  -- the sections one after another, with no other thread between them
  unfoldable pub broadcast_envelope : Envelope F → WsManager F → WsManager F
  unfolding push
  broadcast_envelope envelope m = record m {
    clients = map (push_to m.queue_max envelope) m.clients;
  }

  unfoldable pub broadcast : String → Fields F → F → WsManager F → Envelope F × WsManager F
  unfolding build_envelope broadcast_envelope
  broadcast event payload now_s m =
      let (envelope, m') = build_envelope event payload now_s m in
      (envelope, broadcast_envelope envelope m')

  -- the head of the queue of a client, and the clients without it
  unfoldable pub pop_from : ℕ → List (ClientQueue F) → Option (Envelope F) × List (ClientQueue F)
  pop_from client_id [] = (none, [])
  pop_from client_id (c ∷ cs) =
      let (found, rest) = pop_from client_id cs in
      if c.client_id == client_id
      then (head_of c.queue, record c { queue = pop_left c.queue } ∷ cs)
      else (found, c ∷ rest)

  unfoldable pub pop_next : ℕ → WsManager F → Option (Envelope F) × WsManager F
  unfolding pop_from
  pop_next client_id m =
      let (found, clients) = pop_from client_id m.clients in (found, record m { clients = clients })

  abbrev pub client_count : WsManager F → ℕ
  client_count m = length m.clients
