-- ===== src/Backend/WsManager/Sections.antt =====
-- A broadcast is its locked sections one after another (src/backend/ws_manager.py).
use aot_drone.Common.{true}
use aot_drone.Backend.WsManager.{
  broadcast, Envelope, WsManager, push_to, build_envelope, push_to_client, ClientQueue, push_at,
  broadcast_envelope,
}
use aot_drone.Backend.WsManager.Queues.{ManagerInv, ◌⟹◌, pushes, numbers}
use aot_drone.Backend.WsManager.Numbers.{Unique, numbers_of, Apart}
use aot_drone.Json.{Fields}
use aot_drone.Common.{
  ◌∙◌, ◌∷◌, refl, subst, map, List, String, ℕ, ◌<◌, if_false, ◌==◌, arith, if_true, ap, [], ◌≡◌,
}

-- a run of sections, of any threads
pub data Sections {F : Type 0} (m : WsManager F) : WsManager F → Type 0 where
  done : Sections m m
  then_step : {m' m'' : WsManager F} → Sections m m' → m' ⟹ m'' → Sections m m''

same_number : (n : ℕ) → (n == n) ≡ true
same_number n = ground arith

module _ {F : Type 0} where
  -- the loop of `broadcast_envelope` over the clients that it saw
  abbrev pub push_each : List ℕ → Envelope F → WsManager F → WsManager F
  push_each [] e m = m
  push_each (i ∷ is) e m = push_each is e (push_to_client i e m)

  pub push_each-Sections :
      (is : List ℕ) (e : Envelope F) (m : WsManager F) {start : WsManager F}
      → e.seq < m.next_event_seq
      → Sections start m
      → Sections start (push_each is e m)
  unfolding push_to_client
  push_each-Sections [] e m below run = run
  push_each-Sections (i ∷ is) e m below run =
      push_each-Sections is e (push_to_client i e m) below (then_step run (pushes i e below))

  abbrev push_list : ℕ → List ℕ → Envelope F → List (ClientQueue F) → List (ClientQueue F)
  push_list q [] e cs = cs
  push_list q (i ∷ is) e cs = push_list q is e (push_at i q e cs)

  push_list-Apart :
      (q : ℕ) (is : List ℕ) (e : Envelope F) (c : ClientQueue F) (cs : List (ClientQueue F))
      → Apart c.client_id is
      → push_list q is e (c ∷ cs) ≡ c ∷ push_list q is e cs
  unfolding push_at
  push_list-Apart q [] e c cs a = refl
  push_list-Apart q (i ∷ is) e c cs (apart, a) =
      ap (push_list q is e) (if_false _ _ _ apart) ∙ push_list-Apart q is e c (push_at i q e cs) a

  push_list-map :
      (q : ℕ) (e : Envelope F) (cs : List (ClientQueue F))
      → Unique cs
      → push_list q (numbers_of cs) e cs ≡ map (push_to q e) cs
  unfolding push_at
  push_list-map q e [] u = refl
  push_list-map q e (c ∷ cs) (apart, u) =
      ap (push_list q (numbers_of cs) e) (if_true _ _ _ (same_number c.client_id))
      ∙ (push_list-Apart q (numbers_of cs) e (push_to q e c) cs apart
          ∙ ap (λ rest. push_to q e c ∷ rest) (push_list-map q e cs u))

  push_each-clients :
      (is : List ℕ) (e : Envelope F) (m : WsManager F)
      → push_each is e m ≡ record m { clients = push_list m.queue_max is e m.clients }
  unfolding push_to_client
  push_each-clients [] e m = refl
  push_each-clients (i ∷ is) e m = push_each-clients is e (push_to_client i e m)

  -- Pushing to each client that a broadcast saw is `broadcast_envelope`, if no two have one number.
  pub broadcast_envelope-push_each :
      (e : Envelope F) (m : WsManager F)
      → Unique m.clients
      → push_each (numbers_of m.clients) e m ≡ broadcast_envelope e m
  unfolding broadcast_envelope
  broadcast_envelope-push_each e m u =
      push_each-clients (numbers_of m.clients) e m
      ∙ ap (λ cs. record m { clients = cs }) (push_list-map m.queue_max e m.clients u)

  -- So a broadcast that nothing runs into is a run of the sections.
  pub broadcast-Sections :
      (event : String) (d : Fields F) (now_s : F) (m : WsManager F)
      → ManagerInv m
      → Sections m (broadcast event d now_s m).1
  unfolding broadcast build_envelope
  broadcast-Sections event d now_s m h =
      let (e, numbered) = build_envelope event d now_s m in
      subst (Sections m) (broadcast_envelope-push_each e numbered h.unique) (
        push_each-Sections (numbers_of m.clients) e numbered (omega arith)
          (then_step done (numbers event d now_s)))
