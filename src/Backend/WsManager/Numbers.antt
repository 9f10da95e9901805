-- ===== src/Backend/WsManager/Numbers.antt =====
-- The numbers of the clients stay apart (src/backend/ws_manager.py).
use aot_drone.Backend.WsManager.{pop_from, Envelope, push_to, without, push_at, ClientQueue}
use aot_drone.Common.{
  subst, ◌∷◌, map, ℕ, All, false, ◌<◌, ◌==◌, Bool-cases, ap, List, refl, inr, ◌++◌, inl, arith, [],
  ◌≡◌,
}

abbrev pub Apart : ℕ → List ℕ → Type 0
Apart n is = All (λ i. (n == i) ≡ false) is

abbrev pub Distinct : List ℕ → Type 0
Distinct [] = Unit
Distinct (n ∷ ns) = Apart n ns × Distinct ns

module _ {F : Type 0} where
  abbrev pub numbers_of : List (ClientQueue F) → List ℕ
  numbers_of cs = map (λ c. c.client_id) cs

  -- no two clients have one number
  abbrev pub Unique : List (ClientQueue F) → Type 0
  Unique cs = Distinct (numbers_of cs)

  pub Unique-same :
      (cs ds : List (ClientQueue F)) → numbers_of cs ≡ numbers_of ds → Unique cs → Unique ds
  Unique-same cs ds e u = subst Distinct e u

  pub numbers_of-push_at :
      (client_id queue_max : ℕ) (e : Envelope F) (cs : List (ClientQueue F))
      → numbers_of cs ≡ numbers_of (push_at client_id queue_max e cs)
  unfolding push_at
  numbers_of-push_at client_id queue_max e [] = refl
  numbers_of-push_at client_id queue_max e (c ∷ cs) =
      let rest = numbers_of-push_at client_id queue_max e cs in
      elim (Bool-cases (c.client_id == client_id)) [
        | inl same ↦ rw same refl
        | inr apart ↦ rw apart (ap (λ is. c.client_id ∷ is) rest)
      ]

  pub numbers_of-map :
      (queue_max : ℕ) (e : Envelope F) (cs : List (ClientQueue F))
      → numbers_of cs ≡ numbers_of (map (push_to queue_max e) cs)
  numbers_of-map queue_max e [] = refl
  numbers_of-map queue_max e (c ∷ cs) = ap (λ is. c.client_id ∷ is) (numbers_of-map queue_max e cs)

  pub numbers_of-pop_from :
      (client_id : ℕ) (cs : List (ClientQueue F))
      → numbers_of cs ≡ numbers_of (pop_from client_id cs).1
  unfolding pop_from
  numbers_of-pop_from client_id [] = refl
  numbers_of-pop_from client_id (c ∷ cs) =
      let rest = numbers_of-pop_from client_id cs in
      elim (Bool-cases (c.client_id == client_id)) [
        | inl same ↦ rw same refl
        | inr apart ↦ rw apart (ap (λ is. c.client_id ∷ is) rest)
      ]

  without-Apart :
      (n client_id : ℕ) (cs : List (ClientQueue F))
      → Apart n (numbers_of cs)
      → Apart n (numbers_of (without client_id cs))
  unfolding without
  without-Apart n client_id [] a = tt
  without-Apart n client_id (c ∷ cs) (h, a) =
      let rest = without-Apart n client_id cs a in
      elim (Bool-cases (c.client_id == client_id)) [
        | inl same ↦ rw same a
        | inr apart ↦ rw apart (h, rest)
      ]

  pub without-Unique :
      (client_id : ℕ) (cs : List (ClientQueue F)) → Unique cs → Unique (without client_id cs)
  unfolding without
  without-Unique client_id [] u = tt
  without-Unique client_id (c ∷ cs) (a, u) =
      let rest = without-Unique client_id cs u in
      elim (Bool-cases (c.client_id == client_id)) [
        | inl same ↦ rw same u
        | inr apart ↦ rw apart (without-Apart c.client_id client_id cs a, rest)
      ]

  append-Apart :
      (n : ℕ) (c : ClientQueue F) (cs : List (ClientQueue F))
      → (n == c.client_id) ≡ false
      → Apart n (numbers_of cs)
      → Apart n (numbers_of (cs ++ (c ∷ [])))
  append-Apart n c [] h a = (h, tt)
  append-Apart n c (d ∷ cs) h (g, a) = (g, append-Apart n c cs h a)

  pub append-Unique :
      (c : ClientQueue F) (cs : List (ClientQueue F))
      → All (λ d. d.client_id < c.client_id) cs
      → Unique cs
      → Unique (cs ++ (c ∷ []))
  append-Unique c [] h u = (tt, tt)
  append-Unique c (d ∷ cs) (below, h) (a, u) =
      (append-Apart d.client_id c cs (ground (arith, below)) a, append-Unique c cs h u)
