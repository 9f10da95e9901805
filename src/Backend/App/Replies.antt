-- ===== src/Backend/App/Replies.antt =====
-- How a chain of guards of a route ends (src/backend/app.py).
use aot_drone.Common.{◌≡◌, ℕ, refl, true, false, Bool}
use aot_drone.Backend.App.{◌>>=◌, Reply, refuses, fails, replies, refuse_if}

-- a value that satisfies the one, or a status that satisfies the other, and no unhandled error
abbrev pub Ends : {A : Type 0} → (A → Type 0) → (ℕ → Type 0) → Reply A → Type 0
Ends P S (replies a) = P a
Ends P S (refuses status) = S status
Ends P S (fails e) = ⊥

pub Ends-refuse_if :
    (S : ℕ → Type 0) (cond : Bool) (status : ℕ)
    → S status
    → Ends (λ done. cond ≡ false) S (refuse_if cond status)
Ends-refuse_if S true status s = s
Ends-refuse_if S false status s = refl

pub Ends-bind :
    {X A : Type 0} (Q : X → Type 0) (P : A → Type 0) (S : ℕ → Type 0) (m : Reply X)
    (next : X → Reply A)
    → Ends Q S m
    → ((x : X) → Q x → Ends P S (next x))
    → Ends P S (m >>= next)
Ends-bind Q P S (replies x) next q ends = ends x q
Ends-bind Q P S (refuses status) next s ends = s
Ends-bind Q P S (fails e) next q ends = elim q [ ]

pub Ends-map :
    {A : Type 0} (P Q : A → Type 0) (S : ℕ → Type 0) (m : Reply A)
    → ((a : A) → P a → Q a)
    → Ends P S m
    → Ends Q S m
Ends-map P Q S (replies a) q p = q a p
Ends-map P Q S (refuses status) q s = s
Ends-map P Q S (fails e) q p = elim p [ ]
