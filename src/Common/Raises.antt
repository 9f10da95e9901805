-- ===== src/Common/Raises.antt =====
-- Which errors a call may raise: one rule for each way to build a call.
use mathlib.Core.Path.{◌≡◌, refl, subst}
use mathlib.Core.Bool.{Bool, true, false}
use aot_drone.Common.Tests.{if◌then◌else◌}
use aot_drone.Common.Results.{Error, Result, ok, raise, guard, ◌>>=◌}

-- every error that `m` raises satisfies `P`
pub record OnlyRaises {ℓ} {A : Type ℓ} (P : Error → Type 0) (m : Result A) : Type ℓ where
  pub at : (e : Error) → m ≡ raise e → P e

module _ {P : Error → Type 0} where
  pub OnlyRaises-ok {ℓ} : {A : Type ℓ} (a : A) → OnlyRaises P (ok a)
  OnlyRaises-ok a = record { at = λ e p. cc }

  pub OnlyRaises-raise {ℓ} : {A : Type ℓ} (e : Error) → P e → OnlyRaises {A = A} P (raise e)
  OnlyRaises-raise e h = record { at = λ e' p. subst P (cc) h }

  pub OnlyRaises-guard : (b : Bool) (e : Error) → P e → OnlyRaises P (guard b e)
  OnlyRaises-guard true e h = record { at = λ e' p. cc }
  OnlyRaises-guard false e h = OnlyRaises-raise e h

  pub OnlyRaises-if {ℓ} :
      {A : Type ℓ} (b : Bool) (m n : Result A)
      → OnlyRaises P m
      → OnlyRaises P n
      → OnlyRaises P (if b then m else n)
  OnlyRaises-if true m n h k = h
  OnlyRaises-if false m n h k = k

  pub OnlyRaises-bind {ℓ κ} :
      {A : Type ℓ} {B : Type κ} (m : Result A) (f : A → Result B)
      → OnlyRaises P m
      → ((a : A) → OnlyRaises P (f a))
      → OnlyRaises P (m >>= f)
  OnlyRaises-bind (ok a) f h k = k a
  OnlyRaises-bind (raise e) f h k = OnlyRaises-raise e (h.at e refl)

pub ruleset raise_rules =
    (OnlyRaises-ok, OnlyRaises-raise, OnlyRaises-guard, OnlyRaises-if, OnlyRaises-bind)
