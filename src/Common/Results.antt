-- ===== src/Common/Results.antt =====
-- What a call that may raise gives back. `validation` is the error of the two schema modules with
-- its `reason`; the wording of an error is not modelled.
use Prim.Native.String.{String}
use mathlib.Core.Path.{◌≡◌, refl, subst}
use mathlib.Core.Logic.{◌⊎◌, inl, inr}
use aot_drone.Common.Tests.{if◌then◌else◌}
use mathlib.Core.Bool.{Bool, true, false}

pub data Error : Type 0 where
  value_error type_error overflow_error key_error struct_error runtime_error decode_error : Error
  validation : String → Error

pub data Result {ℓ} (A : Type ℓ) : Type ℓ where
  ok : A → Result A
  raise : Error → Result A

-- `if not cond: raise e`
abbrev pub guard : Bool → Error → Result (Unit {0})
guard false e = raise e
guard true e = ok tt

infixl 5 ◌>>=◌ ◌>>◌
abbrev pub ◌>>=◌ {ℓ κ} : {X : Type ℓ} {Y : Type κ} → Result X → (X → Result Y) → Result Y
raise e >>= next = raise e
ok x >>= next = next x

abbrev pub ◌>>◌ {κ} : {Y : Type κ} → Result (Unit {0}) → Result Y → Result Y
first >> second = first >>= λ _. second

-- A block that returned has had each of its calls return.
pub >>=-eq-ok {ℓ κ} :
    {X : Type ℓ} {Y : Type κ} (call : Result X) (next : X → Result Y) {y : Y}
    → call >>= next ≡ ok y
    → (x : X) × (call ≡ ok x) × (next x ≡ ok y)
>>=-eq-ok (raise e) next returned = cc
>>=-eq-ok (ok x) next returned = (x, refl, returned)

pub guard-eq-ok : (b : Bool) (e : Error) → guard b e ≡ ok tt → b ≡ true
guard-eq-ok true e h = refl
guard-eq-ok false e h = cc

pub ok_pair {ℓ} :
    {A B : Type ℓ} {a c : A} {b d : B}
    → ◌≡◌ {A = Result (A × B)} (ok (a, b)) (ok (c, d))
    → (a ≡ c) × (b ≡ d)
ok_pair h = (cc, cc)

pub ok-injective {ℓ} : {A : Type ℓ} {a b : A} → ◌≡◌ {A = Result A} (ok a) (ok b) → a ≡ b
ok-injective h = cc

pub Result-cases {ℓ} :
    {A : Type ℓ} (m : Result A) → ((a : A) × (m ≡ ok a)) ⊎ ((e : Error) × (m ≡ raise e))
Result-cases (ok a) = inl (a, refl)
Result-cases (raise e) = inr (e, refl)

-- the call comes back with a value
abbrev pub Returns {ℓ} : {A : Type ℓ} → Result A → Type ℓ
Returns {A} call = (a : A) × (call ≡ ok a)

pub Returns-bind {ℓ κ} :
    {X : Type ℓ} {Y : Type κ} (call : Result X) (next : X → Result Y)
    → Returns call
    → ((x : X) → Returns (next x))
    → Returns (call >>= next)
Returns-bind (ok x) next r rest = rest x
Returns-bind (raise e) next (x, h) rest = cc

pub Returns-guard : (cond : Bool) (e : Error) → cond ≡ true → Returns (guard cond e)
Returns-guard true e h = (tt, refl)
Returns-guard false e h = cc

pub Returns-if {ℓ} :
    {X : Type ℓ} (cond : Bool) (call other : Result X)
    → Returns call
    → Returns other
    → Returns (if cond then call else other)
Returns-if true call other r s = r
Returns-if false call other r s = s

-- what the call gives back, when it does, satisfies P
abbrev pub Yields {ℓ κ} : {A : Type ℓ} → (A → Type κ) → Result A → Type κ
Yields P (ok a) = P a
Yields P (raise e) = Unit

pub Yields-bind {ℓ κ μ} :
    {X : Type ℓ} {Y : Type κ} (P : Y → Type μ) (call : Result X) (next : X → Result Y)
    → ((x : X) → call ≡ ok x → Yields P (next x))
    → Yields P (call >>= next)
Yields-bind P (ok x) next rest = rest x refl
Yields-bind P (raise e) next rest = tt

pub Yields-ok {ℓ κ} :
    {A : Type ℓ} (P : A → Type κ) (call : Result A) {a : A} → Yields P call → call ≡ ok a → P a
Yields-ok P call y returned = subst (Yields P) returned y
