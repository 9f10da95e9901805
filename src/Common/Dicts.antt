-- ===== src/Common/Dicts.antt =====
-- A dict with text keys as the list of its entries, in the order of their insertion.
use mathlib.Core.Path.{◌≡◌, refl}
use mathlib.Core.Logic.{inl, inr}
use mathlib.Core.Bool.{false}
use mathlib.Core.Option.{Option, none, some}
use mathlib.Core.List.{List, [], ◌∷◌}
use Prim.Native.String.{String}
use text.Mathlib.Text.{◌==◌ as str_eq}
use text.Mathlib.TextEquality.{eq_iff}
use text.Mathlib.TextPositions.{eq_refl}
use aot_drone.Common.Tests.{if◌then◌else◌, Bool-cases}

module _ {ℓ} {A : Type ℓ} where
  -- `d.get(k)`
  unfoldable pub find : String → List (String × A) → Option A
  find k [] = none
  find k ((j, a) ∷ rest) = if str_eq j k then some a else find k rest

  -- `d[k] = a`
  unfoldable pub assign : String → A → List (String × A) → List (String × A)
  assign k a [] = (k, a) ∷ []
  assign k a ((j, b) ∷ rest) =
      let rest' = assign k a rest in if str_eq j k then (j, a) ∷ rest else (j, b) ∷ rest'

  pub find-assign_same :
      (k : String) (a : A) (d : List (String × A)) → find k (assign k a d) ≡ some a
  unfolding find assign
  find-assign_same k a [] = rw (eq_refl k) refl
  find-assign_same k a ((j, b) ∷ rest) =
      let found = find-assign_same k a rest in
      elim (Bool-cases (str_eq j k)) [
        | inl same ↦ rw (same, same) refl
        | inr other ↦ rw (other, other) found
      ]

  pub find-assign_other :
      (k l : String) (a : A) (d : List (String × A))
      → str_eq k l ≡ false
      → find l (assign k a d) ≡ find l d
  unfolding find assign
  find-assign_other k l a [] apart = rw apart refl
  find-assign_other k l a ((j, b) ∷ rest) apart =
      let kept = find-assign_other k l a rest apart in
      elim (Bool-cases (str_eq j k)) [
        | inl same ↦
            let at_k : j ≡ k = (eq_iff j k).0 same in
            let apart' : str_eq j l ≡ false = rw at_k apart in rw (same, apart') refl
        | inr other ↦ elim (Bool-cases (str_eq j l)) [
          | inl here ↦ rw (other, here) refl
          | inr there ↦ rw (other, there) kept
        ]
      ]
