-- ===== src/Common/Spacing.antt =====
-- Times that are apart from one another, the last one first.
use mathlib.Core.Path.{◌≡◌}
use mathlib.Core.Bool.{Bool, true}
use mathlib.Core.Option.{Option, none, some}
use mathlib.Core.List.{List, [], ◌∷◌}

module _ {F : Type 0} where
  abbrev pub latest : List F → Option F
  latest [] = none
  latest (t ∷ ts) = some t

  abbrev pub IsAfter : (F → F → Bool) → F → Option F → Type 0
  IsAfter apart t none = Unit
  IsAfter apart t (some u) = apart t u ≡ true

  -- each time is apart from the one before it
  abbrev pub Spaced : (F → F → Bool) → List F → Type 0
  Spaced apart [] = Unit
  Spaced apart (t ∷ ts) = IsAfter apart t (latest ts) × Spaced apart ts
