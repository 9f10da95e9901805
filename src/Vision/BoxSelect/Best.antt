-- ===== src/Vision/BoxSelect/Best.antt =====
-- `pick_best_box` (src/vision/box_select.py) returns a detection with a least score.
use mathlib.Core.List.{Memᴰ}
use aot_drone.Common.{
  ◌≡◌, refl, true, false, Bool-cases, inl, inr, ◌⊎◌, Option, none, some, List, [], ◌∷◌, Result, ok,
  All, >>=-eq-ok, arith,
}
use aot_drone.Common.Int.{ℤ}
use aot_drone.Runtime.{Runtime, Laws}
use aot_drone.Vision.Types.{Detection}
use aot_drone.Vision.BoxSelect.{score_box, min_by_score, pick_best_box}

skip_second : {A : Type 0} {d a b : A} {l : List A} → Memᴰ d (a ∷ l) → Memᴰ d (a ∷ b ∷ l)
skip_second (Memᴰ.head e) = Memᴰ.head e
skip_second (Memᴰ.tail m) = Memᴰ.tail (Memᴰ.tail m)

module _ (R : Runtime) (img_w img_h : ℤ) (desired_cx desired_cy : R.Float) where
  abbrev pub score : Detection R.Float → Result R.Float
  score d = score_box R img_w img_h desired_cx desired_cy d.bbox

  -- `d` is scored, and its score is not below `key`
  abbrev pub NotBelow : R.Float → Detection R.Float → Type 0
  NotBelow key d = (k : R.Float) × (score d ≡ ok k) × (R.lt k key ≡ false)

  -- what the loop keeps of the best detection so far, whose score is `key`
  pub record IsBest (key : R.Float) (d : Detection R.Float) (items : List (Detection R.Float))
      : Type 0 where
    pub own : R.Float
    pub scored : score d ≡ ok own
    pub below : (own ≡ key) ⊎ (R.lt own key ≡ true)
    pub least : All (NotBelow own) items

  abbrev pub IsChoice : List (Detection R.Float) → Option (Detection R.Float) → Type 0
  IsChoice items none = items ≡ []
  IsChoice items (some d) =
      Memᴰ d items × ((own : R.Float) × (score d ≡ ok own) × All (NotBelow own) items)

  module _ (laws : Laws R) where
    open laws use {lt_irrefl, lt_trans}

    keep_step :
        (own k key : R.Float)
        → R.lt k key ≡ false
        → (own ≡ key) ⊎ (R.lt own key ≡ true)
        → R.lt k own ≡ false
    keep_step own k key far below = ground (arith, lt_trans k own key)

    first_not_below :
        (own key : R.Float) → (own ≡ key) ⊎ (R.lt own key ≡ true) → R.lt key own ≡ false
    first_not_below own key below = ground (arith, lt_trans own key own, lt_irrefl own)

    take_step :
        (own k key : R.Float)
        → R.lt k key ≡ true
        → (own ≡ k) ⊎ (R.lt own k ≡ true)
        → ((own ≡ key) ⊎ (R.lt own key ≡ true)) × (R.lt k own ≡ false)
    take_step own k key near below =
        (ground (arith, lt_trans own k key), ground (arith, lt_trans k own k, lt_irrefl k))

    -- one more item, with a score below the best so far
    near_case :
        {best item d : Detection R.Float} {key : R.Float} {items : List (Detection R.Float)}
        (k : R.Float)
        → score item ≡ ok k
        → R.lt k key ≡ true
        → IsBest k d items × Memᴰ d (item ∷ items)
        → IsBest key d (item ∷ items) × Memᴰ d (best ∷ item ∷ items)
    near_case {key = key} k scored near (b, m) =
        let (below, least) = take_step b.own k key near b.below in
        (
          record {
            own = b.own;
            scored = b.scored;
            below = below;
            least = ((k, scored, least), b.least);
          },
          Memᴰ.tail m,
        )

    -- one more item, with a score not below it
    far_case :
        {best item d : Detection R.Float} {key : R.Float} {items : List (Detection R.Float)}
        (k : R.Float)
        → score item ≡ ok k
        → R.lt k key ≡ false
        → IsBest key d items × Memᴰ d (best ∷ items)
        → IsBest key d (item ∷ items) × Memᴰ d (best ∷ item ∷ items)
    far_case {key = key} k scored far (b, m) = (
      record {
        own = b.own;
        scored = b.scored;
        below = b.below;
        least = ((k, scored, keep_step b.own k key far b.below), b.least);
      },
      skip_second m,
    )

    min_by_score-IsBest :
        (best : Detection R.Float) (key : R.Float) (items : List (Detection R.Float))
        (d : Detection R.Float)
        → score best ≡ ok key
        → min_by_score R img_w img_h desired_cx desired_cy best key items ≡ ok d
        → IsBest key d items × Memᴰ d (best ∷ items)
    unfolding min_by_score
    min_by_score-IsBest best key [] d s e =
        (record { own = key; scored = cc; below = inl refl; least = tt }, Memᴰ.head (cc))
    min_by_score-IsBest best key (item ∷ items) d s e =
        let (k, scored, rest) = >>=-eq-ok (score item) _ e in
        elim (Bool-cases (R.lt k key)) [
          | inl near ↦
              near_case k scored near (min_by_score-IsBest item k items d scored (rw near at rest))
          | inr far ↦
              far_case k scored far (min_by_score-IsBest best key items d s (rw far at rest))
        ]

    -- When the laws of floats hold and `pick_best_box` returns: without a detection there were
    -- none, and a detection is one of the given ones and has a score that no other score is
    -- below.
    pub pick_best_box_lem :
        (items : List (Detection R.Float)) (best : Option (Detection R.Float))
        → pick_best_box R img_w img_h desired_cx desired_cy items ≡ ok best
        → IsChoice items best
    unfolding pick_best_box
    pick_best_box_lem [] none e = refl
    pick_best_box_lem [] (some d) e = cc
    pick_best_box_lem (item ∷ items) none e =
        let (key, scored, rest) = >>=-eq-ok (score item) _ e in
        let (d, found, absent) =
          >>=-eq-ok (min_by_score R img_w img_h desired_cx desired_cy item key items) _ rest in
        cc
    pick_best_box_lem (item ∷ items) (some d) e =
        let (key, scored, rest) = >>=-eq-ok (score item) _ e in
        let (d', found, same) =
          >>=-eq-ok (min_by_score R img_w img_h desired_cx desired_cy item key items) _ rest in
        let e' : d' ≡ d = cc in
        let (b, m) = min_by_score-IsBest item key items d scored (rw e' at found) in
        (m, (b.own, b.scored, ((key, scored, first_not_below b.own key b.below), b.least)))
