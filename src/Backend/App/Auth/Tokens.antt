-- ===== src/Backend/App/Auth/Tokens.antt =====
-- Who may open a socket or call a guarded route (src/backend/app.py).
use aot_drone.Common.Texts.{is_ascii}
use aot_drone.Backend.App.Auth.{
  select_ws_subprotocol, compare_digest, match_offered, ws_bearer_prefix,
}
use aot_drone.Common.{
  type_error, none, Result, str_eq, Bool-cases, ◌∙◌, refl, eq_iff, ap, inl, raise, false, sym,
  subst, inr, Bool, ◌⊎◌, ◌≡◌, ok, Option, true, List, String, ◌∷◌, some, [],
}
use Prim.Native.String.{◌++◌ as join, len, slice}
use text.Mathlib.Text.{starts_with}
use text.Mathlib.TextEquality.{starts_with_iff}
use text.Mathlib.TextPositions.{slice-append_right, len-append, starts_with-append}

-- one of the texts
abbrev pub IsOneOf : String → List String → Type 0
IsOneOf s [] = ⊥
IsOneOf s (t ∷ ts) = (t ≡ s) ⊎ IsOneOf s ts

-- the protocol that carries a token
abbrev pub bearer : String → String
bearer token = join ws_bearer_prefix token

slice-bearer :
    (token : String) → slice (bearer token) (len ws_bearer_prefix) (len (bearer token)) ≡ token
slice-bearer token =
    rw (len-append ws_bearer_prefix token) (slice-append_right ws_bearer_prefix token)

carries :
    (proto : String)
    → starts_with proto ws_bearer_prefix ≡ true
    → proto ≡ bearer (slice proto (len ws_bearer_prefix) (len proto))
carries proto starts =
    let (rest, split_at) = (starts_with_iff proto ws_bearer_prefix).0 starts in
    subst (λ p. p ≡ bearer (slice p (len ws_bearer_prefix) (len p))) split_at
      (ap bearer (sym (slice-bearer rest)))

-- both are ASCII
pub compare_digest-ascii :
    (a b : String) → is_ascii a ≡ true → is_ascii b ≡ true → compare_digest a b ≡ ok (str_eq a b)
unfolding compare_digest
compare_digest-ascii a b a_ascii b_ascii = rw (a_ascii, b_ascii) refl

compare_digest-raises : (a b : String) → is_ascii a ≡ false → compare_digest a b ≡ raise type_error
unfolding compare_digest
compare_digest-raises a b odd = rw odd refl

-- whether the texts are the same
pub compare_digest-other :
    (a b : String)
    → is_ascii b ≡ true
    → (compare_digest a b ≡ ok true × (a ≡ b))
      ⊎ (((compare_digest a b ≡ ok false) ⊎ (compare_digest a b ≡ raise type_error)) × (a ≡ b → ⊥))
compare_digest-other a b b_ascii = elim (Bool-cases (is_ascii a)) [
  | inr odd ↦ inr (
    inr (compare_digest-raises a b odd),
    λ same. let clash = sym odd ∙ ap is_ascii same ∙ b_ascii in cc,
  )
  | inl plain ↦ elim (Bool-cases (str_eq a b)) [
    | inl same ↦ inl (compare_digest-ascii a b plain b_ascii ∙ ap ok same, (eq_iff a b).0 same)
    | inr differs ↦ inr (
      inl (compare_digest-ascii a b plain b_ascii ∙ ap ok differs),
      λ same. let clash = sym differs ∙ (eq_iff a b).1 same in cc,
    )
  ]
]

-- the texts that `compare_digest` takes
abbrev pub AllAscii : List String → Type 0
AllAscii [] = Unit
AllAscii (p ∷ offered) =
    (is_ascii (slice p (len ws_bearer_prefix) (len p)) ≡ true) × AllAscii offered

starts-bearer : (token : String) → starts_with (bearer token) ws_bearer_prefix ≡ true
starts-bearer token = starts_with-append ws_bearer_prefix token

-- one of the protocols carries the token, or none does, or a text cannot be compared
abbrev pub IsSelection : String → List String → Result (Bool × Option String) → Type 0
IsSelection expected offered selected =
    (IsOneOf (bearer expected) offered × (selected ≡ ok (true, some (bearer expected))))
    ⊎ ((IsOneOf (bearer expected) offered → ⊥) × (selected ≡ ok (false, none)))
    ⊎ ((AllAscii offered → ⊥) × (selected ≡ raise type_error))

-- a protocol that is passed over
skip-IsSelection :
    (expected p : String) (offered : List String) (selected : Result (Bool × Option String))
    → (p ≡ bearer expected → ⊥)
    → IsSelection expected offered selected
    → IsSelection expected (p ∷ offered) selected
skip-IsSelection expected p offered selected apart (inl (found, same)) = inl (inr found, same)
skip-IsSelection expected p offered selected apart (inr (inl (absent, same))) =
    inr
      (inl ((λ one. elim one [ inl at_head ↦ apart at_head | inr further ↦ absent further ]), same))
skip-IsSelection expected p offered selected apart (inr (inr (odd, same))) =
    inr (inr ((λ plain. odd plain.1), same))

match_offered-IsSelection :
    (expected : String) (offered : List String)
    → is_ascii expected ≡ true
    → IsSelection expected offered (match_offered expected offered)
unfolding match_offered
match_offered-IsSelection expected [] ascii = inr (inl ((λ one. elim one [ ]), refl))
match_offered-IsSelection expected (p ∷ offered) ascii =
    let rest = match_offered-IsSelection expected offered ascii in
    let presented = slice p (len ws_bearer_prefix) (len p) in
    elim (Bool-cases (starts_with p ws_bearer_prefix)) [
      | inr bare ↦ rw bare (
          skip-IsSelection expected p offered (match_offered expected offered)
            (λ same.
              let clash =
                sym bare ∙ ap (λ q. starts_with q ws_bearer_prefix) same ∙ starts-bearer expected in
              cc)
            rest)
      | inl starts ↦ elim (compare_digest-other presented expected ascii) [
        | inl (compared, same) ↦
            let is_bearer : p ≡ bearer expected = carries p starts ∙ ap bearer same in
            rw (starts, compared) (inl (inl is_bearer, ap (λ q. ok (true, some q)) is_bearer))
        | inr (inl compared, differs) ↦
            rw (starts, compared)
              (skip-IsSelection expected p offered (match_offered expected offered)
                (λ same.
                  differs
                    (ap (λ q. slice q (len ws_bearer_prefix) (len q)) same ∙ slice-bearer expected))
                rest)
        | inr (inr compared, differs) ↦
            rw (starts, compared)
              (inr (
                inr (
                  (λ plain.
                      let clash =
                        sym compared ∙ compare_digest-ascii presented expected plain.0 ascii in
                      cc),
                  refl,
                )))
      ]
    ]

-- With an ASCII token expected, `select_ws_subprotocol` accepts a socket, with the protocol that
-- carries the token, only if that one is offered, and refuses it only if it is not offered; in
-- the remaining case it raises TypeError, and then some offered text is not ASCII after the
-- length of the prefix.
pub select_ws_subprotocol-IsSelection :
    (expected : String) (offered : List String)
    → is_ascii expected ≡ true
    → IsSelection expected offered (select_ws_subprotocol (some expected) offered)
unfolding select_ws_subprotocol
select_ws_subprotocol-IsSelection expected offered ascii =
    match_offered-IsSelection expected offered ascii
