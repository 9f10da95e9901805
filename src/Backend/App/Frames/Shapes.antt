-- ===== src/Backend/App/Frames/Shapes.antt =====
-- The shape of a JPEG frame, and the body of a request read in chunks (src/backend/app.py).
use mathlib.Core.List.{append-nil, append_assoc}
use aot_drone.Backend.App.Frames.{looks_like_jpeg, starts_image, read_body, ends_image}
use aot_drone.Common.{
  if_false, le→leb, leb, if_true, none, Option, sym, false, length-append, subst, ◌∙◌, ◌≡◌, ltb,
  ◌≤◌, List, some, inr, refl, true, arith, ℕ, ◌∷◌, ◌+◌, ap, inl, ◌↔◌, length, Bool-cases, ◌++◌, [],
}

-- a start of image, anything, and an end of image
abbrev pub IsJpeg : List ℕ → Type 0
IsJpeg bs = (middle : List ℕ) × (bs ≡ 255 ∷ 216 ∷ (middle ++ (255 ∷ 217 ∷ [])))

-- the chunks one after the other
abbrev pub concat : List (List ℕ) → List ℕ
concat [] = []
concat (chunk ∷ chunks) = chunk ++ concat chunks

ends_image_sound :
    (bs : List ℕ) → ends_image bs ≡ true → (front : List ℕ) × (bs ≡ front ++ (255 ∷ 217 ∷ []))
unfolding ends_image
ends_image_sound [] h = cc
ends_image_sound (a ∷ []) h = cc
ends_image_sound (a ∷ b ∷ []) h =
    let is_a : a ≡ 255 = ground (arith, h) in
    let is_b : b ≡ 217 = ground (arith, h) in ([], rw (is_a, is_b) refl)
ends_image_sound (a ∷ b ∷ c ∷ bs) h =
    let (front, split_at) = ends_image_sound (b ∷ c ∷ bs) h in (a ∷ front, ap (λ l. a ∷ l) split_at)

ends_image-cons : (a : ℕ) (bs : List ℕ) → 2 ≤ length bs → ends_image (a ∷ bs) ≡ ends_image bs
unfolding ends_image
ends_image-cons a [] long = ground (arith, long)
ends_image-cons a (b ∷ []) long = ground (arith, long)
ends_image-cons a (b ∷ c ∷ bs) long = refl

ends_image_complete : (front : List ℕ) → ends_image (front ++ (255 ∷ 217 ∷ [])) ≡ true
unfolding ends_image
ends_image_complete [] = refl
ends_image_complete (a ∷ front) =
    ends_image-cons a (front ++ (255 ∷ 217 ∷ []))
      (omega (arith, length-append front (255 ∷ 217 ∷ [])))
    ∙ ends_image_complete front

looks_like_jpeg_sound : (bs : List ℕ) → looks_like_jpeg bs ≡ true → IsJpeg bs
unfolding looks_like_jpeg starts_image
looks_like_jpeg_sound [] h = cc
looks_like_jpeg_sound (a ∷ []) h = cc
looks_like_jpeg_sound (a ∷ b ∷ []) h = cc
looks_like_jpeg_sound (a ∷ b ∷ c ∷ []) h = cc
looks_like_jpeg_sound (a ∷ b ∷ c ∷ d ∷ bs) h =
    let is_a : a ≡ 255 = ground (arith, h) in
    let is_b : b ≡ 216 = ground (arith, h) in
    let ends : ends_image (c ∷ d ∷ bs) ≡ true = ground (arith, h) in
    let (middle, split_at) = ends_image_sound (c ∷ d ∷ bs) ends in
    (middle, rw (is_a, is_b) (ap (λ l. 255 ∷ 216 ∷ l) split_at))

looks_like_jpeg_complete : (bs : List ℕ) → IsJpeg bs → looks_like_jpeg bs ≡ true
unfolding looks_like_jpeg starts_image
looks_like_jpeg_complete bs (middle, shape) =
    let eoi : List ℕ = 255 ∷ 217 ∷ [] in
    let ends = ends_image_complete (255 ∷ 216 ∷ middle) in
    let long : leb 4 (length (255 ∷ 216 ∷ (middle ++ eoi))) ≡ true =
      le→leb 4 (length (255 ∷ 216 ∷ (middle ++ eoi))) (omega (arith, length-append middle eoi)) in
    rw (shape, ends, long) refl

pub looks_like_jpeg-IsJpeg : (bs : List ℕ) → (looks_like_jpeg bs ≡ true) ↔ IsJpeg bs
looks_like_jpeg-IsJpeg bs = (looks_like_jpeg_sound bs, looks_like_jpeg_complete bs)

pub read_body-concat :
    (max_bytes : ℕ) (chunks : List (List ℕ)) (payload : List ℕ) {body : List ℕ}
    → read_body max_bytes chunks payload ≡ some body
    → length payload ≤ max_bytes
    → (body ≡ payload ++ concat chunks) × (length body ≤ max_bytes)
unfolding read_body
read_body-concat max_bytes [] payload h within =
    let same : payload ≡ _ = cc in (sym same ∙ sym (append-nil payload), rw (sym same) within)
read_body-concat max_bytes ([] ∷ chunks) payload h within =
    read_body-concat max_bytes chunks payload h within
read_body-concat max_bytes ((b ∷ bs) ∷ chunks) payload h within =
    elim (Bool-cases (ltb max_bytes (length payload + length (b ∷ bs)))) [
      | inl over ↦
          let gone : ◌≡◌ {A = Option (List ℕ)} none (some _) =
            sym (if_true (ltb max_bytes (length payload + length (b ∷ bs))) none _ over) ∙ h in
          ground (arith, gone)
      | inr fits ↦
          let (body_eq, bound) =
            read_body-concat max_bytes chunks (payload ++ (b ∷ bs))
              (sym (if_false (ltb max_bytes (length payload + length (b ∷ bs))) none _ fits) ∙ h)
              (ground (arith, length-append payload (b ∷ bs), fits)) in
          (body_eq ∙ append_assoc payload (b ∷ bs) (concat chunks), bound)
    ]

pub read_body_complete :
    (max_bytes : ℕ) (chunks : List (List ℕ)) (payload : List ℕ)
    → length (payload ++ concat chunks) ≤ max_bytes
    → read_body max_bytes chunks payload ≡ some (payload ++ concat chunks)
unfolding read_body
read_body_complete max_bytes [] payload within = ap some (sym (append-nil payload))
read_body_complete max_bytes ([] ∷ chunks) payload within =
    read_body_complete max_bytes chunks payload within
read_body_complete max_bytes ((b ∷ bs) ∷ chunks) payload within =
    let spread = append_assoc payload (b ∷ bs) (concat chunks) in
    let fits : ltb max_bytes (length payload + length (b ∷ bs)) ≡ false = ground (
      arith,
      length-append payload (b ∷ (bs ++ concat chunks)),
      length-append bs (concat chunks),
      within,
    ) in
    rw fits (
      read_body_complete max_bytes chunks (payload ++ (b ∷ bs))
        (subst (λ l. length l ≤ max_bytes) (sym spread) within)
      ∙ ap some spread)
