-- ===== src/Backend/CmdSchema/Framing.antt =====
-- Reading a command frame back (src/backend/cmd_schema.py): four bytes of length, then the payload.
use aot_drone.Common.{
  ok-injective, ap, ◌∙◌, ℕ, zero, suc, ◌+◌, ◌*◌, ◌/◌, ◌%◌, ◌^◌, ◌≤◌, ◌<◌, ◌≡◌, refl, leb, ◌&&◌,
  Option, none, some, List, [], ◌∷◌, ◌++◌, length, ok, value_error, guard, >>=-eq-ok, arith,
}
use aot_drone.Backend.CmdSchema.{pack_u32, frame_cmd_payload}

cons_first : ℕ → Option (List ℕ × List ℕ) → Option (List ℕ × List ℕ)
cons_first x none = none
cons_first x (some (a, b)) = some (x ∷ a, b)

-- the first n items and what follows them, if there are as many
split_at : ℕ → List ℕ → Option (List ℕ × List ℕ)
unfolding cons_first
split_at zero l = some ([], l)
split_at (suc n) [] = none
split_at (suc n) (x ∷ l) = cons_first x (split_at n l)

-- what a receiver does by section 5 of docs/message-spec.md
pub unframe : List ℕ → Option (List ℕ × List ℕ)
unframe (a ∷ b ∷ c ∷ d ∷ l) = split_at (a * 2 ^ 24 + b * 2 ^ 16 + c * 2 ^ 8 + d) l
unframe _ = none

split_at-length : (raw rest : List ℕ) → split_at (length raw) (raw ++ rest) ≡ some (raw, rest)
unfolding split_at
split_at-length [] rest = refl
split_at-length (x ∷ raw) rest = rw (split_at-length raw rest)

-- the four bytes, most significant first
abbrev big_endian : ℕ → List ℕ
big_endian n = n / 2 ^ 24 % 256 ∷ n / 2 ^ 16 % 256 ∷ n / 2 ^ 8 % 256 ∷ n % 256 ∷ []

pack_u32-eq-ok :
    (n : ℕ) {header : List ℕ} → pack_u32 n ≡ ok header → (n < 2 ^ 32) × (big_endian n ≡ header)
unfolding pack_u32
pack_u32-eq-ok n h = ground arith

unframe-big_endian : (n : ℕ) (l : List ℕ) → n < 2 ^ 32 → unframe (big_endian n ++ l) ≡ split_at n l
unfolding unframe
unframe-big_endian n l small = ap (λ k. split_at k l) (omega arith)

-- If `frame_cmd_payload` returns a frame, then a receiver that reads four bytes of length, most
-- significant first, gets the payload back and leaves what follows the frame, and the frame is at
-- most four bytes longer than the limit.
pub unframe-frame_cmd_payload :
    (raw : List ℕ) (max_payload_bytes : ℕ) (rest : List ℕ) {frame : List ℕ}
    → frame_cmd_payload raw max_payload_bytes ≡ ok frame
    → (unframe (frame ++ rest) ≡ some (raw, rest)) × (length frame ≤ max_payload_bytes + 4)
unfolding frame_cmd_payload
unframe-frame_cmd_payload raw max_payload_bytes rest h =
    let (_, bounded, h1) =
      >>=-eq-ok (guard (leb 1 (length raw) && leb (length raw) max_payload_bytes) value_error) _
        h in
    let (header, packed, h2) = >>=-eq-ok (pack_u32 (length raw)) _ h1 in
    let (small, same) = pack_u32-eq-ok (length raw) packed in
    let framed : big_endian (length raw) ++ raw ≡ _ = ap (λ l. l ++ raw) same ∙ ok-injective h2 in
    (
      rw (← framed)
          (unframe-big_endian (length raw) (raw ++ rest) small ∙ split_at-length raw rest),
      rw (← framed) (ground arith),
    )
