-- ===== src/Common/Texts.antt =====
-- Text as the code formats it and takes it apart.
use Prim.Native.Nat.{ℕ, zero, suc, ◌+◌, ◌/◌, ◌%◌}
use Prim.Native.String.{String, ◌++◌, len, count, slice, find}
use Prim.Native.Char.{code}
use text.Mathlib.TextBridge.{to_list}
use mathlib.Core.Bool.{Bool}
use mathlib.Core.List.{List, [], ◌∷◌, map}
use aot_drone.Common.Int.{ℤ, pos, negsuc}
use aot_drone.Common.Tests.{if◌then◌else◌, ltb, leb, ◌==◌}

-- the last decimal digit
unfoldable pub digit : ℕ → String
digit zero = "0"
digit (suc zero) = "1"
digit (suc (suc zero)) = "2"
digit (suc (suc (suc zero))) = "3"
digit (suc (suc (suc (suc zero)))) = "4"
digit (suc (suc (suc (suc (suc zero))))) = "5"
digit (suc (suc (suc (suc (suc (suc zero)))))) = "6"
digit (suc (suc (suc (suc (suc (suc (suc zero))))))) = "7"
digit (suc (suc (suc (suc (suc (suc (suc (suc zero)))))))) = "8"
digit _ = "9"

unfoldable pub digits_of : ℕ → ℕ → String
unfolding digit
digits_of zero n = ""
digits_of (suc fuel) n =
    let front = digits_of fuel (n / 10) in (if ltb n 10 then "" else front) ++ digit (n % 10)

-- `str(n)`: a number has at most n + 1 digits
unfoldable pub str_of : ℕ → String
unfolding digits_of
str_of n = digits_of (suc n) n

-- `str(n)` for an integer
unfoldable pub str_of_ℤ : ℤ → String
unfolding str_of
str_of_ℤ (pos n) = str_of n
str_of_ℤ (negsuc n) = "-" ++ str_of (suc n)

-- `t in s`
abbrev pub has_text : String → String → Bool
has_text s t = leb (find s t) (len s)

-- `s.partition(t)` without the middle: what is before the first `t`, and what is after it
unfoldable pub partition : String → String → String × String
partition s t =
    if has_text s t then (slice s 0 (find s t), slice s (find s t + len t) (len s)) else (s, "")

unfoldable pub split_from : ℕ → String → String → List String
unfolding partition
split_from zero s t = s ∷ []
split_from (suc fuel) s t =
    let (first, last) = partition s t in
    let rest = split_from fuel last t in if has_text s t then first ∷ rest else s ∷ []

-- `s.split(t)` for a text of one character: there are at most `len(s)` of them
unfoldable pub split : String → String → List String
unfolding split_from
split s t = split_from (len s) s t

-- `s.encode("ascii")` of a text that is ASCII
unfoldable pub encode_ascii : String → List ℕ
encode_ascii s = map code (to_list s)

-- the bytes of the UTF-8 are as many as the characters
abbrev pub is_ascii : String → Bool
is_ascii s = len s == count s
