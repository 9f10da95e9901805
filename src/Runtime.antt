-- ===== src/Runtime.antt =====
-- What the Python runtime gives to the program: its floats, and the conversions between `int`,
-- `float` and text. A float has NaN, so `lt a b` and `le b a` may both be false; no module looks
-- inside one. The laws are those of IEEE 754 doubles.
pub mod Micros
use aot_drone.Common.{
  ℕ, String, ◌≡◌, Bool, true, false, Option, Result, ok, raise, overflow_error, if◌then◌else◌,
}
use aot_drone.Common.Int.{ℤ, pos, leb_ℤ}

pub record Runtime : Type 1 where
  pub Float : Type 0
  -- `decimal m k` is the literal m * 10^(-k)
  pub decimal : ℤ → ℕ → Float
  pub lt : Float → Float → Bool
  pub le : Float → Float → Bool
  pub add : Float → Float → Float
  pub sub : Float → Float → Float
  pub mul : Float → Float → Float
  -- the quotient; the code never divides by 0, where Python raises
  pub div : Float → Float → Float
  pub abs : Float → Float
  pub hypot : Float → Float → Float
  pub is_finite : Float → Bool
  -- `float(n)`: none is OverflowError
  pub of_int : ℤ → Option Float
  -- `int(x)`: raises on NaN and on the infinities
  pub trunc : Float → Result ℤ
  -- `int(s)`, `float(s)`: none is ValueError
  pub int_of_text : String → Option ℤ
  pub float_of_text : String → Option Float

-- the methods of `str` that go by the tables of Unicode
pub record StrMethods : Type 0 where
  pub lower : String → String
  pub strip : String → String

abbrev pub or_overflow {ℓ} : {A : Type ℓ} → Option A → Result A
or_overflow o = elim o [ Option.none ↦ raise overflow_error | Option.some x ↦ ok x ]

module _ (R : Runtime) where
  open R use {Float, decimal, lt, le, mul, abs}

  abbrev pub zero_f : Float
  zero_f = decimal (pos 0) 0

  abbrev pub one_f : Float
  one_f = decimal (pos 1) 0

  -- `max(a, b)` and `min(a, b)` keep the first unless the second is beyond it.
  unfoldable pub max_f : Float → Float → Float
  max_f a b = if lt a b then b else a

  unfoldable pub min_f : Float → Float → Float
  min_f a b = if lt b a then b else a

  pub record Laws : Type 0 where
    pub le_of_lt : (a b : Float) → lt a b ≡ true → le a b ≡ true
    pub lt_irrefl : (a : Float) → lt a a ≡ false
    pub lt_trans : (a b c : Float) → lt a b ≡ true → lt b c ≡ true → lt a c ≡ true
    pub le_trans : (a b c : Float) → le a b ≡ true → le b c ≡ true → le a c ≡ true
    -- what is compared is no NaN, and away from NaN the order is total
    pub refl_of_le : (a b : Float) → le a b ≡ true → (le a a ≡ true) × (le b b ≡ true)
    pub le_of_not_lt :
        (a b : Float) → le a a ≡ true → le b b ≡ true → lt a b ≡ false → le b a ≡ true
    -- rounding a literal keeps the order
    pub decimal_mono : (m n : ℤ) (k : ℕ) → leb_ℤ m n ≡ true → le (decimal m k) (decimal n k) ≡ true
    pub decimal_zero : (k : ℕ) → decimal (pos 0) k ≡ zero_f
    pub not_lt_of_le : (a b : Float) → le a b ≡ true → lt b a ≡ false
    pub abs_zero : abs zero_f ≡ zero_f
    pub zero_lt_one : lt zero_f one_f ≡ true
    -- a product with a factor in (0, 1] lies between 0 and the other factor
    pub mul_shrinks :
        (c d : Float)
        → le zero_f c ≡ true
        → lt zero_f d ≡ true
        → le d one_f ≡ true
        → (le zero_f (mul c d) ≡ true) × (le (mul c d) c ≡ true)
    -- twice a positive number is no smaller
    pub double_grows : (c : Float) → lt zero_f c ≡ true → le c (mul c (decimal (pos 2) 0)) ≡ true
    pub lt_of_lt_le : (a b c : Float) → lt a b ≡ true → le b c ≡ true → lt a c ≡ true
