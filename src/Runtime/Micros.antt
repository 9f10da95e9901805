-- ===== src/Runtime/Micros.antt =====
-- A runtime with numbers in steps of a millionth and one NaN, on which the program can be run, and
-- the laws for it.
use aot_drone.Common.{
  ℕ, zero, suc, ◌+◌, ◌*◌, ◌/◌, ◌^◌, ◌≤◌, ◌≡◌, refl, Bool, true, false, ltb, leb, if◌then◌else◌,
  Option, none, some, Result, ok, raise, value_error, arith,
}
use aot_drone.Common.Int.{ℤ, pos, negsuc, pos_part, neg_part, sub_ℕ, ◌+ℤ◌, ◌-ℤ◌, ◌*ℤ◌, ltb_ℤ, leb_ℤ}
use aot_drone.Runtime.{Runtime, Laws}

-- `num n` is n millionths
pub data Num : Type 0 where
  nan : Num
  num : ℤ → Num

abbrev million : ℕ
million = 1000000

-- the millionths of 10^(-k)
unfoldable pub scale : ℕ → ℕ
scale zero = 1000000
scale (suc zero) = 100000
scale (suc (suc zero)) = 10000
scale (suc (suc (suc zero))) = 1000
scale (suc (suc (suc (suc zero)))) = 100
scale (suc (suc (suc (suc (suc zero))))) = 10
scale (suc (suc (suc (suc (suc (suc zero)))))) = 1
scale _ = 0

unfoldable pub decimal_num : ℤ → ℕ → Num
unfolding scale ◌*ℤ◌
decimal_num m k = num (m *ℤ pos (scale k))

unfoldable pub lt_num : Num → Num → Bool
lt_num (num a) (num b) = ltb_ℤ a b
lt_num _ _ = false

unfoldable pub le_num : Num → Num → Bool
le_num (num a) (num b) = leb_ℤ a b
le_num _ _ = false

-- an operation that keeps NaN
unfoldable pub both : (ℤ → ℤ → Num) → Num → Num → Num
both f (num a) (num b) = f a b
both f _ _ = nan

-- the quotient towards 0
unfoldable pub quot : ℤ → ℕ → ℤ
quot (pos n) d = pos (n / d)
quot (negsuc n) d = sub_ℕ 0 (suc n / d)

abbrev magnitude : ℤ → ℕ
magnitude a = pos_part a + neg_part a

unfoldable pub mul_num : Num → Num → Num
unfolding both quot ◌*ℤ◌
mul_num = both (λ a b. num (quot (a *ℤ b) million))

unfoldable pub div_ints : ℤ → ℤ → Num
unfolding quot ◌*ℤ◌
div_ints a (pos zero) = nan
div_ints a (pos (suc n)) = num (quot (a *ℤ pos million) (suc n))
div_ints a (negsuc n) = num (quot (a *ℤ sub_ℕ 0 million) (suc n))

unfoldable pub abs_num : Num → Num
abs_num nan = nan
abs_num (num a) = num (pos (magnitude a))

-- the root, bit by bit from 2^k down
unfoldable pub root_from : ℕ → ℕ → ℕ → ℕ
root_from zero n r = r
root_from (suc k) n r = let r' = r + 2 ^ k in root_from k n (if leb (r' * r') n then r' else r)

unfoldable pub hypot_ints : ℤ → ℤ → Num
unfolding root_from
hypot_ints a b = num (pos (root_from 48 (magnitude a * magnitude a + magnitude b * magnitude b) 0))

unfoldable pub is_num : Num → Bool
is_num nan = false
is_num (num a) = true

unfoldable pub num_of_int : ℤ → Option Num
unfolding ◌*ℤ◌
num_of_int n = if ltb (magnitude n) (2 ^ 1024) then some (num (n *ℤ pos million)) else none

unfoldable pub trunc_num : Num → Result ℤ
unfolding quot
trunc_num nan = raise value_error
trunc_num (num a) = ok (quot a million)

-- no text is read as a number
abbrev pub micros : Runtime
micros = record {
  Float = Num;
  decimal = decimal_num;
  lt = lt_num;
  le = le_num;
  add = both (λ a b. num (a +ℤ b));
  sub = both (λ a b. num (a -ℤ b));
  mul = mul_num;
  div = both div_ints;
  abs = abs_num;
  hypot = both hypot_ints;
  is_finite = is_num;
  of_int = num_of_int;
  trunc = trunc_num;
  int_of_text = λ s. none;
  float_of_text = λ s. none;
}

decimal_num_mono :
    (m n : ℤ) (k : ℕ) → leb_ℤ m n ≡ true → le_num (decimal_num m k) (decimal_num n k) ≡ true
unfolding decimal_num le_num scale ◌*ℤ◌
decimal_num_mono m n zero h = ground arith
decimal_num_mono m n (suc zero) h = ground arith
decimal_num_mono m n (suc (suc zero)) h = ground arith
decimal_num_mono m n (suc (suc (suc zero))) h = ground arith
decimal_num_mono m n (suc (suc (suc (suc zero)))) h = ground arith
decimal_num_mono m n (suc (suc (suc (suc (suc zero))))) h = ground arith
decimal_num_mono m n (suc (suc (suc (suc (suc (suc zero)))))) h = ground arith
decimal_num_mono m n (suc (suc (suc (suc (suc (suc (suc k))))))) h = ground arith

refl_of_le_num : (a b : Num) → le_num a b ≡ true → (le_num a a ≡ true) × (le_num b b ≡ true)
unfolding le_num
refl_of_le_num (num a) (num b) h = (ground arith, ground arith)
refl_of_le_num nan b h = ground arith
refl_of_le_num (num a) nan h = ground arith

mul_le : (a b : ℕ) → b ≤ 1000000 → a * b ≤ a * 1000000
mul_le zero b h = omega arith
mul_le (suc a) b h = let bound = mul_le a b h in omega (arith, bound)

quot_le : (a b : ℕ) → b ≤ 1000000 → a * b / 1000000 ≤ a
quot_le a b h = omega (arith, mul_le a b h)

pub mul_num_pos : (a b : ℕ) → mul_num (num (pos a)) (num (pos b)) ≡ num (pos (a * b / 1000000))
unfolding mul_num both quot ◌*ℤ◌
mul_num_pos a b = ground arith

mul_num_shrinks :
    (c d : Num)
    → le_num (num (pos 0)) c ≡ true
    → lt_num (num (pos 0)) d ≡ true
    → le_num d (num (pos 1000000)) ≡ true
    → (le_num (num (pos 0)) (mul_num c d) ≡ true) × (le_num (mul_num c d) c ≡ true)
unfolding le_num lt_num
mul_num_shrinks nan d h1 h2 h3 = ground arith
mul_num_shrinks (num (pos a)) nan h1 h2 h3 = ground arith
mul_num_shrinks (num (negsuc a)) d h1 h2 h3 = ground arith
mul_num_shrinks (num (pos a)) (num (negsuc b)) h1 h2 h3 = ground arith
mul_num_shrinks (num (pos a)) (num (pos b)) h1 h2 h3 =
    let bound : b ≤ 1000000 = ground arith in
    let shrunk = quot_le a b bound in
    (rw (mul_num_pos a b) (ground arith), rw (mul_num_pos a b) (ground arith))

le_of_lt_num : (a b : Num) → lt_num a b ≡ true → le_num a b ≡ true
unfolding lt_num le_num
le_of_lt_num a b h = ground arith

lt_num_irrefl : (a : Num) → lt_num a a ≡ false
unfolding lt_num
lt_num_irrefl a = ground arith

lt_num_trans : (a b c : Num) → lt_num a b ≡ true → lt_num b c ≡ true → lt_num a c ≡ true
unfolding lt_num
lt_num_trans a b c h1 h2 = ground arith

le_num_trans : (a b c : Num) → le_num a b ≡ true → le_num b c ≡ true → le_num a c ≡ true
unfolding le_num
le_num_trans a b c h1 h2 = ground arith

le_of_not_lt_num :
    (a b : Num) → le_num a a ≡ true → le_num b b ≡ true → lt_num a b ≡ false → le_num b a ≡ true
unfolding le_num lt_num
le_of_not_lt_num a b h1 h2 h3 = ground arith

not_lt_of_le_num : (a b : Num) → le_num a b ≡ true → lt_num b a ≡ false
unfolding le_num lt_num
not_lt_of_le_num a b h = ground arith

decimal_num_zero : (k : ℕ) → decimal_num (pos 0) k ≡ num (pos 0)
unfolding decimal_num ◌*ℤ◌
decimal_num_zero k = ground arith

lt_of_lt_le_num : (a b c : Num) → lt_num a b ≡ true → le_num b c ≡ true → lt_num a c ≡ true
unfolding lt_num le_num
lt_of_lt_le_num a b c h1 h2 = ground arith

double_num_grows :
    (c : Num) → lt_num (num (pos 0)) c ≡ true → le_num c (mul_num c (num (pos 2000000))) ≡ true
unfolding le_num lt_num
double_num_grows nan h = ground arith
double_num_grows (num (negsuc a)) h = ground arith
double_num_grows (num (pos a)) h = rw (mul_num_pos a 2000000) (ground arith)

pub micros-Laws : Laws micros
unfolding decimal_num scale ◌*ℤ◌ abs_num lt_num
micros-Laws = record {
  le_of_lt = le_of_lt_num;
  lt_irrefl = lt_num_irrefl;
  lt_trans = lt_num_trans;
  le_trans = le_num_trans;
  refl_of_le = refl_of_le_num;
  le_of_not_lt = le_of_not_lt_num;
  decimal_mono = decimal_num_mono;
  decimal_zero = decimal_num_zero;
  not_lt_of_le = not_lt_of_le_num;
  abs_zero = refl;
  zero_lt_one = refl;
  mul_shrinks = mul_num_shrinks;
  double_grows = double_num_grows;
  lt_of_lt_le = lt_of_lt_le_num;
}
