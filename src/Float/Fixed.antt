-- ===== src/Float/Fixed.antt =====
-- A model of the float interface that evaluates: fixed-point numbers with nine decimals. It shows
-- that the laws can hold together, and the examples and tests run on it.
use Prim.Native.Nat.{min}
use poly_maker.Prelude.{
  List, [], ◌∷◌, ◌++◌, ltb, ◌%◌, ℕ, zero, suc, ◌+◌, ◌-◌, ◌*◌, ◌/◌, ◌^◌, ◌≤◌, ◌≡◌, Bool, true, false,
  not, arith, if◌then◌else◌,
}
use poly_maker.Prelude.Int.{ℤ, pos, negsuc, pos_part, neg_part, sub_ℕ, ltb_ℤ, leb_ℤ}
use poly_maker.Float.{Float, num, ◌≼◌}
use poly_maker.Float.Laws.{IsOrdered, IsMonotone}

-- A count of units of 10 ^ -9.
abbrev pub Fixed : Type 0
Fixed = ℤ

abbrev scale : ℕ
scale = 1_000_000_000

-- The integer of the sign given and the absolute value `n`.
abbrev signed : Bool → ℕ → ℤ
signed negative n = if negative then sub_ℕ 0 n else pos n

abbrev is_negative : ℤ → Bool
is_negative (pos n) = false
is_negative (negsuc n) = true

abbrev differ : Bool → Bool → Bool
differ a b = if a then not b else b

abbrev abs_ℕ : ℤ → ℕ
abs_ℕ a = pos_part a + neg_part a

abbrev fixed_add : Fixed → Fixed → Fixed
fixed_add a b = sub_ℕ (pos_part a + pos_part b) (neg_part a + neg_part b)

abbrev fixed_sub : Fixed → Fixed → Fixed
fixed_sub a b = sub_ℕ (pos_part a + neg_part b) (neg_part a + pos_part b)

-- Products and quotients are truncated towards zero.
abbrev fixed_mul : Fixed → Fixed → Fixed
fixed_mul (pos m) (pos n) = pos (m * n / scale)
fixed_mul (pos m) (negsuc n) = sub_ℕ 0 (m * suc n / scale)
fixed_mul (negsuc m) (pos n) = sub_ℕ 0 (suc m * n / scale)
fixed_mul (negsuc m) (negsuc n) = pos (suc m * suc n / scale)

abbrev fixed_div : Fixed → Fixed → Fixed
fixed_div a b = signed (differ (is_negative a) (is_negative b)) (abs_ℕ a * scale / abs_ℕ b)

abbrev fixed_floor : Fixed → ℤ
fixed_floor (pos n) = pos (n / scale)
fixed_floor (negsuc n) = negsuc (n / scale)

abbrev fixed_ceil : Fixed → ℤ
fixed_ceil (pos n) = pos ((n + scale - 1) / scale)
fixed_ceil (negsuc n) = sub_ℕ 0 (suc n / scale)

-- To the nearest multiple of 10 ^ -k, halves away from zero.
abbrev fixed_round : Fixed → ℕ → Fixed
fixed_round a k = let q = 10 ^ (9 - min k 9) in signed (is_negative a) ((abs_ℕ a + q / 2) / q * q)

abbrev newton : ℕ → ℕ → ℕ → ℕ
newton zero n x = x
newton (suc k) n x = newton k n ((x + n / x) / 2)

abbrev fixed_sqrt : Fixed → Fixed
fixed_sqrt (pos n) = pos (newton 60 (n * scale) (n + scale))
fixed_sqrt (negsuc n) = pos 0

abbrev power : ℕ → Fixed → Fixed
power zero a = pos scale
power (suc n) a = fixed_mul a (power n a)

-- Whole exponents only.
abbrev fixed_pow : Fixed → Fixed → Fixed
fixed_pow a b = power (pos_part b / scale) a

abbrev digits_of : ℕ → ℕ → List ℕ
digits_of zero n = []
digits_of (suc k) n = digits_of k (n / 10) ++ (b'0' + n % 10) ∷ []

abbrev decimal_of : ℕ → ℕ → List ℕ
decimal_of zero n = []
decimal_of (suc k) n =
    let rest = decimal_of k (n / 10) in (if ltb n 10 then [] else rest) ++ (b'0' + n % 10) ∷ []

-- Six decimals; the model has no use for the sign.
abbrev fixed_format : Fixed → List ℕ
fixed_format a =
    let micros = (abs_ℕ a + 500) / 1000 in
    decimal_of 20 (micros / 1_000_000) ++ b'.' ∷ digits_of 6 (micros % 1_000_000)

instance abbrev pub fixed_float : Float Fixed
fixed_float = record {
  of_dec = λ m k. pos (m * scale / 10 ^ k);
  of_int = λ n. fixed_mul n (pos (scale * scale));
  add = fixed_add;
  sub = fixed_sub;
  mul = fixed_mul;
  div = fixed_div;
  neg = λ a. fixed_sub (pos 0) a;
  le = leb_ℤ;
  lt = ltb_ℤ;
  floor = fixed_floor;
  ceil = fixed_ceil;
  round = fixed_round;
  sqrt = fixed_sqrt;
  pow = fixed_pow;
  format_f = fixed_format;
}

pub Fixed-IsOrdered : IsOrdered Fixed
Fixed-IsOrdered = record {
  le_refl = λ x. ground arith;
  le_trans = λ x y z h k. ground arith;
  le_total = λ x y. ground arith;
  le_antisymm = λ x y h k. ground arith;
  lt-eq-not-le = λ x y. ground arith;
}

div_mono : (m n k : ℕ) → m ≤ n → m * k / scale ≤ n * k / scale
div_mono m n k h = let p : m * k ≤ n * k = grind arith in omega arith

fixed_mul_mono : (a b c : Fixed) → num 0 ≼ c → a ≼ b → fixed_mul a c ≼ fixed_mul b c
fixed_mul_mono (pos a) (pos b) (pos c) p h = ground (arith, div_mono a b c)
fixed_mul_mono (pos a) (negsuc b) (pos c) p h = ground arith
fixed_mul_mono (negsuc a) (pos b) (pos c) p h = ground arith
fixed_mul_mono (negsuc a) (negsuc b) (pos c) p h = ground (arith, div_mono (suc b) (suc a) c)
fixed_mul_mono a b (negsuc c) p h = ground arith

pub Fixed-IsMonotone : IsMonotone Fixed
Fixed-IsMonotone = record {
  add_mono = λ a b c d h k. ground arith;
  sub_mono = λ a b c d h k. ground arith;
  mul_mono = fixed_mul_mono;
  add-zero = λ a. ground arith;
  zero-add = λ a. ground arith;
  sub-zero = λ a. ground arith;
  sub-self = λ a. ground arith;
  zero-mul = λ a. ground arith;
  neg_nonpos = λ a h. ground arith;
}

whole_units : (n : ℕ) → n * (scale * scale) / scale ≡ n * scale
whole_units n = omega arith

-- A whole number is read back from its number.
pub floor-of_int : (z : ℤ) → fixed_floor (fixed_float.of_int z) ≡ z
floor-of_int (pos n) = rw (whole_units n) (ground arith)
floor-of_int (negsuc n) = rw (whole_units (suc n)) (ground arith)
