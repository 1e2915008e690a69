-- ===== src/Merger/Hex.antt =====
-- merge.py: the 32 bytes of a condition id stand for the number that it writes.
use poly_maker.Prelude.{
  ℕ, zero, suc, ◌+◌, ◌-◌, ◌*◌, ◌≤◌, ◌<◌, ◌≡◌, refl, ap, ◌∙◌, some, List, [], ◌∷◌, ◌++◌, arith, All,
  length, length-append,
}
use poly_maker.Prelude.Eq.{nat_eq}
use poly_maker.Merger.{strip_0x, zeros, hex_digit, from_hex, to_bytes32}

-- The number that digits or bytes stand for, the first one being the highest
abbrev pub number_of : ℕ → ℕ → List ℕ → ℕ
number_of base acc [] = acc
number_of base acc (d ∷ ds) = number_of base (acc * base + d) ds

-- The values of a list of hexadecimal digits
pub data Digits : List ℕ → List ℕ → Type 0 where
  nil : Digits [] []
  cons : {c v : ℕ} {s vs : List ℕ} → hex_digit c ≡ some v → Digits s vs → Digits (c ∷ s) (v ∷ vs)

hex_digit-lt : (c v : ℕ) → hex_digit c ≡ some v → v < 16
hex_digit-lt c v h = ground arith

-- An even number of digits is read in pairs.
from_hex-Digits :
    {s vs : List ℕ} (acc k : ℕ)
    → Digits s vs
    → length s ≡ k + k
    → (bytes : List ℕ) × (from_hex s ≡ some bytes)
      × (length bytes ≡ k)
      × All (λ b. b < 256) bytes
      × (number_of 256 acc bytes ≡ number_of 16 acc vs)
unfolding from_hex
from_hex-Digits acc zero nil e = ([], refl, refl, tt, refl)
from_hex-Digits acc (suc k) nil e = absurd (omega arith)
from_hex-Digits acc k (cons h nil) e = absurd (omega arith)
from_hex-Digits acc zero (cons h (cons h' d)) e = absurd (omega arith)
from_hex-Digits acc (suc k) (cons {c = a} {v = x} h (cons {c = b} {v = y} {vs = us} h' d)) e =
    let (rest, read, size, small, same) =
      from_hex-Digits (acc * 256 + (x * 16 + y)) k d (omega arith) in
    let shift : acc * 256 + (x * 16 + y) ≡ (acc * 16 + x) * 16 + y = omega arith in
    (
      (x * 16 + y) ∷ rest,
      rw (h, h', read) refl,
      ap suc size,
      (omega (arith, hex_digit-lt a x h, hex_digit-lt b y h'), small),
      same ∙ ap (λ n. number_of 16 n us) shift,
    )

Digits-zeros :
    (n : ℕ) {s vs : List ℕ}
    → Digits s vs
    → (ws : List ℕ) × Digits (zeros n ++ s) ws × (number_of 16 0 ws ≡ number_of 16 0 vs)
Digits-zeros zero {vs = vs} d = (vs, d, refl)
Digits-zeros (suc n) d =
    let (ws, padded, same) = Digits-zeros n d in (0 ∷ ws, cons refl padded, same)

length-zeros : (n : ℕ) → length (zeros n) ≡ n
length-zeros zero = refl
length-zeros (suc n) = ap suc (length-zeros n)

-- A condition id of at most 64 hexadecimal digits, with or without `0x` before them and in either
-- case, becomes exactly 32 bytes that stand for the same number.
pub to_bytes32_lem :
    (s vs : List ℕ)
    → Digits (strip_0x s) vs
    → length (strip_0x s) ≤ 64
    → (bytes : List ℕ) × (to_bytes32 s ≡ some bytes)
      × (length bytes ≡ 32)
      × All (λ b. b < 256) bytes
      × (number_of 256 0 bytes ≡ number_of 16 0 vs)
unfolding to_bytes32
to_bytes32_lem s vs d h =
    let n = 64 - length (strip_0x s) in
    let (ws, padded, same) = Digits-zeros n d in
    let (bytes, read, size, small, value) =
      from_hex-Digits 0 32 padded
        (omega (arith, length-append (zeros n) (strip_0x s), length-zeros n)) in
    (bytes, read, size, small, value ∙ same)
