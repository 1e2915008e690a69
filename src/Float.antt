-- ===== src/Float.antt =====
-- Python's `float`, as the operations that polymaker calls on one. The type is a parameter of every
-- definition: any carrier with these operations is a model of the code.
pub mod Laws
pub mod Fixed
use poly_maker.Prelude.{ℕ, ◌≡◌, ◌⊎◌, Bool, true, false, not, ◌&&◌, List, [], ◌∷◌, if◌then◌else◌}
use poly_maker.Prelude.Int.{ℤ, pos}

-- `of_dec m k` is the literal m / 10 ^ k; `of_int` converts an `int`; `format_f` gives the code points
-- of `f"{x:f}"`. Doubles are identified up to
-- `==`, and the carrier leaves NaN out. Where Python raises `ZeroDivisionError`, `div` has some value.
pub record Float (W : Type 0) : Type 0 where
  pub of_dec : ℕ → ℕ → W
  pub of_int : ℤ → W
  pub add : W → W → W
  pub sub : W → W → W
  pub mul : W → W → W
  pub div : W → W → W
  pub neg : W → W
  pub le : W → W → Bool
  pub lt : W → W → Bool
  pub floor : W → ℤ
  pub ceil : W → ℤ
  pub round : W → ℕ → W
  pub sqrt : W → W
  pub pow : W → W → W
  pub format_f : W → List ℕ

module _ {W : Type 0} ⦃f : Float W⦄ where
  infixl 65 ◌⊕◌ ◌⊖◌
  infixl 70 ◌⊗◌ ◌⊘◌
  infix 50 ◌≤?◌ ◌<?◌ ◌=?◌
  abbrev pub ◌⊕◌ : W → W → W
  ◌⊕◌ = f.add

  abbrev pub ◌⊖◌ : W → W → W
  ◌⊖◌ = f.sub

  abbrev pub ◌⊗◌ : W → W → W
  ◌⊗◌ = f.mul

  abbrev pub ◌⊘◌ : W → W → W
  ◌⊘◌ = f.div

  -- `x <= y`; `x >= y` is `y ≤? x`.
  abbrev pub ◌≤?◌ : W → W → Bool
  ◌≤?◌ = f.le

  -- `x < y`; `x > y` is `y <? x`.
  abbrev pub ◌<?◌ : W → W → Bool
  ◌<?◌ = f.lt

  -- `x == y`
  abbrev pub ◌=?◌ : W → W → Bool
  x =? y = f.le x y && f.le y x

  abbrev pub dec : ℕ → ℕ → W
  dec = f.of_dec

  abbrev pub num : ℕ → W
  num n = f.of_dec n 0

  -- Python's `min(x, y)` and `max(x, y)` return the first unless the second is strictly beyond it.
  abbrev pub fmin : W → W → W
  fmin x y = if y <? x then y else x

  abbrev pub fmax : W → W → W
  fmax x y = if x <? y then y else x

  abbrev pub fabs : W → W
  fabs x = if x <? num 0 then f.neg x else x

  -- `sum(xs)` from an accumulator, from the left
  abbrev pub fsum : W → List W → W
  fsum acc [] = acc
  fsum acc (x ∷ xs) = fsum (acc ⊕ x) xs

  infix 4 ◌≼◌
  abbrev pub ◌≼◌ : W → W → Type 0
  x ≼ y = f.le x y ≡ true
