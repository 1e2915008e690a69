-- ===== src/Float/Laws.antt =====
-- What the theorems assume of floating-point arithmetic. IEEE doubles without NaN meet each law as
-- long as no result overflows: comparisons are exact, and rounding is monotone.
use poly_maker.Prelude.{◌≡◌, ◌↔◌, ◌⊎◌, true, false, not, arith}
use poly_maker.Float.{Float, num, ◌⊕◌, ◌⊖◌, ◌⊗◌, ◌≤?◌, ◌<?◌, ◌=?◌, fmin, fmax, ◌≼◌}

pub record IsOrdered (W : Type 0) ⦃f : Float W⦄ : Type 0 where
  pub le_refl : (x : W) → x ≼ x
  pub le_trans : (x y z : W) → x ≼ y → y ≼ z → x ≼ z
  pub le_total : (x y : W) → (x ≼ y) ⊎ (y ≼ x)
  pub le_antisymm : (x y : W) → x ≼ y → y ≼ x → x ≡ y
  pub lt-eq-not-le : (x y : W) → (x <? y) ≡ not (y ≤? x)

-- Each operation is monotone in each argument, where the other one has the right sign.
pub record IsMonotone (W : Type 0) ⦃f : Float W⦄ : Type 0 where
  pub add_mono : (a b c d : W) → a ≼ b → c ≼ d → a ⊕ c ≼ b ⊕ d
  pub sub_mono : (a b c d : W) → a ≼ b → d ≼ c → a ⊖ c ≼ b ⊖ d
  pub mul_mono : (a b c : W) → num 0 ≼ c → a ≼ b → a ⊗ c ≼ b ⊗ c
  pub add-zero : (a : W) → a ⊕ num 0 ≡ a
  pub zero-add : (a : W) → num 0 ⊕ a ≡ a
  pub sub-zero : (a : W) → a ⊖ num 0 ≡ a
  pub sub-self : (a : W) → a ⊖ a ≡ num 0
  pub zero-mul : (a : W) → num 0 ⊗ a ≡ num 0
  pub neg_nonpos : (a : W) → num 0 ≼ a → f.neg a ≼ num 0

module _ {W : Type 0} ⦃f : Float W⦄ (o : IsOrdered W) where
  open o use {le_refl, le_trans, le_total, le_antisymm, lt-eq-not-le}

  pub le_of_lt : (x y : W) → (x <? y) ≡ true → x ≼ y
  le_of_lt x y h = ground (arith, le_total x y, lt-eq-not-le x y)

  pub le_of_not_lt : (x y : W) → (x <? y) ≡ false → y ≼ x
  le_of_not_lt x y h = ground (arith, lt-eq-not-le x y)

  pub lt_of_not_le : (x y : W) → (x ≤? y) ≡ false → (y <? x) ≡ true
  lt_of_not_le x y h = ground (arith, lt-eq-not-le y x)

  pub not_lt_of_le : (x y : W) → x ≼ y → (y <? x) ≡ false
  not_lt_of_le x y h = ground (arith, lt-eq-not-le y x)

  pub not_le_of_lt : (x y : W) → (x <? y) ≡ true → (y ≤? x) ≡ false
  not_le_of_lt x y h = ground (arith, lt-eq-not-le x y)

  pub lt_irrefl : (x : W) → (x <? x) ≡ false
  lt_irrefl x = not_lt_of_le x x (le_refl x)

  pub lt_of_le_of_lt : (x y z : W) → x ≼ y → (y <? z) ≡ true → (x <? z) ≡ true
  lt_of_le_of_lt x y z h k = ground (arith, lt-eq-not-le y z, lt-eq-not-le x z, le_trans z x y)

  pub lt_of_lt_of_le : (x y z : W) → (x <? y) ≡ true → y ≼ z → (x <? z) ≡ true
  lt_of_lt_of_le x y z h k = ground (arith, lt-eq-not-le x y, lt-eq-not-le x z, le_trans y z x)

  pub eq_of_test : (x y : W) → (x =? y) ≡ true → x ≡ y
  eq_of_test x y h = le_antisymm x y (ground arith) (ground arith)

  pub test_iff : (x y : W) → ((x =? y) ≡ true) ↔ (x ≡ y)
  test_iff x y = (eq_of_test x y, λ e. rw e (ground (arith, le_refl y)))

  pub eq_self : (x : W) → (x =? x) ≡ true
  eq_self x = ground (arith, le_refl x)

  pub fmin-le_left : (x y : W) → fmin x y ≼ x
  fmin-le_left x y = ground (arith, le_refl x, le_of_lt y x)

  pub fmin-le_right : (x y : W) → fmin x y ≼ y
  fmin-le_right x y = ground (arith, le_refl y, le_of_not_lt y x)

  pub le-fmin : (x y z : W) → z ≼ x → z ≼ y → z ≼ fmin x y
  le-fmin x y z h k = ground arith

  pub le-fmax_left : (x y : W) → x ≼ fmax x y
  le-fmax_left x y = ground (arith, le_refl x, le_of_lt x y)

  pub le-fmax_right : (x y : W) → y ≼ fmax x y
  le-fmax_right x y = ground (arith, le_refl y, le_of_not_lt x y)

  pub fmax-le : (x y z : W) → x ≼ z → y ≼ z → fmax x y ≼ z
  fmax-le x y z h k = ground arith
