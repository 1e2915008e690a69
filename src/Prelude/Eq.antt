-- ===== src/Prelude/Eq.antt =====
-- Equality tests on the types that the program compares: texts and numbers.
use Prim.Native.Nat.{ℕ, compare, Ordering}
use Prim.Native.String.{String}
use mathlib.Core.Path.{◌≡◌}
use mathlib.Core.Logic.{◌↔◌}
use mathlib.Core.Bool.{Bool, true, false}
use native.Mathlib.Omega.{arith}
use text.Mathlib.Text.{◌==◌ as text_eq}
use text.Mathlib.TextEquality.{eq_iff as text_eq_iff}

-- A test that decides equality
pub record Eq {ℓ} (T : Type ℓ) : Type ℓ where
  pub same : T → T → Bool
  pub same_iff : (x y : T) → (same x y ≡ true) ↔ (x ≡ y)

infix 50 ◌==◌
abbrev pub ◌==◌ {ℓ} : {T : Type ℓ} ⦃test : Eq T⦄ → T → T → Bool
◌==◌ ⦃test⦄ x y = test.same x y

-- A test against the same key passes.
pub same_self {ℓ} : {T : Type ℓ} ⦃test : Eq T⦄ (x : T) → (x == x) ≡ true
same_self ⦃test⦄ x = (test.same_iff x x).1 (λ i. x)

instance abbrev pub string_eq : Eq String
string_eq = record { same = text_eq; same_iff = text_eq_iff }

abbrev nat_same : ℕ → ℕ → Bool
nat_same m n = elim (compare m n) [ Ordering.eq ↦ true | _ ↦ false ]

pub nat_same_iff : (m n : ℕ) → (nat_same m n ≡ true) ↔ (m ≡ n)
nat_same_iff m n = ground arith

instance abbrev pub nat_eq : Eq ℕ
nat_eq = record { same = nat_same; same_iff = nat_same_iff }
