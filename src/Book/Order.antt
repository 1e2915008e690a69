-- ===== src/Book/Order.antt =====
-- marketdata/orderbook.py: the order of the levels from the touch, on lists of levels.
use mathlib.Core.List.{reverse, reverse-cons}
use mathlib.Core.Option.{some-injective}
use mathlib.Core.Path.{subst}
use poly_maker.Prelude.{
  ◌≡◌, true, some, List, [], ◌∷◌, ◌++◌, arith, All, All-append, inl, inr, Bool-cases,
}
use poly_maker.Float.{Float, num, ◌<?◌, ◌=?◌}
use poly_maker.Float.Laws.{IsOrdered, eq_self, test_iff, lt_irrefl}
use poly_maker.SortedDict.{value_at, Above, IsAscending}

module _ {W : Type 0} ⦃f : Float W⦄ where
  abbrev pub IsDescending : List (W × W) → Type 0
  IsDescending [] = Unit
  IsDescending ((p, s) ∷ l) = All (λ (x : W × W). (x.0 <? p) ≡ true) l × IsDescending l

  -- Every level holds something.
  abbrev pub AllPositive : List (W × W) → Type 0
  AllPositive = All λ (x : W × W). (num 0 <? x.1) ≡ true

  pub All-reverse : (P : W × W → Type 0) (l : List (W × W)) → All P l → All P (reverse l)
  All-reverse P [] h = tt
  All-reverse P (x ∷ l) h =
      rw (reverse-cons x l) (All-append P (reverse l) (x ∷ []) (All-reverse P l h.1) (h.0, tt))

  IsDescending-append_one :
      (p s : W) (l : List (W × W))
      → All (λ (x : W × W). (p <? x.0) ≡ true) l
      → IsDescending l
      → IsDescending (l ++ (p, s) ∷ [])
  IsDescending-append_one p s [] a d = (tt, tt)
  IsDescending-append_one p s ((q, t) ∷ l) a d = (
    All-append (λ (x : W × W). (x.0 <? q) ≡ true) l ((p, s) ∷ []) d.0 (a.0, tt),
    IsDescending-append_one p s l a.1 d.1,
  )

  pub Above-All : (p : W) (l : List (W × W)) → Above p l → All (λ (x : W × W). (p <? x.0) ≡ true) l
  Above-All p [] a = tt
  Above-All p ((q, s) ∷ l) a = (a.0, Above-All p l a.1)

  pub reverse-IsDescending : (l : List (W × W)) → IsAscending l → IsDescending (reverse l)
  reverse-IsDescending [] a = tt
  reverse-IsDescending ((p, s) ∷ l) a = rw (reverse-cons (p, s) l) (
      IsDescending-append_one p s (reverse l)
        (All-reverse (λ (x : W × W). (p <? x.0) ≡ true) l (Above-All p l a.0))
        (reverse-IsDescending l a.1))

  pub reverse-AllPositive : (l : List (W × W)) → AllPositive l → AllPositive (reverse l)
  reverse-AllPositive = All-reverse λ (x : W × W). (num 0 <? x.1) ≡ true

  module _ (o : IsOrdered W) where
    value_at-Above :
        (p q s : W) (l : List (W × W)) → Above p l → value_at q l ≡ some s → (p <? q) ≡ true
    value_at-Above p q s [] a e = cc
    value_at-Above p q s ((r, t) ∷ l) a e =
        ground (arith, test_iff o r q, value_at-Above p q s l a.1)

    -- On ascending levels a property of every value found is one of every level.
    pub All-value_at :
        (P : W → Type 0) (l : List (W × W))
        → IsAscending l
        → ((q s : W) → value_at q l ≡ some s → P s)
        → All (λ (x : W × W). P x.1) l
    All-value_at P [] a h = tt
    All-value_at P ((p, s) ∷ l) a h = (
      h p s (rw (eq_self o p)),
      All-value_at P l a.1 λ q t e.
          h q t (ground (arith, value_at-Above p q t l a.0 e, test_iff o p q, lt_irrefl o q)),
    )

    pub value_at_of_All :
        (P : W → Type 0) (l : List (W × W)) (q s : W)
        → All (λ (x : W × W). P x.1) l
        → value_at q l ≡ some s
        → P s
    value_at_of_All P [] q s h e = cc
    value_at_of_All P ((p, t) ∷ l) q s h e = elim (Bool-cases (p =? q)) [
      | inl same ↦ subst P (some-injective _ _ (rw same at e)) h.0
      | inr other ↦ value_at_of_All P l q s h.1 (rw other at e)
    ]
