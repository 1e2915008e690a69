-- ===== src/SortedDict/Assoc.antt =====
-- A list of assignments, sorted when it is read, is a sorted dictionary.
use mathlib.Core.Path.{subst}
use poly_maker.Prelude.{
  ◌≡◌, refl, true, none, some, List, [], ◌∷◌, arith, if◌then◌else◌, inl, inr, Bool-cases,
}
use poly_maker.Float.{Float, ◌<?◌, ◌=?◌}
use poly_maker.Float.Laws.{
  IsOrdered, eq_of_test, test_iff, lt_of_not_le, le_of_lt, le_of_not_lt, lt_of_lt_of_le,
}
use poly_maker.SortedDict.{SortedDict, IsSortedDict, value_at, Above, IsAscending}

module _ {W : Type 0} ⦃f : Float W⦄ where
  abbrev pub put_sorted : W → W → List (W × W) → List (W × W)
  put_sorted p s [] = (p, s) ∷ []
  put_sorted p s ((q, t) ∷ l) =
      let rest = put_sorted p s l in
      if p <? q then (p, s) ∷ (q, t) ∷ l else if q =? p then (p, s) ∷ l else (q, t) ∷ rest

  abbrev pub pop_sorted : W → List (W × W) → List (W × W)
  pop_sorted p [] = []
  pop_sorted p ((q, t) ∷ l) = let rest = pop_sorted p l in if q =? p then rest else (q, t) ∷ rest

  -- The entries put one after the other, the first of the list last.
  abbrev pub sorted : List (W × W) → List (W × W)
  sorted [] = []
  sorted ((p, s) ∷ l) = put_sorted p s (sorted l)

  -- The dictionary is the list of its assignments, and its items are sorted when they are read.
  instance abbrev pub assoc_dict : SortedDict W (List (W × W))
  assoc_dict = record { empty = []; put = λ p s b. (p, s) ∷ b; pop = pop_sorted; items = sorted }

  module _ (o : IsOrdered W) where
    put_sorted-Above :
        (x p s : W) (l : List (W × W)) → (x <? p) ≡ true → Above x l → Above x (put_sorted p s l)
    put_sorted-Above x p s [] h a = (h, tt)
    put_sorted-Above x p s ((q, t) ∷ l) h a = ground (arith, put_sorted-Above x p s l h a.1)

    Above-trans : (x y : W) (l : List (W × W)) → (x <? y) ≡ true → Above y l → Above x l
    Above-trans x y [] h a = tt
    Above-trans x y ((q, t) ∷ l) h a =
        (lt_of_lt_of_le o x y q h (le_of_lt o y q a.0), Above-trans x y l h a.1)

    put_sorted-IsAscending :
        (p s : W) (l : List (W × W)) → IsAscending l → IsAscending (put_sorted p s l)
    put_sorted-IsAscending p s [] a = (tt, tt)
    put_sorted-IsAscending p s ((q, t) ∷ l) a = elim (Bool-cases (p <? q)) [
      | inl below ↦ rw below ((below, Above-trans p q l below a.0), a)
      | inr h ↦ elim (Bool-cases (q =? p)) [
        | inl same ↦ rw (h, same) (subst (λ (z : W). Above z l) (eq_of_test o q p same) a.0, a.1)
        | inr other ↦
            rw (h, other)
              (
                put_sorted-Above q p s l (ground (arith, le_of_not_lt o p q, lt_of_not_le o p q))
                    a.0,
                put_sorted-IsAscending p s l a.1,
              )
      ]
    ]

    sorted-IsAscending : (l : List (W × W)) → IsAscending (sorted l)
    sorted-IsAscending [] = tt
    sorted-IsAscending ((p, s) ∷ l) = put_sorted-IsAscending p s (sorted l) (sorted-IsAscending l)

    value_at-put_sorted :
        (p s q : W) (l : List (W × W))
        → value_at q (put_sorted p s l) ≡ (if p =? q then some s else value_at q l)
    value_at-put_sorted p s q [] = refl
    value_at-put_sorted p s q ((r, t) ∷ l) =
        ground (arith, test_iff o p q, test_iff o r p, test_iff o r q, value_at-put_sorted p s q l)

    value_at-pop_sorted :
        (p q : W) (l : List (W × W))
        → value_at q (sorted (pop_sorted p l)) ≡ (if p =? q then none else value_at q (sorted l))
    value_at-pop_sorted p q [] = ground arith
    value_at-pop_sorted p q ((r, t) ∷ l) = ground (
      arith,
      test_iff o p q,
      test_iff o r p,
      test_iff o r q,
      value_at-put_sorted r t q (sorted l),
      value_at-put_sorted r t q (sorted (pop_sorted p l)),
      value_at-pop_sorted p q l,
    )

    pub Assoc-IsSortedDict : IsSortedDict W (List (W × W))
    Assoc-IsSortedDict = record {
      items-empty = refl;
      items-IsAscending = sorted-IsAscending;
      value_at-put = λ p s q b. value_at-put_sorted p s q (sorted b);
      value_at-pop = value_at-pop_sorted;
    }
