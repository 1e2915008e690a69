-- ===== src/Catalog/Store/Top.antt =====
-- catalog/store.py: the rows that `top` selects.
use poly_maker.Prelude.{
  ℕ, zero, suc, ◌≤◌, ◌≡◌, ◌⊎◌, refl, ap, Bool, true, false, List, [], ◌∷◌, arith, All, All-map, Any,
  inl, inr, Bool-cases, length, take, keep_if,
}
use poly_maker.Float.{Float, ◌≤?◌, ◌≼◌}
use poly_maker.Float.Laws.{IsOrdered}
use poly_maker.Dict.{values}
use poly_maker.Catalog.Store.{CatalogRow, CatalogStore, cutoff_of, insert_ranked, ranked, top_rows}

module _ {W : Type 0} ⦃f : Float W⦄ where
  -- Falling scores
  abbrev pub IsRanked : List (CatalogRow W) → Type 0
  IsRanked [] = Unit
  IsRanked (r ∷ rows) = All (λ (x : CatalogRow W). x.score ≼ r.score) rows × IsRanked rows

  All-insert_ranked :
      (P : CatalogRow W → Type 0) (r : CatalogRow W) (rows : List (CatalogRow W))
      → P r
      → All P rows
      → All P (insert_ranked r rows)
  All-insert_ranked P r [] h a = (h, tt)
  All-insert_ranked P r (x ∷ xs) h a = elim (Bool-cases (x.score ≤? r.score)) [
    | inl before ↦ rw before (h, a)
    | inr behind ↦ rw behind (a.0, All-insert_ranked P r xs h a.1)
  ]

  All-of_insert_ranked :
      (P : CatalogRow W → Type 0) (r : CatalogRow W) (rows : List (CatalogRow W))
      → All P (insert_ranked r rows)
      → P r × All P rows
  All-of_insert_ranked P r [] a = a
  All-of_insert_ranked P r (x ∷ xs) a = elim (Bool-cases (x.score ≤? r.score)) [
    | inl before ↦ let b = rw before at a in (b.0, b.1)
    | inr behind ↦
        let b = rw behind at a in
        let rest = All-of_insert_ranked P r xs b.1 in (rest.0, (b.0, rest.1))
  ]

  All-ranked :
      (P : CatalogRow W → Type 0) (rows : List (CatalogRow W)) → All P rows → All P (ranked rows)
  unfolding ranked
  All-ranked P [] a = tt
  All-ranked P (r ∷ rows) a = All-insert_ranked P r (ranked rows) a.0 (All-ranked P rows a.1)

  All-of_ranked :
      (P : CatalogRow W → Type 0) (rows : List (CatalogRow W)) → All P (ranked rows) → All P rows
  unfolding ranked
  All-of_ranked P [] a = tt
  All-of_ranked P (r ∷ rows) a =
      let b = All-of_insert_ranked P r (ranked rows) a in (b.0, All-of_ranked P rows b.1)

  All-take :
      (P : CatalogRow W → Type 0) (n : ℕ) (rows : List (CatalogRow W))
      → All P rows
      → All P (take n rows)
  All-take P zero rows a = tt
  All-take P (suc n) [] a = tt
  All-take P (suc n) (r ∷ rows) a = (a.0, All-take P n rows a.1)

  length-take-le : (n : ℕ) (rows : List (CatalogRow W)) → length (take n rows) ≤ n
  length-take-le zero rows = omega arith
  length-take-le (suc n) [] = omega arith
  length-take-le (suc n) (r ∷ rows) = omega (arith, length-take-le n rows)

  All-keep_if :
      (P : CatalogRow W → Type 0) (p : CatalogRow W → Bool) (rows : List (CatalogRow W))
      → All P rows
      → All (λ (r : CatalogRow W). P r × (p r ≡ true)) (keep_if p rows)
  All-keep_if P p [] a = tt
  All-keep_if P p (r ∷ rows) a = elim (Bool-cases (p r)) [
    | inl kept ↦ rw kept ((a.0, kept), All-keep_if P p rows a.1)
    | inr gone ↦ rw gone (All-keep_if P p rows a.1)
  ]

  All-of_keep_if :
      (P : CatalogRow W → Type 0) (p : CatalogRow W → Bool) (rows : List (CatalogRow W))
      → All P (keep_if p rows)
      → All (λ (r : CatalogRow W). (p r ≡ false) ⊎ P r) rows
  All-of_keep_if P p [] a = tt
  All-of_keep_if P p (r ∷ rows) a = elim (Bool-cases (p r)) [
    | inl kept ↦ let b = rw kept at a in (inr b.0, All-of_keep_if P p rows b.1)
    | inr gone ↦ (inl gone, All-of_keep_if P p rows (rw gone at a))
  ]

  IsRanked-take : (n : ℕ) (rows : List (CatalogRow W)) → IsRanked rows → IsRanked (take n rows)
  IsRanked-take zero rows h = tt
  IsRanked-take (suc n) [] h = tt
  IsRanked-take (suc n) (r ∷ rows) h = (All-take _ n rows h.0, IsRanked-take n rows h.1)

  -- A row is among the chosen, or these are `n`, none of which has a lower score.
  abbrev pub IsBeaten : ℕ → List (CatalogRow W) → CatalogRow W → Type 0
  IsBeaten n chosen r = (length chosen ≡ n) × All (λ (x : CatalogRow W). r.score ≼ x.score) chosen

  abbrev pub IsIn : List (CatalogRow W) → CatalogRow W → Type 0
  IsIn chosen r = Any (λ (x : CatalogRow W). x ≡ r) chosen

  take-IsBeaten :
      (n : ℕ) (rows : List (CatalogRow W))
      → IsRanked rows
      → All (λ (r : CatalogRow W). IsIn (take n rows) r ⊎ IsBeaten n (take n rows) r) rows
  take-IsBeaten zero rows h = every rows
    where
      every :
          (xs : List (CatalogRow W)) → All (λ (r : CatalogRow W). IsIn [] r ⊎ IsBeaten 0 [] r) xs
      every [] = tt
      every (x ∷ xs) = (inr (refl, tt), every xs)
  take-IsBeaten (suc n) [] h = tt
  take-IsBeaten (suc n) (r ∷ rows) h = (inl (inl refl), both rows h.0 (take-IsBeaten n rows h.1))
    where
      both :
          (xs : List (CatalogRow W))
          → All (λ (x : CatalogRow W). x.score ≼ r.score) xs
          → All (λ (x : CatalogRow W). IsIn (take n rows) x ⊎ IsBeaten n (take n rows) x) xs
          → All
              (λ (x : CatalogRow W).
                IsIn (r ∷ take n rows) x ⊎ IsBeaten (suc n) (r ∷ take n rows) x)
              xs
      both [] a b = tt
      both (x ∷ xs) a (inl found, b) = (inl (inr found), both xs a.1 b)
      both (x ∷ xs) a (inr (full, lower), b) = (inr (ap suc full, (a.0, lower)), both xs a.1 b)

  module _ (o : IsOrdered W) where
    open o use {le_trans, le_total}

    insert_ranked-IsRanked :
        (r : CatalogRow W) (rows : List (CatalogRow W))
        → IsRanked rows
        → IsRanked (insert_ranked r rows)
    insert_ranked-IsRanked r [] h = (tt, tt)
    insert_ranked-IsRanked r (x ∷ xs) h = elim (Bool-cases (x.score ≤? r.score)) [
      | inl before ↦
          rw before
            ((before, All-map _ _ xs (λ y l. le_trans y.score x.score r.score l before) h.0), h)
      | inr behind ↦ rw behind (
        All-insert_ranked _ r xs (ground (arith, le_total x.score r.score)) h.0,
        insert_ranked-IsRanked r xs h.1,
      )
    ]

    ranked-IsRanked : (rows : List (CatalogRow W)) → IsRanked (ranked rows)
    unfolding ranked
    ranked-IsRanked [] = tt
    ranked-IsRanked (r ∷ rows) = insert_ranked-IsRanked r (ranked rows) (ranked-IsRanked rows)

    -- `top` selects at most `limit` rows by falling score: rows of the table (what holds of all of them
    -- holds of each selected), none older than the cutoff. A row of the table that is that fresh is
    -- selected, unless `limit` rows are and none of them has a lower score.
    pub top_rows_lem :
        (limit : ℕ) (fresh_s : W) (s : CatalogStore W) (P : CatalogRow W → Type 0)
        → All P (values s.markets)
        → let rows = values s.markets in
          let chosen = top_rows limit fresh_s s in
          (length chosen ≤ limit)
          × All (λ (r : CatalogRow W). P r × (cutoff_of fresh_s rows ≼ r.scanned_ts)) chosen
          × IsRanked chosen
          × All
              (λ (r : CatalogRow W).
                ((cutoff_of fresh_s rows ≤? r.scanned_ts) ≡ false)
                ⊎ (IsIn chosen r ⊎ IsBeaten limit chosen r))
              rows
    unfolding top_rows
    top_rows_lem limit fresh_s s P a =
        let rows = values s.markets in
        let test : CatalogRow W → Bool = λ r. cutoff_of fresh_s rows ≤? r.scanned_ts in
        let kept = keep_if test rows in
        (
          length-take-le limit (ranked kept),
          All-take _ limit (ranked kept) (All-ranked _ kept (All-keep_if P test rows a)),
          IsRanked-take limit (ranked kept) (ranked-IsRanked kept),
          All-of_keep_if _ test rows
              (All-of_ranked _ kept (take-IsBeaten limit (ranked kept) (ranked-IsRanked kept))),
        )
