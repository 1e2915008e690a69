-- ===== src/Execution/Reconcile/Matched.antt =====
-- execution/reconciler.py: the matching loop matches each target or places it.
use poly_maker.Prelude.{
  ◌+◌, ◌≡◌, ◌⊎◌, refl, true, false, ◌||◌, List, [], ◌∷◌, String, arith, length, All, Any, All-map,
  inl, inr, Option-cases,
}
use poly_maker.Prelude.Eq.{string_eq}
use poly_maker.Float.{Float}
use poly_maker.Dict.{member, AllDistinct}
use poly_maker.Domain.{OpenOrder, Quote}
use poly_maker.Execution.Reconcile.{Tolerances, candidates, find_match, match_quotes}
use poly_maker.Execution.Reconcile.Matching.{
  Fits, fits, fits_iff, find_match-fresh, find_match-fits, find_match-none,
}

module _ {W : Type 0} ⦃f : Float W⦄ (t : Tolerances W) where
  -- Each quote in turn is matched by a live order that fits it and is not used yet, or is placed as it
  -- is because no such order is left. The indices are the ids used so far, the quotes, the ids of the
  -- orders that match and the quotes placed, both in the order of the quotes.
  pub data Matched (live : List (OpenOrder W))
      : List String → List (Quote W) → List String → List (Quote W) → Type 0 where
    ends : {used : List String} → Matched live used [] [] []
    matches :
        {used ids : List String} {q : Quote W} {qs rest : List (Quote W)}
        → (o : OpenOrder W) → Any (λ (x : OpenOrder W). x ≡ o) live
        → Fits t q o
        → member o.order_id used ≡ false
        → Matched live (o.order_id ∷ used) qs ids rest
        → Matched live used (q ∷ qs) (o.order_id ∷ ids) rest
    places :
        {used ids : List String} {q : Quote W} {qs rest : List (Quote W)}
        → All (λ (x : OpenOrder W). (member x.order_id used ≡ true) ⊎ ¬ Fits t q x) live
        → Matched live used qs ids rest
        → Matched live used (q ∷ qs) ids (q ∷ rest)

  module _ (live : List (OpenOrder W)) where
    pub Matched-count :
        {used ids : List String} {qs rest : List (Quote W)}
        → Matched live used qs ids rest
        → length ids + length rest ≡ length qs
    Matched-count ends = refl
    Matched-count (matches o found fit free m) = omega (arith, Matched-count m)
    Matched-count (places left m) = omega (arith, Matched-count m)

    Matched-fresh :
        {used ids : List String} {qs rest : List (Quote W)}
        → Matched live used qs ids rest
        → (i : String) → member i ids ≡ true
        → member i used ≡ false
    Matched-fresh ends i h = cc h
    Matched-fresh (matches o found fit free m) i h =
        ground (arith, string_eq.same_iff o.order_id i, Matched-fresh m i)
    Matched-fresh (places left m) i h = Matched-fresh m i h

    pub Matched-AllDistinct :
        {used ids : List String} {qs rest : List (Quote W)}
        → Matched live used qs ids rest
        → AllDistinct ids
    Matched-AllDistinct ends = tt
    Matched-AllDistinct (matches o found fit free m) = (
      ground (arith, string_eq.same_iff o.order_id o.order_id, Matched-fresh m o.order_id),
      Matched-AllDistinct m,
    )
    Matched-AllDistinct (places left m) = Matched-AllDistinct m

    -- The ids that a run of the loop adds to those kept before
    pub record IsRun (keep : List String) (qs : List (Quote W)) : Type 0 where
      pub ids : List String
      pub matched : Matched live keep qs ids (match_quotes t live keep qs).1
      pub member_eq :
          (i : String) → member i (match_quotes t live keep qs).0 ≡ (member i ids || member i keep)

    pub match_quotes-IsRun : (keep : List String) (qs : List (Quote W)) → IsRun keep qs
    unfolding match_quotes
    match_quotes-IsRun keep [] = record { ids = []; matched = ends; member_eq = λ i. refl }
    match_quotes-IsRun keep (q ∷ qs) =
        elim (Option-cases (find_match t keep q (candidates q live))) [
          | inl e ↦
              let run = match_quotes-IsRun keep qs in
              record {
                ids = run.ids;
                matched =
                    rw (e, match_quotes)
                      (places (All-map _ _ live (λ x. unfit q x) (find_match-none t keep q live e))
                        run.matched);
                member_eq = λ i. rw (e, match_quotes) (run.member_eq i);
              }
          | inr (o, e) ↦
              let run = match_quotes-IsRun (o.order_id ∷ keep) qs in
              let (found, fit) = find_match-fits t keep q live o e in
              record {
                ids = o.order_id ∷ run.ids;
                matched =
                    rw (e, match_quotes)
                      (matches o found ((fits_iff t q o).0 fit)
                        (find_match-fresh t keep q (candidates q live) o e) run.matched);
                member_eq = λ i. rw (e, match_quotes) (ground (arith, run.member_eq i));
              }
        ]
      where
        unfit :
            (q : Quote W) (x : OpenOrder W)
            → (member x.order_id keep ≡ true) ⊎ (fits t q x ≡ false)
            → (member x.order_id keep ≡ true) ⊎ ¬ Fits t q x
        unfit q x (inl held) = inl held
        unfit q x (inr apart) = inr λ fit. cc (apart, (fits_iff t q x).1 fit)
