-- ===== src/Execution/Reconcile/Plan.antt =====
-- execution/reconciler.py: what a plan does to the live orders and the target quotes.
use poly_maker.Prelude.{
  ◌+◌, ◌≡◌, refl, not, ◌&&◌, List, [], ◌∷◌, String, arith, keep_if, map, length,
}
use poly_maker.Prelude.Eq.{string_eq}
use poly_maker.Float.{Float}
use poly_maker.Dict.{member, AllDistinct}
use poly_maker.Domain.{OpenOrder, Quote, TargetQuotes}
use poly_maker.Execution.Reconcile.{Tolerances, find_match, match_quotes, reconcile}
use poly_maker.Execution.Reconcile.Matched.{
  Matched, Matched-AllDistinct, Matched-count, match_quotes-IsRun,
}

module _ {W : Type 0} where
  abbrev pub ids : List (OpenOrder W) → List String
  ids = map λ (o : OpenOrder W). o.order_id

  abbrev unkept : List String → List (OpenOrder W) → List (OpenOrder W)
  unkept keep = keep_if λ (o : OpenOrder W). not (member o.order_id keep)

  member-unkept :
      (keep : List String) (i : String) (live : List (OpenOrder W))
      → member i (ids (unkept keep live)) ≡ (member i (ids live) && not (member i keep))
  member-unkept keep i [] = refl
  member-unkept keep i (o ∷ live) =
      ground (arith, string_eq.same_iff o.order_id i, member-unkept keep i live)

module _ {W : Type 0} ⦃f : Float W⦄ (t : Tolerances W) where
  -- Each target in turn is matched by a live order that fits it (same token and side, price and size
  -- within the tolerances) and matched no target before, or else is placed as it is, and only if no
  -- live order is left that fits it and matched no target before. No id matches twice, and exactly the
  -- live orders whose ids match no target are cancelled.
  pub reconcile_accounts :
      (targets : TargetQuotes W) (live : List (OpenOrder W))
      → let plan = reconcile targets live t in
        (kept : List String) × Matched t live [] targets.quotes kept plan.to_place
        × AllDistinct kept
        × (length kept + length plan.to_place ≡ length targets.quotes)
        × ((i : String) → member i plan.to_cancel ≡ (member i (ids live) && not (member i kept)))
  unfolding reconcile
  reconcile_accounts targets live =
      let keep = (match_quotes t live [] targets.quotes).0 in
      let run = match_quotes-IsRun t live [] targets.quotes in
      (
        run.ids,
        run.matched,
        Matched-AllDistinct t live run.matched,
        Matched-count t live run.matched,
        λ i. ground (arith, member-unkept keep i live, run.member_eq i),
      )

  keep_if-all : (os : List (OpenOrder W)) → unkept [] os ≡ os
  keep_if-all [] = refl
  keep_if-all (o ∷ os) = rw (keep_if-all os)

  -- An empty target set cancels every live order and places nothing.
  pub reconcile_pulls_all :
      (targets : TargetQuotes W) (live : List (OpenOrder W))
      → targets.quotes ≡ []
      → reconcile targets live t ≡ record { to_cancel = ids live; to_place = [] }
  unfolding reconcile match_quotes
  reconcile_pulls_all targets live e = rw (e, keep_if-all live)

  match_quotes-nothing :
      (keep : List String) (qs : List (Quote W)) → match_quotes t [] keep qs ≡ (keep, qs)
  unfolding match_quotes find_match
  match_quotes-nothing keep [] = refl
  match_quotes-nothing keep (q ∷ qs) = rw (match_quotes-nothing keep qs)

  -- With no live order every target is placed, in order, and nothing is cancelled.
  pub reconcile_places_all :
      (targets : TargetQuotes W)
      → reconcile targets [] t ≡ record { to_cancel = []; to_place = targets.quotes }
  unfolding reconcile
  reconcile_places_all targets = rw (match_quotes-nothing [] targets.quotes)
