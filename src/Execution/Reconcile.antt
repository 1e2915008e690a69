-- ===== src/Execution/Reconcile.antt =====
-- execution/reconciler.py: the diff of the target quotes against the live orders.
pub mod Matching
pub mod Matched
pub mod Plan
use poly_maker.Prelude.{
  Bool, true, false, not, ◌&&◌, ◌||◌, Option, none, some, List, [], ◌∷◌, ◌++◌, String,
  if◌then◌else◌, keep_if, map, is_empty,
}
use poly_maker.Prelude.Int.{ℤ}
use poly_maker.Prelude.Eq.{Eq, ◌==◌, string_eq}
use poly_maker.Float.{Float, num, dec, ◌⊕◌, ◌⊖◌, ◌⊗◌, ◌≤?◌, fabs}
use poly_maker.Dict.{member}
use poly_maker.Domain.{OpenOrder, Quote, TargetQuotes, side_beq}

pub record ReconcilePlan (W : Type 0) : Type 0 where
  pub to_cancel : List String
  pub to_place : List (Quote W)

module _ {W : Type 0} where
  abbrev pub is_noop : ReconcilePlan W → Bool
  is_noop plan = is_empty plan.to_cancel && is_empty plan.to_place

  -- `live_by_key.get((q.token_id, q.side.value), [])`
  abbrev pub same_key : Quote W → OpenOrder W → Bool
  same_key q o = o.token_id == q.token_id && side_beq o.side q.side

  abbrev pub candidates : Quote W → List (OpenOrder W) → List (OpenOrder W)
  candidates q = keep_if (same_key q)

-- What one call of `reconcile` passes beside the quotes and orders
pub record Tolerances (W : Type 0) : Type 0 where
  pub tick : W
  pub reprice_ticks : ℤ
  pub resize_frac : W

module _ {W : Type 0} ⦃f : Float W⦄ where
  -- `_EPS`
  abbrev pub eps : W
  eps = dec 1 9

  abbrev pub price_tol : Tolerances W → W
  price_tol t = f.of_int t.reprice_ticks ⊗ t.tick ⊕ eps

  abbrev pub price_close : Tolerances W → Quote W → OpenOrder W → Bool
  price_close t q o = fabs (o.price ⊖ q.price) ≤? price_tol t

  abbrev pub size_close : Tolerances W → Quote W → OpenOrder W → Bool
  size_close t q o = (q.size ≤? num 0) || (fabs (o.size ⊖ q.size) ≤? t.resize_frac ⊗ q.size ⊕ eps)

  -- The inner loop: the first candidate not yet kept that is close in price and size
  unfoldable pub find_match :
      Tolerances W → List String → Quote W → List (OpenOrder W) → Option (OpenOrder W)
  find_match t keep q [] = none
  find_match t keep q (o ∷ os) =
      let rest = find_match t keep q os in
      if member o.order_id keep
      then rest
      else if price_close t q o && size_close t q o
      then some o
      else rest

  -- The outer loop, from the ids kept so far: the ids kept and the quotes to place
  unfoldable pub match_quotes :
      Tolerances W
      → List (OpenOrder W)
      → List String
      → List (Quote W)
      → List String × List (Quote W)
  match_quotes t live keep [] = (keep, [])
  match_quotes t live keep (q ∷ qs) = elim (find_match t keep q (candidates q live)) [
    | some o ↦ match_quotes t live (o.order_id ∷ keep) qs
    | none ↦ let (kept, placed) = match_quotes t live keep qs in (kept, q ∷ placed)
  ]

  unfoldable pub reconcile : TargetQuotes W → List (OpenOrder W) → Tolerances W → ReconcilePlan W
  reconcile targets live t =
      let (keep, to_place) = match_quotes t live [] targets.quotes in
      record {
        to_cancel =
            map (λ (o : OpenOrder W). o.order_id)
              (keep_if (λ (o : OpenOrder W). not (member o.order_id keep)) live);
        to_place = to_place;
      }
