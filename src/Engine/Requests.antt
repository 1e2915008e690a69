-- ===== src/Engine/Requests.antt =====
-- engine.py: the second half of `_recompute_locked`: what the gateway is asked to do about a plan, and
-- what becomes of the store.
pub mod Orders
pub mod Postable
use poly_maker.Prelude.{
  Bool, true, false, not, ◌&&◌, ◌||◌, Option, none, some, List, [], ◌∷◌, ◌++◌, String,
  if◌then◌else◌, is_empty, keep_if, length, ltb, ◌>>=◌,
}
use poly_maker.Prelude.Int.{ℤ, leb_ℤ}
use poly_maker.Prelude.Eq.{Eq, ◌==◌, string_eq, nat_eq}
use poly_maker.Float.{Float, num, dec, ◌⊖◌, ◌⊗◌, ◌⊘◌, ◌≤?◌, ◌<?◌, fabs, fmin}
use poly_maker.Dict.{Dict, lookup}
use poly_maker.Domain.{Regime, quiet, trending, MarketMeta, OpenOrder, Quote, yes_token, no_token}
use poly_maker.Config.{StrategyProfile}
use poly_maker.SortedDict.{SortedDict}
use poly_maker.Book.{
  OrderBook, BookLevel, BookView, book_is_empty, best_bid, best_ask, microprice, view_default,
  empty_view,
}
use poly_maker.Strategy.Estimators.{
  MarketEstimators, decay_flow, flow_z, on_fair_value, vol_short, vol_ratio, toxicity,
}
use poly_maker.Strategy.Regime.{RegimeInputs, RegimeMachine, decide}
use poly_maker.Strategy.Pricing.{compute_fair_value}
use poly_maker.Strategy.Quoting.{QuoteInputs, construct_quotes}
use poly_maker.Execution.Reconcile.{ReconcilePlan, is_noop, Tolerances, reconcile}
use poly_maker.State.Store.{
  StateStore, position, orders_for, remove_order, upsert_order, replace_open_orders,
}
use poly_maker.Risk.{RiskDecision, RiskManager, update_mark, note_order_result, evaluate}
use poly_maker.Engine.Quoter.{Planned, plan_market}
use poly_maker.Engine.{Market, Engine, Settings, Links, on_market, wake_cid, event_group_cost}

abbrev pub is_calm : Regime → Bool
is_calm quiet = true
is_calm trending = true
is_calm _ = false

-- What the gateway is asked, in order
pub data Request (W : Type 0) : Type 0 where
  cancels : List String → Request W
  places : List (Quote W) → Request W
  cancels_asset : String → Request W
  reads_orders : Request W
  merges : String → W → Request W

-- What the gateway answers: to the cancellation, to the placement, and to the last reading of orders
pub record Answers (W : Type 0) : Type 0 where
  pub cancel_ok : Bool
  pub placed : List (OpenOrder W)
  pub open_orders : List (OpenOrder W)

module _ {W : Type 0} ⦃f : Float W⦄ where
  abbrev pub orders_of : String → List (OpenOrder W) → List (OpenOrder W)
  orders_of t = keep_if (λ (o : OpenOrder W). o.token_id == t)

  -- `_refresh_token_orders`, from the orders that the exchange reports
  unfoldable pub refresh_token_orders :
      W → MarketMeta W → List (OpenOrder W) → W → StateStore W → StateStore W
  refresh_token_orders now meta live grace s =
      let s' = replace_open_orders now (yes_token meta) (orders_of (yes_token meta) live) grace s in
      replace_open_orders now (no_token meta) (orders_of (no_token meta) live) grace s'

  abbrev pub remove_orders : List String → StateStore W → StateStore W
  remove_orders [] s = s
  remove_orders (i ∷ is) s = remove_orders is (remove_order i s)

  abbrev pub upsert_orders : List (OpenOrder W) → StateStore W → StateStore W
  upsert_orders [] s = s
  upsert_orders (o ∷ os) s = upsert_orders os (upsert_order o s)

  abbrev pub order_ids : List (OpenOrder W) → List String
  order_ids [] = []
  order_ids (o ∷ os) = o.order_id ∷ order_ids os

  abbrev pub forget_token : String → StateStore W → StateStore W
  forget_token t s = remove_orders (order_ids (orders_for t s)) s

  -- `_quarantine`
  unfoldable pub quarantine :
      W → MarketMeta W → List (OpenOrder W) → StateStore W → List (Request W) × StateStore W
  unfolding refresh_token_orders
  quarantine now meta live s = (
    cancels_asset (yes_token meta) ∷ cancels_asset (no_token meta) ∷ reads_orders ∷ [],
    refresh_token_orders now meta live (num 0)
        (forget_token (no_token meta) (forget_token (yes_token meta) s)),
  )

  module _ (answers : Answers W) (now : W) where
    -- `place`, and the quarantine of an incomplete placement
    unfoldable pub place_quotes :
        Planned W → StateStore W → RiskManager W → List (Request W) × StateStore W × RiskManager W
    unfolding quarantine
    place_quotes p s risk =
        let complete = length answers.placed == length p.plan.to_place in
        let placed = upsert_orders answers.placed s in
        let (asked, resynced) = quarantine now p.meta answers.open_orders placed in
        let short = ltb (length answers.placed) (length p.plan.to_place) in
        (
          places p.plan.to_place ∷ (if short then asked else []),
          if short then resynced else placed,
          note_order_result complete risk,
        )

module _ {W D : Type 0} ⦃f : Float W⦄ where
  -- `_maybe_merge`
  unfoldable pub maybe_merge :
      Settings W → String → Planned W → Engine W D → List (Request W) × Engine W D
  maybe_merge cfg cid p e =
      let amount = fmin p.size_yes p.size_no in
      let merging : Bool = elim (lookup cid e.markets) [ none ↦ false | some m ↦ m.merging ] in
      if (amount <? p.profile.merge_min_size) || (merging || cfg.paper)
      then ([], e)
      else (merges cid amount ∷ [], on_market cid (λ m. record m { merging = true }) e)

  module _ (cfg : Settings W) (links : Links W) (answers : Answers W) (now : W) where
    -- The end of a requote: the fair value is noted, and a merge may start.
    abbrev pub finish :
        String → Planned W → List (Request W) → Engine W D → List (Request W) × Engine W D
    finish cid p asked e =
        let noted = on_market cid (λ m. record m { last_quote_fv = some p.fv }) e in
        let (merge, e') = maybe_merge cfg cid p noted in (asked ++ merge, e')

    -- The second half, once nothing is left to cancel
    unfoldable pub place_stage :
        String → Planned W → List (Request W) → Engine W D → List (Request W) × Engine W D
    unfolding place_quotes maybe_merge
    place_stage cid p asked e =
        let shed = not cfg.paper && ((dec 85 2 <? links.order_pressure) && is_calm p.regime) in
        let (more, s, risk) = place_quotes answers now p e.state e.risk in
        if is_empty p.plan.to_place
        then finish cid p asked e
        else if shed
        then finish cid p asked (wake_cid cid e)
        else finish cid p (asked ++ more) (record e { state = s; risk = risk })

    -- The second half of `_recompute_locked`
    unfoldable pub carry_out : String → Planned W → Engine W D → List (Request W) × Engine W D
    unfolding place_stage refresh_token_orders maybe_merge
    carry_out cid p e =
        let asked = cancels p.plan.to_cancel ∷ [] in
        let resynced = refresh_token_orders now p.meta answers.open_orders (num 10) e.state in
        if is_noop p.plan
        then maybe_merge cfg cid p e
        else if is_empty p.plan.to_cancel
        then place_stage cid p [] e
        else if answers.cancel_ok
        then place_stage cid p asked (record e { state = remove_orders p.plan.to_cancel e.state })
        else (asked ++ (reads_orders ∷ []), wake_cid cid (record e { state = resynced }))

module _ {W D : Type 0} ⦃f : Float W⦄ ⦃d : SortedDict W D⦄ where
  -- `_recompute_locked`
  unfoldable pub recompute :
      Settings W
      → (String → Option W)
      → Links W
      → Answers W
      → W
      → String
      → Engine W D
      → List (Request W) × Engine W D
  unfolding plan_market carry_out
  recompute cfg timestamp links answers now cid e =
      elim (plan_market cfg timestamp links now cid e) [
        | none ↦ ([], e)
        | some (p, e') ↦ carry_out cfg links answers now cid p e'
      ]
