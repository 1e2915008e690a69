-- ===== src/Engine/Quoter/Halts.antt =====
-- engine.py: a market that may not be quoted has its orders pulled, from the flag to the plan.
use mathlib.Core.Option
use mathlib.Core.Option.{some-injective}
use mathlib.Core.Path.{subst}
use poly_maker.Prelude.{
  ◌≡◌, ap, sym, ◌∙◌, refl, Bool, true, ◌||◌, Option, none, some, List, [], String, arith, map,
}
use poly_maker.Prelude.Eq.{string_eq}
use poly_maker.Float.{Float}
use poly_maker.Domain.{halted, MarketMeta, OpenOrder}
use poly_maker.SortedDict.{SortedDict}
use poly_maker.Book.{OrderBook}
use poly_maker.Strategy.Regime.{decide}
use poly_maker.Strategy.Regime.Safety.{halts_iff}
use poly_maker.Strategy.Quoting.{construct_quotes}
use poly_maker.Strategy.Quoting.Quotes.{construct_quotes-pulled}
use poly_maker.Execution.Reconcile.Plan.{reconcile_pulls_all}
use poly_maker.State.Store.{StateStore}
use poly_maker.Risk.{RiskManager, update_mark, global_halt, evaluate}
use poly_maker.Risk.Decisions.{evaluate_flags}
use poly_maker.Config.{RiskConfig}
use poly_maker.Engine.Requests.{Answers, recompute}
use poly_maker.Engine.{Market, Engine, Settings, Links}
use poly_maker.Engine.Quoter.{
  Planned, is_blind, quotable_market, assess, regime_inputs, quote_inputs, live_orders,
  tolerances_of, plan_from, plan_market,
}

module _ {W : Type 0} ⦃f : Float W⦄ where
  killed_halts :
      (cfg : RiskConfig W) (r : RiskManager W) (s : StateStore W)
      → r.killed ≡ true
      → (global_halt cfg r s).0 ≡ true
  unfolding global_halt
  killed_halts cfg r s h = rw h refl

  evaluate-halts :
      (cfg : RiskConfig W) (m : MarketMeta W) (stale : Bool) (cost : W) (r : RiskManager W)
      (s : StateStore W)
      → (r.killed || stale) ≡ true
      → (evaluate cfg m stale cost r s).halt ≡ true
  evaluate-halts cfg m stale cost r s h =
      ground (arith, (evaluate_flags cfg m stale cost r s).0, killed_halts cfg r s)

module _ {W D : Type 0} ⦃f : Float W⦄ ⦃d : SortedDict W D⦄ where
  module _ (cfg : Settings W) (timestamp : String → Option W) (links : Links W) (now : W) where
    -- The kill switch is on, or a feed, the heartbeat or the market itself is down.
    abbrev pub is_stopped : Market W → Engine W D → Bool
    is_stopped m e = e.risk.killed || is_blind cfg links now e.user_started m

    assess-halts :
        (m : Market W) (micro : W) (e : Engine W D)
        → is_stopped m e ≡ true
        → (assess cfg links now m micro e).decision.halt ≡ true
    unfolding assess update_mark
    assess-halts m micro e h = evaluate-halts cfg.risk m.meta _ _ _ e.state h

    -- The ids of the orders that rest on the market's two tokens
    abbrev pub resting_ids : Market W → Engine W D → List String
    resting_ids m e = map (λ (o : OpenOrder W). o.order_id) (live_orders m e)

    plan_from-pulls :
        (cid : String) (m : Market W) (book : OrderBook W D) (micro : W) (e : Engine W D)
        → is_stopped m e ≡ true
        → let p = (plan_from cfg timestamp links now cid m book micro e).0 in
          (p.regime ≡ halted) × (p.plan ≡ record { to_cancel = resting_ids m e; to_place = [] })
    unfolding plan_from regime_inputs quote_inputs
    plan_from-pulls cid m book micro e h =
        let a = assess cfg links now m micro e in
        let inputs = regime_inputs timestamp now m e a in
        let stops =
          (halts_iff inputs m.profile m.regime_m).1 (rw (assess-halts m micro e h) refl) in
        let targets = quote_inputs now m book e a (decide inputs m.profile m.regime_m).0 in
        (
          stops,
          reconcile_pulls_all (tolerances_of m) (construct_quotes targets) (live_orders m e)
              (construct_quotes-pulled targets (rw stops refl)),
        )

    -- While the kill switch is on or the market is blind (its feed stale, the account stream down, the
    -- heartbeat lost or trading closed), a plan made of it is in the HALTED regime, cancels every
    -- order that rests on its two tokens, and places nothing.
    pub stopped_market_pulls :
        (cid : String) (m : Market W) (book : OrderBook W D) (micro : W) (e : Engine W D)
        (p : Planned W) (e' : Engine W D)
        → quotable_market cid e ≡ some (m, book, micro)
        → is_stopped m e ≡ true
        → plan_market cfg timestamp links now cid e ≡ some (p, e')
        → (p.regime ≡ halted) × (p.plan ≡ record { to_cancel = resting_ids m e; to_place = [] })
    unfolding plan_market
    stopped_market_pulls cid m book micro e p e' found h planned =
        subst
          (λ q.
            (q.0.regime ≡ halted)
            × (q.0.plan ≡ record { to_cancel = resting_ids m e; to_place = [] }))
          (some-injective _ _ (ap (Option.map _) (sym found) ∙ planned))
          (plan_from-pulls cid m book micro e h)

    -- Without a market, or without a usable YES book (missing, one-sided, empty, crossed or locked),
    -- nothing is asked of the gateway and the engine is unchanged, even while the market is stopped:
    -- the orders that rest stay.
    pub unusable_book_skips :
        (answers : Answers W) (cid : String) (e : Engine W D)
        → quotable_market cid e ≡ none
        → recompute cfg timestamp links answers now cid e ≡ ([], e)
    unfolding recompute plan_market
    unusable_book_skips answers cid e h = rw (h, recompute, plan_market) refl
