-- ===== src/Engine/Quoter.antt =====
-- engine.py: the first half of `_recompute_locked`, the plan from the book, the estimators, the risk
-- decision and the regime.
pub mod Halts
use mathlib.Core.Option
use poly_maker.Prelude.{
  Bool, true, false, not, ◌&&◌, ◌||◌, Option, none, some, List, [], ◌∷◌, ◌++◌, String,
  if◌then◌else◌, is_empty, keep_if, length, ltb, ◌>>=◌,
}
use poly_maker.Prelude.Int.{ℤ, leb_ℤ}
use poly_maker.Prelude.Eq.{Eq, ◌==◌, string_eq, nat_eq}
use poly_maker.Float.{Float, num, dec, ◌⊖◌, ◌⊗◌, ◌⊘◌, ◌≤?◌, ◌<?◌, fabs, fmin}
use poly_maker.Dict.{Dict, lookup}
use poly_maker.Domain.{Regime, quiet, trending, MarketMeta, OpenOrder, Quote, yes_token, no_token}
use poly_maker.Config.{StrategyProfile}
use poly_maker.SortedDict.{SortedDict}
use poly_maker.Book.{
  OrderBook, BookLevel, BookView, book_is_empty, best_bid, best_ask, microprice, view_default,
  empty_view,
}
use poly_maker.Strategy.Estimators.{
  MarketEstimators, decay_flow, flow_z, on_fair_value, vol_short, vol_ratio, toxicity,
}
use poly_maker.Strategy.Regime.{RegimeInputs, RegimeMachine, decide}
use poly_maker.Strategy.Pricing.{compute_fair_value}
use poly_maker.Strategy.Quoting.{QuoteInputs, construct_quotes}
use poly_maker.Execution.Reconcile.{ReconcilePlan, is_noop, Tolerances, reconcile}
use poly_maker.State.Store.{
  StateStore, position, orders_for, remove_order, upsert_order, replace_open_orders,
}
use poly_maker.Risk.{RiskDecision, RiskManager, update_mark, note_order_result, evaluate}
use poly_maker.Engine.{Market, Engine, Settings, Links, on_market, wake_cid, event_group_cost}

-- What one look at the market gives: `rd` and what it is computed from
pub record Assessment (W : Type 0) : Type 0 where
  pub fv : W
  pub est : MarketEstimators W
  pub risk : RiskManager W
  pub blind : Bool
  pub decision : RiskDecision W

-- The values that the second half reads
pub record Planned (W : Type 0) : Type 0 where
  pub meta : MarketMeta W
  pub profile : StrategyProfile W
  pub regime : Regime
  pub fv : W
  pub size_yes : W
  pub size_no : W
  pub live : List (OpenOrder W)
  pub plan : ReconcilePlan W

module _ {W : Type 0} ⦃f : Float W⦄ where
  -- `(now - since) > limit`, for a feed that is down
  abbrev down_for : W → Bool → W → W → Bool
  down_for now connected since limit = not connected && (limit <? now ⊖ since)

  -- `blind` of a market: a stale feed, a blind account stream, a lost heartbeat, or a closed market
  unfoldable pub is_blind : Settings W → Links W → W → Bool → Market W → Bool
  is_blind cfg links now user_started m =
      let since = links.md_disconnected_since in
      let market_stale =
        (num 0 <? since) && down_for now links.md_connected since cfg.risk.ws_stale_halt_s in
      let user_blind : Bool = elim links.user [
        | none ↦ false
        | some (connected, down) ↦
            user_started && down_for now connected down cfg.risk.user_ws_blind_halt_s
      ] in
      let hb_blind =
        not cfg.paper
        && (cfg.engine.heartbeat
            && leb_ℤ cfg.risk.heartbeat_halt_failures links.heartbeat_failures) in
      market_stale || (user_blind || (hb_blind || m.halted))

  -- `inv_util`
  abbrev inventory_util : W → W → W → W → W
  inventory_util size_yes size_no fv q_max =
      if num 0 <? q_max then fabs (size_yes ⊖ size_no) ⊗ fv ⊘ q_max else num 0

  -- `_hours_to_end`; `timestamp` parses an ISO date to seconds, or fails.
  unfoldable pub hours_to_end : (String → Option W) → Option String → W → Option W
  hours_to_end timestamp none now = none
  hours_to_end timestamp (some iso) now = if iso == "" then none else elim (timestamp iso) [
    | none ↦ none
    | some t ↦ let hrs = (t ⊖ now) ⊘ num 3600 in if num 0 <? hrs then some hrs else none
  ]

  abbrev pub tolerances_of : Market W → Tolerances W
  tolerances_of m = record {
    tick = m.meta.tick_size;
    reprice_ticks = m.profile.reprice_ticks;
    resize_frac = m.profile.resize_frac;
  }

module _ {W D : Type 0} ⦃f : Float W⦄ ⦃d : SortedDict W D⦄ where
  -- The microprice of a two-sided book that is not crossed or locked
  unfoldable pub usable_microprice : ℤ → OrderBook W D → Option W
  usable_microprice levels book = do
    bb ← best_bid book
    ba ← best_ask book
    if book_is_empty book || (ba.price ≤? bb.price) then none else microprice book levels

  abbrev pub view_of : Option (OrderBook W D) → BookView W
  view_of none = empty_view
  view_of (some book) = view_default book

  module _ (cfg : Settings W) (links : Links W) (now : W) where
    -- The fair value, the estimators and marks that it updates, and the decision of the risk manager
    unfoldable pub assess : Market W → W → Engine W D → Assessment W
    unfolding is_blind
    assess m micro e =
        let meta = m.meta in
        let flow = decay_flow now m.est.flow in
        let fv = compute_fair_value micro (flow_z flow) meta.tick_size in
        let risk =
          update_mark (no_token meta) (num 1 ⊖ fv) (update_mark (yes_token meta) fv e.risk) in
        let blind = is_blind cfg links now e.user_started m in
        record {
          fv = fv;
          est = on_fair_value fv now (record m.est { flow = flow });
          risk = risk;
          blind = blind;
          decision = evaluate cfg.risk meta blind (event_group_cost meta e) risk e.state;
        }

  module _ (timestamp : String → Option W) (now : W) where
    unfoldable pub regime_inputs : Market W → Engine W D → Assessment W → RegimeInputs W
    unfolding hours_to_end
    regime_inputs m e a =
        let size_yes = (position (yes_token m.meta) e.state).size in
        let size_no = (position (no_token m.meta) e.state).size in
        record {
          now = now;
          tick = m.meta.tick_size;
          fv = a.fv;
          prev_fv = m.est.last_fv;
          vol_ratio = vol_ratio a.est.vol;
          flow_z = flow_z a.est.flow;
          inventory_util = inventory_util size_yes size_no a.fv m.profile.q_max_usdc;
          hours_to_end = hours_to_end timestamp m.meta.end_date_iso now;
          sweep_flagged = m.sweep;
          market_resolved = false;
          ws_stale = a.blind;
          risk_halt = a.decision.halt;
          risk_reduce_only = a.decision.reduce_only;
        }

  unfoldable pub quote_inputs :
      W → Market W → OrderBook W D → Engine W D → Assessment W → Regime → QuoteInputs W
  quote_inputs now m yes_book e a regime = record {
    meta = m.meta;
    regime = regime;
    fv = a.fv;
    vol_short = vol_short a.est.vol;
    toxicity = toxicity a.est.markout;
    yes_view = view_default yes_book;
    no_view = view_of (lookup (no_token m.meta) e.books);
    pos_yes = position (yes_token m.meta) e.state;
    pos_no = position (no_token m.meta) e.state;
    profile = m.profile;
    now = now;
    risk_size_scale = a.decision.size_scale;
    yes_exit_urgency = num 0;
    no_exit_urgency = num 0;
  }

  abbrev pub live_orders : Market W → Engine W D → List (OpenOrder W)
  live_orders m e = orders_for (yes_token m.meta) e.state ++ orders_for (no_token m.meta) e.state

  -- The guards at the start of `_recompute_locked`: the market, its YES book and its microprice
  unfoldable pub quotable_market : String → Engine W D → Option (Market W × OrderBook W D × W)
  unfolding usable_microprice
  quotable_market cid e = do
    m ← lookup cid e.markets
    yes_book ← lookup (yes_token m.meta) e.books
    micro ← usable_microprice m.profile.micro_levels yes_book
    some (m, yes_book, micro)

  module _ (cfg : Settings W) (timestamp : String → Option W) (links : Links W) (now : W) where
    -- The part after the microprice: the fair value, the risk decision, the regime, and the plan
    unfoldable pub plan_from :
        String → Market W → OrderBook W D → W → Engine W D → Planned W × Engine W D
    unfolding assess regime_inputs quote_inputs
    plan_from cid m yes_book micro e =
        let a = assess cfg links now m micro e in
        let decided = decide (regime_inputs timestamp now m e a) m.profile m.regime_m in
        let targets = construct_quotes (quote_inputs now m yes_book e a decided.0) in
        (
          record {
            meta = m.meta;
            profile = m.profile;
            regime = decided.0;
            fv = a.fv;
            size_yes = (position (yes_token m.meta) e.state).size;
            size_no = (position (no_token m.meta) e.state).size;
            live = live_orders m e;
            plan = reconcile targets (live_orders m e) (tolerances_of m);
          },
          on_market cid (λ n. record n { est = a.est; regime_m = decided.1; sweep = false })
              (record e { risk = a.risk }),
        )

    -- The first half; `none` for the early returns, and for a market that the engine does not have
    unfoldable pub plan_market : String → Engine W D → Option (Planned W × Engine W D)
    unfolding quotable_market plan_from
    plan_market cid e =
        Option.map (λ (x : Market W × OrderBook W D × W). plan_from cid x.0 x.1 x.2 e)
          (quotable_market cid e)
