-- ===== src/Tests/Engines.antt =====
-- The theorems on the risk manager and the engine, at concrete inputs.
use poly_maker.Prelude.{
  ◌≡◌, ◌⊎◌, refl, true, false, not, ◌&&◌, ◌||◌, Option, none, some, List, [], ◌∷◌, String, All,
  if◌then◌else◌,
}
use poly_maker.Prelude.Int.{ℤ, pos}
use poly_maker.Prelude.Eq.{◌==◌, string_eq}
use poly_maker.Float.{◌≼◌, num, dec}
use poly_maker.Float.Fixed.{Fixed, fixed_float, Fixed-IsOrdered}
use poly_maker.SortedDict.Assoc.{assoc_dict}
use poly_maker.Dict.{values}
use poly_maker.Domain.{OpenOrder, quiet, halted}
use poly_maker.Book.{best_bid, best_ask, microprice}
use poly_maker.Strategy.Regime.{new_machine}
use poly_maker.Strategy.Estimators.{Ewma, MarketEstimators}
use poly_maker.Risk.{RiskManager, new_manager, market_notional, total_exposure, evaluate}
use poly_maker.Risk.Decisions.{is_tripped, room_under, at_cap, evaluate_flags, evaluate_scale}
use poly_maker.Execution.Gateway.Balances.{token_balances}
use poly_maker.Engine.{Market, Engine, Settings, Links}
use poly_maker.Engine.Quoter.{Planned, usable_microprice, quotable_market, plan_from, plan_market}
use poly_maker.Engine.Quoter.Halts.{stopped_market_pulls}
use poly_maker.Engine.Requests.{Request, Answers, carry_out}
use poly_maker.Engine.Requests.Orders.{placed_by, is_shed, placements_follow_cancels}
use poly_maker.Engine.Upkeep.{heartbeat_step, check_divergence}
use poly_maker.Engine.Upkeep.Recovery.{recovery_adopts_reports}
use poly_maker.Engine.Upkeep.Drift.{IsChecked, check_divergence_lem}
use poly_maker.Tests.{
  cents, whole, a_market, a_profile, a_risk_config, a_book, an_order, a_quote, a_store,
}

evaluate_flags_example :
    let d = evaluate a_risk_config a_market false (whole 10) new_manager a_store in
    let stopped = is_tripped a_risk_config new_manager a_store || false in
    (d.halt ≡ stopped)
    × (d.reduce_only ≡ (
        not stopped
        && at_cap a_risk_config
            (market_notional a_market new_manager a_store)
            (total_exposure new_manager a_store.positions (num 0))
            (whole 10)))
evaluate_flags_example = evaluate_flags a_risk_config a_market false (whole 10) new_manager a_store

evaluate_scale_example :
    let d = evaluate a_risk_config a_market false (whole 10) new_manager a_store in
    (num 0 ≼ d.size_scale)
    × ((d.halt ≡ true)
        ⊎ ((d.reduce_only ≡ true)
            ⊎ ((d.size_scale
                  ≼ room_under (whole 100) (market_notional a_market new_manager a_store))
                × (d.size_scale
                    ≼ room_under (whole 500) (total_exposure new_manager a_store.positions (num 0)))
                × (d.size_scale ≼ room_under (whole 200) (whole 10)))))
evaluate_scale_example =
    evaluate_scale Fixed-IsOrdered a_risk_config refl a_market false (whole 10) new_manager a_store

abbrev an_ewma : Ewma Fixed
an_ewma = record { halflife = whole 60; value = whole 0; last_ts = whole 0; initialized = false }

abbrev some_estimators : MarketEstimators Fixed
some_estimators = record {
  vol = record { short_ewma = an_ewma; long_ewma = an_ewma; last_fv = none; last_ts = whole 0 };
  flow = record { signed_ewma = an_ewma; abs_ewma = an_ewma };
  markout = record { horizon_s = whole 300; pending = []; markout = an_ewma };
  last_fv = none;
  last_fv_ts = whole 0;
}

abbrev pub market_entry : Market Fixed
market_entry = record {
  meta = a_market;
  profile = a_profile;
  est = some_estimators;
  regime_m = new_machine;
  dirty = false;
  sweep = false;
  merging = false;
  halted = false;
  last_quote_fv = none;
}

abbrev pub an_engine : Engine Fixed (List (Fixed × Fixed))
an_engine = record {
  state = a_store;
  risk = kill_by_hand;
  books = ("yes", a_book) ∷ [];
  markets = ("c1", market_entry) ∷ [];
  token_cid = ("yes", "c1") ∷ ("no", "c1") ∷ [];
  reconcile_now = false;
  hb_was_down = true;
  user_started = false;
}
  where
    kill_by_hand : RiskManager Fixed
    kill_by_hand = record new_manager { killed = true }

abbrev pub some_settings : Settings Fixed
some_settings = record {
  engine = record {
    debounce_ms = pos 100;
    quoter_tick_s = whole 60;
    reconcile_interval_s = whole 30;
    catalog_refresh_s = whole 600;
    heartbeat = true;
    heartbeat_interval_s = whole 5;
    journal = false;
    loop = "asyncio";
  };
  risk = a_risk_config;
  paper = false;
}

abbrev pub some_links : Links Fixed
some_links = record {
  md_connected = true;
  md_disconnected_since = whole 0;
  user = none;
  heartbeat_failures = pos 0;
  order_pressure = cents 10;
}

abbrev pub no_dates : String → Option Fixed
no_dates s = none

-- The microprice of the book
abbrev micro : Fixed
micro = dec 504 3

stopped_market_pulls_example :
    let p =
      (plan_from some_settings no_dates some_links
        (whole 100)
        "c1"
        market_entry
        a_book
        micro
        an_engine).0 in
    (p.regime ≡ halted) × (p.plan ≡ record { to_cancel = "o1" ∷ []; to_place = [] })
unfolding quotable_market usable_microprice best_bid best_ask microprice plan_market
stopped_market_pulls_example =
    stopped_market_pulls some_settings no_dates some_links (whole 100) "c1" market_entry a_book
      micro an_engine
      (plan_from some_settings no_dates some_links (whole 100) "c1" market_entry a_book micro
        an_engine).0
      (plan_from some_settings no_dates some_links (whole 100) "c1" market_entry a_book micro
        an_engine).1
      refl refl refl

abbrev pub some_answers : Answers Fixed
some_answers = record { cancel_ok = true; placed = []; open_orders = [] }

abbrev pub some_plan : Planned Fixed
some_plan = record {
  meta = a_market;
  profile = a_profile;
  regime = quiet;
  fv = cents 50;
  size_yes = whole 30;
  size_no = whole 0;
  live = an_order ∷ [];
  plan = record { to_cancel = "o1" ∷ []; to_place = a_quote ∷ [] };
}

placements_follow_cancels_example :
    All
      (λ (r : Request Fixed).
        (placed_by r ≡ [])
        ⊎ ((placed_by r ≡ a_quote ∷ [])
            × ((false ≡ true) ⊎ (true ≡ true))
            × (is_shed some_settings some_links some_plan ≡ false)))
      (carry_out some_settings some_links some_answers (whole 100) "c1" some_plan an_engine).0
placements_follow_cancels_example =
    placements_follow_cancels some_settings some_links some_answers (whole 100) "c1" some_plan
      an_engine

abbrev OfYes : OpenOrder Fixed → Type 0
OfYes o = o.token_id ≡ "yes"

recovery_adopts_reports_example :
    let e' =
      heartbeat_step some_settings
        (whole 100)
        true
        (pos 0)
        (λ cid. some (an_order ∷ []))
        an_engine in
    (e'.hb_was_down ≡ false)
    × All (λ (m : Market Fixed). m.dirty ≡ true) (values e'.markets)
    × All OfYes (values e'.state.orders)
recovery_adopts_reports_example =
    recovery_adopts_reports OfYes some_settings (whole 100) (pos 0) (λ cid. some (an_order ∷ []))
      an_engine refl (λ cid. (refl, tt))

abbrev some_chain : String → String → Option ℤ
some_chain rpc t = if t == "yes" then some (pos 25_000_000) else none

-- YES holds 30, the chain 25; a trade in NO is in flight.
check_divergence_lem_example :
    IsChecked some_chain
      ("rpc" ∷ [])
      an_engine
      an_engine
      (check_divergence (token_balances some_chain ("rpc" ∷ [])) an_engine an_engine)
      "yes"
check_divergence_lem_example =
    check_divergence_lem some_chain ("rpc" ∷ []) an_engine an_engine "yes"
