-- ===== src/Tests.antt =====
-- Concrete inputs, in fixed-point numbers, on which the theorems apply.
mod Books
mod Quotes
mod Stores
mod Engines
mod Feeds
mod Wire
mod Catalogs
mod Merges
mod Starts
mod Resolved
mod Runs
use poly_maker.Prelude.{ℕ, Bool, true, false, Option, none, some, List, [], ◌∷◌, String}
use poly_maker.Prelude.Int.{ℤ, pos}
use poly_maker.Float.{dec}
use poly_maker.Float.Fixed.{Fixed, fixed_float}
use poly_maker.Domain.{Side, buy, sell, MarketMeta, Position, OpenOrder, live, Fill, Quote, flat}
use poly_maker.Config.{EngineConfig, RiskConfig, StrategyProfile}
use poly_maker.Book.{OrderBook, BookView, empty_view}
use poly_maker.State.Store.{StateStore}

abbrev pub cents : ℕ → Fixed
cents n = dec n 2

abbrev pub whole : ℕ → Fixed
whole n = dec n 0

abbrev pub a_market : MarketMeta Fixed
a_market = record {
  condition_id = "c1";
  question = "q";
  slug = "s";
  tokens =
      (record { token_id = "yes"; outcome = "Yes" }, record { token_id = "no"; outcome = "No" });
  tick_size = cents 1;
  neg_risk = false;
  min_order_size = whole 5;
  rewards_min_size = whole 20;
  rewards_max_spread = whole 3;
  rewards_daily_rate = whole 1;
  maker_fee_bps = pos 0;
  taker_fee_bps = pos 0;
  fees_enabled = false;
  end_date_iso = none;
  event_id = some "e1";
  rebate_rate = whole 0;
  best_bid = cents 48;
  best_ask = cents 52;
  liquidity_num = whole 0;
  volume_num = whole 0;
  volume_24hr = whole 0;
}

abbrev pub a_profile : StrategyProfile Fixed
a_profile = record {
  micro_levels = pos 3;
  flow_ewma_halflife_s = whole 60;
  gamma = whole 1;
  delta_min_ticks = pos 2;
  c_vol = whole 1;
  c_tox = whole 1;
  vol_short_halflife_s = whole 60;
  vol_long_halflife_s = whole 600;
  base_size_usdc = whole 20;
  q_max_usdc = whole 100;
  q_soft_frac = cents 60;
  layers = pos 2;
  layer_step_ticks = pos 1;
  reward_size_mult = whole 1;
  reprice_ticks = pos 1;
  resize_frac = cents 20;
  min_edge_ticks = pos 1;
  join_touch_ticks = pos 2;
  equal_share_entries = true;
  event_cooloff_s = whole 30;
  event_jump_ticks = pos 5;
  event_sweep_levels = pos 3;
  event_sweep_mult = whole 2;
  event_sweep_frac = cents 50;
  trend_flow_z = cents 60;
  trend_vol_ratio = whole 2;
  end_date_taper_days = whole 3;
  reduce_only_hours = whole 24;
  halt_before_hours = whole 1;
  exit_urgency_s = whole 600;
  merge_min_size = whole 10;
}

abbrev pub a_risk_config : RiskConfig Fixed
a_risk_config = record {
  max_total_exposure_usdc = whole 500;
  max_event_group_loss_usdc = whole 200;
  max_market_notional_usdc = whole 100;
  daily_loss_kill_usdc = whole 50;
  ws_stale_halt_s = whole 30;
  user_ws_blind_halt_s = whole 30;
  heartbeat_halt_failures = pos 3;
  max_order_error_rate = cents 50;
}

abbrev pub a_book : OrderBook Fixed (List (Fixed × Fixed))
a_book = record {
  bids = (cents 48, whole 10) ∷ (cents 47, whole 20) ∷ [];
  asks = (cents 52, whole 15) ∷ (cents 53, whole 5) ∷ [];
  tick_size = cents 1;
  last_update_ts = whole 1;
  local_ts = whole 1;
  book_hash = none;
}

abbrev pub a_view : BookView Fixed
a_view = record empty_view {
  best_bid = some (cents 48);
  best_bid_size = whole 10;
  best_ask = some (cents 52);
  best_ask_size = whole 15;
}

abbrev pub an_order : OpenOrder Fixed
an_order = record {
  order_id = "o1";
  token_id = "yes";
  side = buy;
  price = cents 47;
  size = whole 20;
  state = live;
  created_ts = whole 50;
}

abbrev pub a_fill : Fill Fixed
a_fill = record {
  token_id = "yes";
  side = buy;
  price = cents 40;
  size = whole 10;
  trade_id = "t1";
  ts = whole 100;
  is_maker = true;
}

abbrev pub a_quote : Quote Fixed
a_quote = record { token_id = "yes"; side = buy; price = cents 47; size = whole 20 }

abbrev pub a_position : Position Fixed
a_position = record { token_id = "yes"; size = whole 30; avg_price = cents 40 }

-- A position of 30 YES, an order on YES, and a trade in flight on NO
abbrev pub a_store : StateStore Fixed
a_store = record {
  positions = ("yes", a_position) ∷ [];
  orders = ("o1", an_order) ∷ [];
  inflight = ("no", 1) ∷ [];
  inflight_ts = ("no", whole 90) ∷ [];
  last_fill_ts = [];
  fills = [];
  position_rows = [];
  order_rows = [];
  pnl_rows = [];
}
