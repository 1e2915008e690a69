-- ===== src/Risk.antt =====
-- risk/manager.py: the marks and cash behind the profit and loss, the kill switches, and the
-- decision of the risk manager on one market.
pub mod Switches
pub mod Decisions
use poly_maker.Prelude.{
  ℕ, ◌+◌, Bool, true, false, ◌&&◌, ◌||◌, Option, none, some, List, [], ◌∷◌, String, if◌then◌else◌,
  leb, get_or,
}
use poly_maker.Prelude.Int.{pos}
use poly_maker.Prelude.Eq.{Eq, ◌==◌, string_eq}
use poly_maker.Float.{Float, num, dec, ◌⊕◌, ◌⊖◌, ◌⊗◌, ◌⊘◌, ◌≤?◌, ◌<?◌, ◌=?◌, fmin, fmax}
use poly_maker.Dict.{Dict, lookup, lookup_or, insert}
use poly_maker.Domain.{Side, is_buy, MarketMeta, Position, Fill, yes_token, no_token}
use poly_maker.Config.{RiskConfig}
use poly_maker.State.Store.{StateStore, position}

-- The reason string, with the number that it prints
pub data Reason (W : Type 0) : Type 0 where
  no_reason : Reason W
  manual_kill : Reason W
  daily_loss : W → Reason W
  order_error_rate : W → Reason W
  stale_feed : Reason W
  market_cap : Reason W
  event_group_cap : Reason W
  total_exposure_cap : Reason W

pub record RiskDecision (W : Type 0) : Type 0 where
  pub halt : Bool
  pub reduce_only : Bool
  pub size_scale : W
  pub reason : Reason W

-- The settings and the store, which other parts own, are arguments of the operations.
pub record RiskManager (W : Type 0) : Type 0 where
  pub marks : Dict String W
  pub net_cash : W
  pub day_start_equity : W
  pub killed : Bool
  pub order_attempts : ℕ
  pub order_errors : ℕ

module _ {W : Type 0} ⦃f : Float W⦄ where
  abbrev pub new_manager : RiskManager W
  new_manager = record {
    marks = [];
    net_cash = num 0;
    day_start_equity = num 0;
    killed = false;
    order_attempts = 0;
    order_errors = 0;
  }

  unfoldable pub note_fill : Fill W → RiskManager W → RiskManager W
  note_fill fill r =
      let sign = if is_buy fill.side then f.neg (num 1) else num 1 in
      record r { net_cash = r.net_cash ⊕ fill.price ⊗ fill.size ⊗ sign }

  unfoldable pub update_mark : String → W → RiskManager W → RiskManager W
  update_mark token fv r = record r { marks = insert token fv r.marks }

  -- The loop of `_inventory_value` over the positions, from a running total
  unfoldable pub inventory_value : RiskManager W → Dict String (Position W) → W → W
  inventory_value r [] total = total
  inventory_value r ((t, p) ∷ d) total =
      inventory_value r d
        (if num 0 <? p.size then total ⊕ p.size ⊗ lookup_or t p.avg_price r.marks else total)

  unfoldable pub equity : RiskManager W → StateStore W → W
  unfolding inventory_value
  equity r s = r.net_cash ⊕ inventory_value r s.positions (num 0)

  unfoldable pub daily_pnl : RiskManager W → StateStore W → W
  unfolding equity
  daily_pnl r s = equity r s ⊖ r.day_start_equity

  unfoldable pub reset_day : StateStore W → RiskManager W → RiskManager W
  unfolding equity
  reset_day s r = record r { day_start_equity = equity r s }

  unfoldable pub note_order_result : Bool → RiskManager W → RiskManager W
  note_order_result ok r = record r {
    order_attempts = r.order_attempts + 1;
    order_errors = if ok then r.order_errors else r.order_errors + 1;
  }

  unfoldable pub error_rate : RiskManager W → W
  error_rate r =
      if leb 20 r.order_attempts
      then f.of_int (pos r.order_errors) ⊘ f.of_int (pos r.order_attempts)
      else num 0

  unfoldable pub global_halt : RiskConfig W → RiskManager W → StateStore W → Bool × Reason W
  unfolding daily_pnl error_rate
  global_halt cfg r s =
      if r.killed
      then (true, manual_kill)
      else if daily_pnl r s ≤? f.neg cfg.daily_loss_kill_usdc
      then (true, daily_loss (daily_pnl r s))
      else if cfg.max_order_error_rate ≤? error_rate r
      then (true, order_error_rate (error_rate r))
      else (false, no_reason)

  unfoldable pub kill : RiskManager W → RiskManager W
  kill r = record r { killed = true }

  -- `self._marks.get(tok, pos.avg_price or 0.5)`
  abbrev pub mark_of : RiskManager W → String → Position W → W
  mark_of r t p = lookup_or t (if p.avg_price =? num 0 then dec 5 1 else p.avg_price) r.marks

  unfoldable pub market_notional : MarketMeta W → RiskManager W → StateStore W → W
  market_notional m r s =
      let y = position (yes_token m) s in
      let n = position (no_token m) s in
      num 0 ⊕ y.size ⊗ mark_of r (yes_token m) y ⊕ n.size ⊗ mark_of r (no_token m) n

  -- The loop of `_total_exposure` over the positions, from a running total
  unfoldable pub total_exposure : RiskManager W → Dict String (Position W) → W → W
  total_exposure r [] total = total
  total_exposure r ((t, p) ∷ d) total =
      total_exposure r d (if num 0 <? p.size then total ⊕ p.size ⊗ mark_of r t p else total)

  unfoldable pub headroom : W → W → W
  headroom current cap =
      let frac = current ⊘ cap in
      if cap ≤? num 0
      then num 1
      else if frac ≤? dec 7 1
      then num 1
      else fmax (num 0) ((num 1 ⊖ frac) ⊘ dec 3 1)

  abbrev pub decision : Bool → Bool → W → Reason W → RiskDecision W
  decision halt reduce scale why = record {
    halt = halt;
    reduce_only = reduce;
    size_scale = scale;
    reason = why;
  }

  -- What `evaluate` decides of a market that is not halted, from its three sums
  unfoldable pub decide_caps : RiskConfig W → W → W → W → RiskDecision W
  unfolding headroom
  decide_caps cfg notional exposure group_cost =
      if cfg.max_market_notional_usdc ≤? notional
      then decision false true (num 1) market_cap
      else if cfg.max_event_group_loss_usdc ≤? group_cost
      then decision false true (num 1) event_group_cap
      else if cfg.max_total_exposure_usdc ≤? exposure
      then decision false true (num 1) total_exposure_cap
      else decision false false
          (fmin
            (fmin (headroom notional cfg.max_market_notional_usdc)
              (headroom exposure cfg.max_total_exposure_usdc))
            (headroom group_cost cfg.max_event_group_loss_usdc))
          no_reason

  unfoldable pub evaluate :
      RiskConfig W → MarketMeta W → Bool → W → RiskManager W → StateStore W → RiskDecision W
  unfolding global_halt market_notional total_exposure decide_caps
  evaluate cfg m ws_stale group_cost r s =
      let (halted, why) = global_halt cfg r s in
      if halted
      then decision true false (num 0) why
      else if ws_stale
      then decision true false (num 0) stale_feed
      else decide_caps cfg (market_notional m r s) (total_exposure r s.positions (num 0)) group_cost
