-- ===== src/Strategy/Regime.antt =====
-- strategy/regime.py: the per-market regime decision and its EVENT cool-off.
pub mod Safety
use poly_maker.Prelude.{Bool, false, ◌&&◌, ◌||◌, Option, none, some, if◌then◌else◌}
use poly_maker.Float.{Float, num, ◌⊕◌, ◌⊖◌, ◌⊘◌, ◌≤?◌, ◌<?◌, fmax, fabs}
use poly_maker.Domain.{Regime, quiet, trending, event, reduce_only, halted}
use poly_maker.Config.{StrategyProfile}

pub record RegimeInputs (W : Type 0) : Type 0 where
  pub now : W
  pub tick : W
  pub fv : W
  pub prev_fv : Option W
  pub vol_ratio : W
  pub flow_z : W
  pub inventory_util : W
  pub hours_to_end : Option W
  pub sweep_flagged : Bool
  pub market_resolved : Bool
  pub ws_stale : Bool
  pub risk_halt : Bool
  pub risk_reduce_only : Bool

-- `_event_until`
pub record RegimeMachine (W : Type 0) : Type 0 where
  pub event_until : W

module _ {W : Type 0} ⦃f : Float W⦄ where
  abbrev pub new_machine : RegimeMachine W
  new_machine = record { event_until = num 0 }

  -- `hours is not None and hours <= limit`
  abbrev pub ends_within : Option W → W → Bool
  ends_within none limit = false
  ends_within (some hours) limit = hours ≤? limit

  abbrev pub jump_ticks : RegimeInputs W → W
  jump_ticks inp = elim inp.prev_fv [ none ↦ num 0 | some prev ↦ fabs (inp.fv ⊖ prev) ⊘ inp.tick ]

  -- A fresh sweep, or a jump of the fair value
  abbrev pub is_event : RegimeInputs W → StrategyProfile W → Bool
  is_event inp p = inp.sweep_flagged || (f.of_int p.event_jump_ticks ≤? jump_ticks inp)

  -- The regime, and the machine afterwards
  unfoldable pub decide :
      RegimeInputs W → StrategyProfile W → RegimeMachine W → Regime × RegimeMachine W
  decide inp p m =
      if inp.risk_halt || inp.ws_stale || inp.market_resolved
      then (halted, m)
      else if ends_within inp.hours_to_end p.halt_before_hours
      then (halted, m)
      else if is_event inp p
      then (event, record m { event_until = inp.now ⊕ p.event_cooloff_s })
      else if inp.now <? m.event_until
      then (event, m)
      else if inp.risk_reduce_only || (num 1 ≤? inp.inventory_util)
      then (reduce_only, m)
      else if ends_within inp.hours_to_end p.reduce_only_hours
      then (reduce_only, m)
      else if (p.trend_flow_z ≤? fabs inp.flow_z) || (p.trend_vol_ratio ≤? inp.vol_ratio)
      then (trending, m)
      else (quiet, m)

  abbrev pub in_cooloff : RegimeMachine W → Bool
  in_cooloff m = num 0 <? m.event_until

  unfoldable pub cooloff_remaining : RegimeMachine W → W → W
  cooloff_remaining m now = fmax (num 0) (m.event_until ⊖ now)
