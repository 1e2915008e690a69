-- ===== src/Strategy/Estimators.antt =====
-- strategy/estimators.py: the time-decayed estimators of volatility, flow and toxicity.
pub mod Markouts
use poly_maker.Prelude.{
  Bool, true, false, Option, none, some, List, [], ◌∷◌, ◌++◌, if◌then◌else◌, ◌>>=◌,
}
use poly_maker.Float.{Float, num, dec, ◌⊕◌, ◌⊖◌, ◌⊗◌, ◌⊘◌, ◌≤?◌, ◌<?◌, fmax, fabs}
use poly_maker.Domain.{Side, is_buy}
use poly_maker.Config.{StrategyProfile}

pub record Ewma (W : Type 0) : Type 0 where
  pub halflife : W
  pub value : W
  pub last_ts : W
  pub initialized : Bool

module _ {W : Type 0} ⦃f : Float W⦄ where
  -- `Ewma(halflife_s)`; `none` is the `ValueError`.
  unfoldable pub new_ewma : W → Option (Ewma W)
  new_ewma h =
      if h ≤? num 0
      then none
      else some (record { halflife = h; value = num 0; last_ts = num 0; initialized = false })

  -- `0.5 ** (dt / halflife)`, for the time since the last update
  abbrev pub decay_factor : Ewma W → W → W
  decay_factor e ts = f.pow (dec 5 1) (fmax (num 0) (ts ⊖ e.last_ts) ⊘ e.halflife)

  -- `Ewma.update`
  unfoldable pub update : W → W → Ewma W → Ewma W
  update value ts e =
      let decay = decay_factor e ts in
      if e.initialized
      then record e { value = decay ⊗ e.value ⊕ (num 1 ⊖ decay) ⊗ value; last_ts = ts }
      else record e { value = value; last_ts = ts; initialized = true }

  -- `Ewma.decay_to`
  unfoldable pub decay_to : W → Ewma W → Ewma W
  decay_to ts e =
      if e.initialized then record e { value = e.value ⊗ decay_factor e ts; last_ts = ts } else e

pub record VolEstimator (W : Type 0) : Type 0 where
  pub short_ewma : Ewma W
  pub long_ewma : Ewma W
  pub last_fv : Option W
  pub last_ts : W

pub record FlowEstimator (W : Type 0) : Type 0 where
  pub signed_ewma : Ewma W
  pub abs_ewma : Ewma W

pub record PendingMarkout (W : Type 0) : Type 0 where
  pub fv_at_fill : W
  pub side : Side
  pub due_ts : W

pub record MarkoutTracker (W : Type 0) : Type 0 where
  pub horizon_s : W
  pub pending : List (PendingMarkout W)
  pub markout : Ewma W

pub record MarketEstimators (W : Type 0) : Type 0 where
  pub vol : VolEstimator W
  pub flow : FlowEstimator W
  pub markout : MarkoutTracker W
  pub last_fv : Option W
  pub last_fv_ts : W

module _ {W : Type 0} ⦃f : Float W⦄ where
  -- `VolEstimator.update`
  unfoldable pub update_vol : W → W → VolEstimator W → VolEstimator W
  update_vol fv ts v = elim v.last_fv [
    | none ↦ record v { last_fv = some fv; last_ts = ts }
    | some prev ↦
        let r = fv ⊖ prev in
        record v {
          short_ewma = update (r ⊗ r) ts v.short_ewma;
          long_ewma = update (r ⊗ r) ts v.long_ewma;
          last_fv = some fv;
          last_ts = ts;
        }
  ]

  abbrev pub vol_short : VolEstimator W → W
  vol_short v = f.sqrt (fmax (num 0) v.short_ewma.value)

  abbrev pub vol_long : VolEstimator W → W
  vol_long v = f.sqrt (fmax (num 0) v.long_ewma.value)

  abbrev pub vol_ratio : VolEstimator W → W
  vol_ratio v = if dec 1 9 <? vol_long v then vol_short v ⊘ vol_long v else num 1

  -- `FlowEstimator.update`
  unfoldable pub update_flow : Side → W → W → FlowEstimator W → FlowEstimator W
  update_flow aggressor size ts e = record e {
    signed_ewma = update (if is_buy aggressor then size else f.neg size) ts e.signed_ewma;
    abs_ewma = update (fabs size) ts e.abs_ewma;
  }

  -- `FlowEstimator.decay_to`
  unfoldable pub decay_flow : W → FlowEstimator W → FlowEstimator W
  decay_flow ts e = record e {
    signed_ewma = decay_to ts e.signed_ewma;
    abs_ewma = decay_to ts e.abs_ewma;
  }

  abbrev pub flow_z : FlowEstimator W → W
  flow_z e = if dec 1 9 <? e.abs_ewma.value then e.signed_ewma.value ⊘ e.abs_ewma.value else num 0

  -- `MarkoutTracker.record_fill`
  unfoldable pub record_fill : Side → W → W → MarkoutTracker W → MarkoutTracker W
  record_fill side fv_at_fill ts m = record m {
    pending =
        m.pending
        ++ (record { fv_at_fill = fv_at_fill; side = side; due_ts = ts ⊕ m.horizon_s } ∷ []);
  }

  -- The markout of a fill: positive when the fair value moved our way
  abbrev pub signed_markout : W → PendingMarkout W → W
  signed_markout fv_now p =
      let move = fv_now ⊖ p.fv_at_fill in if is_buy p.side then move else f.neg move

  -- The loop of `evaluate`: the pending markouts that stay, and the mean updated with the others
  unfoldable pub resolve :
      W → W → List (PendingMarkout W) → Ewma W → List (PendingMarkout W) × Ewma W
  resolve fv_now ts [] e = ([], e)
  resolve fv_now ts (p ∷ ps) e =
      let due = p.due_ts ≤? ts in
      let (still, e') =
        resolve fv_now ts ps (if due then update (signed_markout fv_now p) ts e else e) in
      (if due then still else p ∷ still, e')

  -- `MarkoutTracker.evaluate`
  unfoldable pub evaluate : W → W → MarkoutTracker W → MarkoutTracker W
  evaluate fv_now ts m =
      let (still, e) = resolve fv_now ts m.pending m.markout in
      record m { pending = still; markout = e }

  abbrev pub toxicity : MarkoutTracker W → W
  toxicity m = fmax (num 0) (f.neg m.markout.value)

  -- `MarketEstimators.on_fair_value`
  unfoldable pub on_fair_value : W → W → MarketEstimators W → MarketEstimators W
  on_fair_value fv ts e = record e {
    vol = update_vol fv ts e.vol;
    markout = evaluate fv ts e.markout;
    last_fv = some fv;
    last_fv_ts = ts;
  }

  -- `VolEstimator(short, long)`, `FlowEstimator(h)`, `MarkoutTracker()`; `none` is the `ValueError`.
  unfoldable pub make_estimators : StrategyProfile W → Option (MarketEstimators W)
  unfolding new_ewma
  make_estimators p = do
    short ← new_ewma p.vol_short_halflife_s
    long ← new_ewma p.vol_long_halflife_s
    signed ← new_ewma p.flow_ewma_halflife_s
    abs ← new_ewma p.flow_ewma_halflife_s
    markout ← new_ewma (num 1800)
    some (record {
      vol = record { short_ewma = short; long_ewma = long; last_fv = none; last_ts = num 0 };
      flow = record { signed_ewma = signed; abs_ewma = abs };
      markout = record { horizon_s = num 300; pending = []; markout = markout };
      last_fv = none;
      last_fv_ts = num 0;
    })
