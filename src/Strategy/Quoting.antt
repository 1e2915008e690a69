-- ===== src/Strategy/Quoting.antt =====
-- strategy/quoting.py: `construct_quotes`.
pub mod Quotes
pub mod Inventory
use poly_maker.Prelude.{
  ℕ, Bool, true, false, not, ◌&&◌, ◌||◌, Option, none, some, List, [], ◌∷◌, ◌++◌, String,
  if◌then◌else◌,
}
use poly_maker.Float.{Float, num, dec, ◌⊕◌, ◌⊖◌, ◌⊗◌, ◌⊘◌, ◌≤?◌, ◌<?◌, fmin, fmax}
use poly_maker.Domain.{
  Side, buy, Regime, quiet, trending, event, reduce_only, halted, MarketMeta, Position, Quote,
  TargetQuotes, yes_token, no_token, price_decimals,
}
use poly_maker.Config.{StrategyProfile}
use poly_maker.Book.{BookView}
use poly_maker.Strategy.Pricing.{clamp, ticks, place_bid, size_shares, add_layers, maybe_exit}

pub record QuoteInputs (W : Type 0) : Type 0 where
  pub meta : MarketMeta W
  pub regime : Regime
  pub fv : W
  pub vol_short : W
  pub toxicity : W
  pub yes_view : BookView W
  pub no_view : BookView W
  pub pos_yes : Position W
  pub pos_no : Position W
  pub profile : StrategyProfile W
  pub now : W
  pub risk_size_scale : W
  pub yes_exit_urgency : W
  pub no_exit_urgency : W

abbrev pub is_pulled : Regime → Bool
is_pulled event = true
is_pulled halted = true
is_pulled _ = false

abbrev is_quiet : Regime → Bool
is_quiet quiet = true
is_quiet _ = false

abbrev is_trending : Regime → Bool
is_trending trending = true
is_trending _ = false

abbrev pub adds_inventory : Regime → Bool
adds_inventory reduce_only = false
adds_inventory _ = true

module _ {W : Type 0} ⦃f : Float W⦄ where
  -- `u`, the net inventory as a share of its cap
  unfoldable pub inventory_share : QuoteInputs W → W
  inventory_share inp =
      let net_shares = inp.pos_yes.size ⊖ inp.pos_no.size in
      let q_max_shares = inp.profile.q_max_usdc ⊘ fmax inp.fv inp.meta.tick_size in
      if num 0 <? q_max_shares
      then clamp (net_shares ⊘ q_max_shares) (f.neg (num 1)) (num 1)
      else num 0

  unfoldable pub half_spread : QuoteInputs W → W
  half_spread inp =
      let p = inp.profile in
      let tick = inp.meta.tick_size in
      let base = ticks p.delta_min_ticks tick in
      let delta = base ⊕ p.c_vol ⊗ inp.vol_short ⊕ p.c_tox ⊗ inp.toxicity in
      let reward_band = inp.meta.rewards_max_spread ⊘ num 100 in
      let banded =
        if is_quiet inp.regime && (num 0 <? reward_band)
        then clamp delta base (fmax base reward_band)
        else delta in
      fmax banded tick

  -- `r`
  unfoldable pub reservation : QuoteInputs W → W
  unfolding inventory_share
  reservation inp = inp.fv ⊖ inp.profile.gamma ⊗ inp.vol_short ⊗ inventory_share inp

  unfoldable pub common_scale : QuoteInputs W → W
  common_scale inp =
      let regime_scale = if is_trending inp.regime then dec 5 1 else num 1 in
      let tox_scale = num 1 ⊘ (num 1 ⊕ inp.toxicity ⊗ num 10) in
      regime_scale ⊗ tox_scale ⊗ clamp inp.risk_size_scale (num 0) (num 1)

  -- The price and shares of an entry; `lean` is the share of the cap that the entry adds to.
  abbrev pub sized : QuoteInputs W → W → Option W → Option (W × W)
  sized inp lean none = none
  sized inp lean (some price) =
      let scale = common_scale inp ⊗ (num 1 ⊖ fmax lean (num 0)) in
      some (price, size_shares inp.profile.base_size_usdc price scale inp.meta)

  unfoldable pub yes_entry : QuoteInputs W → Option (W × W)
  unfolding inventory_share half_spread reservation common_scale
  yes_entry inp =
      let p = inp.profile in
      let u = inventory_share inp in
      let price =
        place_bid (reservation inp ⊖ half_spread inp) inp.yes_view inp.meta.tick_size
          (price_decimals inp.meta) inp.fv p.min_edge_ticks p.join_touch_ticks in
      if adds_inventory inp.regime && (u <? p.q_soft_frac) then sized inp u price else none

  unfoldable pub no_entry : QuoteInputs W → Option (W × W)
  unfolding inventory_share half_spread reservation common_scale
  no_entry inp =
      let p = inp.profile in
      let u = inventory_share inp in
      let price =
        place_bid (num 1 ⊖ reservation inp ⊖ half_spread inp) inp.no_view inp.meta.tick_size
          (price_decimals inp.meta) (num 1 ⊖ inp.fv) p.min_edge_ticks p.join_touch_ticks in
      if adds_inventory inp.regime && (f.neg p.q_soft_frac <? u)
      then sized inp (f.neg u) price
      else none

  -- Both entries cut to the smaller share count, if there are two and the profile says so
  abbrev pub equalize : Bool → Option (W × W) → Option (W × W) → Option (W × W) × Option (W × W)
  equalize true (some (py, sy)) (some (pn, sn)) =
      let shared = fmin sy sn in (some (py, shared), some (pn, shared))
  equalize _ y n = (y, n)

  unfoldable pub entry_layers : QuoteInputs W → String → Option (W × W) → List (Quote W)
  entry_layers inp token none = []
  entry_layers inp token (some (price, shares)) =
      let m = inp.meta in
      let p = inp.profile in
      add_layers token buy price m.tick_size (price_decimals m) shares p.layers p.layer_step_ticks
        true m.min_order_size (m.rewards_min_size ⊗ p.reward_size_mult)

  unfoldable pub entry_quotes : QuoteInputs W → List (Quote W)
  unfolding entry_layers
  entry_quotes inp =
      let (y, n) = equalize inp.profile.equal_share_entries (yes_entry inp) (no_entry inp) in
      entry_layers inp (yes_token inp.meta) y ++ entry_layers inp (no_token inp.meta) n

  unfoldable pub exit_quotes : QuoteInputs W → List (Quote W)
  exit_quotes inp =
      let m = inp.meta in
      let delta = half_spread inp in
      maybe_exit (yes_token m) inp.pos_yes inp.fv delta inp.yes_view m.tick_size (price_decimals m)
        inp.yes_exit_urgency m inp.regime
      ++ maybe_exit (no_token m) inp.pos_no (num 1 ⊖ inp.fv) delta inp.no_view m.tick_size
          (price_decimals m) inp.no_exit_urgency m inp.regime

  unfoldable pub construct_quotes : QuoteInputs W → TargetQuotes W
  construct_quotes inp = record {
    condition_id = inp.meta.condition_id;
    regime = inp.regime;
    quotes = if is_pulled inp.regime then [] else entry_quotes inp ++ exit_quotes inp;
  }
