-- ===== src/Strategy/Pricing.antt =====
-- strategy/quoting.py: the price and size helpers of the quote construction.
pub mod Bids
pub mod Layers
use poly_maker.Prelude.{
  ℕ, zero, suc, ◌+◌, Bool, true, false, not, ◌&&◌, ◌||◌, Option, none, some, List, [], ◌∷◌, ◌++◌,
  String, if◌then◌else◌,
}
use poly_maker.Prelude.Int.{ℤ, pos, negsuc, ◌*ℤ◌}
use poly_maker.Float.{Float, num, dec, ◌⊕◌, ◌⊖◌, ◌⊗◌, ◌⊘◌, ◌≤?◌, ◌<?◌, fmin, fmax}
use poly_maker.Domain.{Side, sell, Regime, reduce_only, MarketMeta, Position, Quote}
use poly_maker.Book.{BookView}

-- `max(1, layers)`
abbrev pub layer_count : ℤ → ℕ
layer_count (pos zero) = 1
layer_count (pos (suc n)) = suc n
layer_count (negsuc n) = 1

abbrev is_reduce_only : Regime → Bool
is_reduce_only reduce_only = true
is_reduce_only _ = false

module _ {W : Type 0} ⦃f : Float W⦄ where
  -- `_clamp`
  abbrev pub clamp : W → W → W → W
  clamp x lo hi = fmin (fmax x lo) hi

  -- `int * tick`
  abbrev pub ticks : ℤ → W → W
  ticks n tick = f.of_int n ⊗ tick

  unfoldable pub round_to_tick : W → W → ℕ → Bool → W
  round_to_tick price tick decimals up =
      let n = price ⊘ tick in
      let k = if up then f.ceil (n ⊖ dec 1 9) else f.floor (n ⊕ dec 1 9) in
      let p = f.round (ticks k tick) decimals in fmin (fmax p tick) (num 1 ⊖ tick)

  -- `compute_fair_value` with its default weight of 0.5
  unfoldable pub compute_fair_value : W → W → W → W
  compute_fair_value microprice flow_z tick =
      let fv = microprice ⊕ dec 5 1 ⊗ flow_z ⊗ tick in fmin (fmax fv tick) (num 1 ⊖ tick)

  -- The price of `_place_bid` after the steps at the best bid
  unfoldable pub joined_price : W → Option W → W → W → ℤ → W
  joined_price target best_bid tick cap join_touch_ticks =
      let price = fmin target cap in
      elim best_bid [
        | none ↦ price
        | some bid ↦ if bid ⊖ ticks join_touch_ticks tick ≤? price then fmin bid cap else price
      ]

  -- The price of `_place_bid` before it is rounded to the tick grid
  unfoldable pub bid_price : W → BookView W → W → W → ℤ → ℤ → W
  unfolding joined_price
  bid_price target view tick fv min_edge_ticks join_touch_ticks =
      let cap = fv ⊖ ticks min_edge_ticks tick in
      let price = joined_price target view.best_bid tick cap join_touch_ticks in
      elim view.best_ask [ none ↦ price | some ask ↦ if ask ≤? price then ask ⊖ tick else price ]

  unfoldable pub place_bid : W → BookView W → W → ℕ → W → ℤ → ℤ → Option W
  unfolding round_to_tick bid_price
  place_bid target view tick decimals fv min_edge_ticks join_touch_ticks =
      let p =
        round_to_tick (bid_price target view tick fv min_edge_ticks join_touch_ticks) tick decimals
          false in
      if (p ≤? num 0) || (num 1 ≤? p) then none else some p

  unfoldable pub size_shares : W → W → W → MarketMeta W → W
  size_shares base_usdc price scale m =
      let shares = base_usdc ⊘ fmax price m.tick_size ⊗ fmax scale (num 0) in
      if num 0 <? shares then f.round shares 2 else num 0

  -- `round(total_size / layers, 2)`
  abbrev pub split_size : W → ℕ → W
  split_size total n = f.round (total ⊘ f.of_int (pos n)) 2

  -- The `while` loop of `_add_layers`: fewer layers while each is below half the reward floor
  unfoldable pub consolidate : W → W → ℕ → W → ℕ × W
  consolidate total floor (suc (suc n)) per =
      let fewer = consolidate total floor (suc n) (split_size total (suc n)) in
      if (num 0 <? floor) && (per <? dec 5 1 ⊗ floor) then fewer else (suc (suc n), per)
  consolidate total floor n per = (n, per)

  -- The number of layers and the size of each order, after the bump to the reward floor
  unfoldable pub layer_plan : W → ℤ → W → W → ℕ × W
  unfolding consolidate
  layer_plan total layers exchange_min reward_floor =
      let floor = fmax reward_floor exchange_min in
      let (n, per) =
        consolidate total floor (layer_count layers) (split_size total (layer_count layers)) in
      let bumped = (num 0 <? floor) && ((dec 5 1 ⊗ floor ≤? per) && (per <? floor)) in
      (n, if bumped then floor else per)

  -- The loop over the layers, with `n` of them left from number `i`
  unfoldable pub layer_quotes : String → Side → W → W → ℕ → ℤ → Bool → W → ℕ → ℕ → List (Quote W)
  layer_quotes token side top tick decimals step down per zero i = []
  layer_quotes token side top tick decimals step down per (suc n) i =
      let offset = ticks (pos i *ℤ step) tick in
      let price = f.round (if down then top ⊖ offset else top ⊕ offset) decimals in
      let rest = layer_quotes token side top tick decimals step down per n (i + 1) in
      if (num 0 <? price) && (price <? num 1)
      then record { token_id = token; side = side; price = price; size = per } ∷ rest
      else rest

  -- `_add_layers`: the quotes that it appends
  unfoldable pub add_layers : String → Side → W → W → ℕ → W → ℤ → ℤ → Bool → W → W → List (Quote W)
  unfolding layer_plan layer_quotes
  add_layers token side top tick decimals total layers step down exchange_min reward_floor =
      let (n, per) = layer_plan total layers exchange_min reward_floor in
      if total ≤? num 0
      then []
      else if (per <? exchange_min) || (per ≤? num 0)
      then []
      else layer_quotes token side top tick decimals step down per n 0

  -- The price of `_maybe_exit` before it is rounded
  unfoldable pub exit_price : W → W → Option W → W → W → Regime → W
  exit_price token_fv delta best_bid tick urgency regime =
      let passive = token_fv ⊕ delta in
      let urgency' = if is_reduce_only regime then fmax urgency (dec 5 1) else urgency in
      let blend = λ (floor : W). passive ⊗ (num 1 ⊖ urgency') ⊕ floor ⊗ urgency' in
      elim best_bid [ none ↦ blend passive | some bid ↦ fmax (blend (bid ⊕ tick)) (bid ⊕ tick) ]

  -- `_maybe_exit`: the quotes that it appends
  unfoldable pub maybe_exit :
      String → Position W → W → W → BookView W → W → ℕ → W → MarketMeta W → Regime → List (Quote W)
  unfolding exit_price round_to_tick
  maybe_exit token p token_fv delta view tick decimals urgency m regime =
      let price =
        round_to_tick (exit_price token_fv delta view.best_bid tick urgency regime) tick decimals
          true in
      let size = f.of_int (f.floor (p.size ⊗ num 100)) ⊘ num 100 in
      if p.size <? m.min_order_size
      then []
      else if (num 0 <? price) && (price <? num 1) && (m.min_order_size ≤? size)
      then record { token_id = token; side = sell; price = price; size = size } ∷ []
      else []
