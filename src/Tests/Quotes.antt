-- ===== src/Tests/Quotes.antt =====
-- The theorems on prices, layers, quotes, regimes and markouts, at concrete inputs.
use poly_maker.Prelude.{◌≤◌, ◌≡◌, ◌⊎◌, refl, true, false, some, All}
use poly_maker.Prelude.Int.{pos}
use poly_maker.Float.{◌⊖◌, ◌⊗◌, ◌≼◌, ◌<?◌, ◌≤?◌, num, dec}
use poly_maker.Float.Fixed.{Fixed, fixed_float, Fixed-IsOrdered, Fixed-IsMonotone}
use poly_maker.Domain.{sell, quiet, Quote, no_token, yes_token, flat}
use poly_maker.Strategy.Pricing.{ticks, bid_price, layer_plan}
use poly_maker.Strategy.Pricing.Bids.{bid_price_rules}
use poly_maker.Strategy.Pricing.Layers.{layer_plan_reaches_floor}
use poly_maker.Strategy.Quoting.{QuoteInputs, inventory_share, construct_quotes}
use poly_maker.Strategy.Quoting.Inventory.{buys_stop_at_cap}
use poly_maker.Strategy.Regime.{RegimeInputs, new_machine, decide, ends_within, is_event}
use poly_maker.Strategy.Regime.Safety.{quoting_is_safe}
use poly_maker.Tests.{cents, whole, a_market, a_profile, a_view, a_position}

bid_price_rules_example :
    (bid_price (cents 46) a_view (cents 1) (cents 50) (pos 1) (pos 2)
      ≼ cents 50 ⊖ ticks (pos 1) (cents 1))
    × (bid_price (cents 46) a_view (cents 1) (cents 50) (pos 1) (pos 2) ≼ cents 48)
    × (((bid_price (cents 46) a_view (cents 1) (cents 50) (pos 1) (pos 2) <? cents 52) ≡ true)
        ⊎ (bid_price (cents 46) a_view (cents 1) (cents 50) (pos 1) (pos 2) ≡ cents 52 ⊖ cents 1))
bid_price_rules_example =
    bid_price_rules Fixed-IsOrdered Fixed-IsMonotone (cents 46) a_view (cents 1) (cents 50) (pos 1)
      (pos 2) refl refl

layer_plan_reaches_floor_example :
    let (n, per) = layer_plan (whole 70) (pos 3) (whole 5) (whole 30) in
    (1 ≤ n) × (n ≤ 3) × ((whole 30 ≼ per) ⊎ ((n ≡ 1) × ((per <? dec 5 1 ⊗ whole 30) ≡ true)))
layer_plan_reaches_floor_example =
    layer_plan_reaches_floor Fixed-IsOrdered (whole 70) (pos 3) (whole 5) (whole 30) refl

abbrev some_inputs : QuoteInputs Fixed
some_inputs = record {
  meta = a_market;
  regime = quiet;
  fv = cents 50;
  vol_short = dec 1 3;
  toxicity = whole 0;
  yes_view = a_view;
  no_view = a_view;
  pos_yes = a_position;
  pos_no = flat "no";
  profile = a_profile;
  now = whole 100;
  risk_size_scale = whole 1;
  yes_exit_urgency = whole 0;
  no_exit_urgency = whole 0;
}

buys_stop_at_cap_example :
    (((inventory_share some_inputs <? cents 60) ≡ true)
      ⊎ All
          (λ (q : Quote Fixed). (q.side ≡ sell) ⊎ (q.token_id ≡ no_token a_market))
          (construct_quotes some_inputs).quotes)
    × (((fixed_float.neg (cents 60) <? inventory_share some_inputs) ≡ true)
        ⊎ All
            (λ (q : Quote Fixed). (q.side ≡ sell) ⊎ (q.token_id ≡ yes_token a_market))
            (construct_quotes some_inputs).quotes)
buys_stop_at_cap_example = buys_stop_at_cap some_inputs

abbrev calm_inputs : RegimeInputs Fixed
calm_inputs = record {
  now = whole 100;
  tick = cents 1;
  fv = cents 50;
  prev_fv = some (cents 50);
  vol_ratio = whole 1;
  flow_z = whole 0;
  inventory_util = cents 10;
  hours_to_end = some (whole 100);
  sweep_flagged = false;
  market_resolved = false;
  ws_stale = false;
  risk_halt = false;
  risk_reduce_only = false;
}

quoting_is_safe_example :
    (false ≡ false)
    × (false ≡ false)
    × (false ≡ false)
    × (false ≡ false)
    × ((num 1 ≤? cents 10) ≡ false)
    × (ends_within calm_inputs.hours_to_end (whole 1) ≡ false)
    × (ends_within calm_inputs.hours_to_end (whole 24) ≡ false)
    × (is_event calm_inputs a_profile ≡ false)
    × ((whole 100 <? num 0) ≡ false)
    × ((decide calm_inputs a_profile new_machine).1 ≡ new_machine)
unfolding decide
quoting_is_safe_example = quoting_is_safe calm_inputs a_profile new_machine refl
