-- ===== src/Tests/Stores.antt =====
-- The theorems on the store, the event processor and the reconciler, at concrete inputs.
use poly_maker.Prelude.{
  arith, ◌+◌, ◌≡◌, ◌⊎◌, refl, true, false, ◌&&◌, not, none, some, List, [], ◌∷◌, String, length,
}
use poly_maker.Prelude.Int.{pos}
use poly_maker.Prelude.Eq.{string_eq}
use poly_maker.Float.{◌⊖◌, ◌<?◌}
use poly_maker.Float.Fixed.{Fixed, fixed_float, Fixed-IsOrdered, Fixed-IsMonotone}
use poly_maker.Dict.{Dict, lookup, contains, member, AllDistinct}
use poly_maker.Domain.{Fill, TargetQuotes, quiet, buy, matched}
use poly_maker.Execution.Reconcile.{Tolerances, reconcile}
use poly_maker.Execution.Reconcile.Matched.{Matched}
use poly_maker.Execution.Reconcile.Plan.{ids, reconcile_accounts}
use poly_maker.State.Store.{
  apply_fill, set_position, reconcile_positions, expire_inflight, replace_open_orders,
}
use poly_maker.State.Store.Fills.{IsApplied, apply_fill_lem}
use poly_maker.State.Store.Positions.{
  AllSound, positions_stay_sound, reconciled, reconcile_positions_lem,
}
use poly_maker.State.Store.Orders.{replace_open_orders_lem}
use poly_maker.State.Store.Inflight.{IsTimed, expire_unblocks}
use poly_maker.State.Tracker.{TradeEvent, Tracker}
use poly_maker.Tests.{cents, whole, an_order, a_fill, a_quote, a_store}

abbrev some_tolerances : Tolerances Fixed
some_tolerances = record { tick = cents 1; reprice_ticks = pos 1; resize_frac = cents 20 }

abbrev some_targets : TargetQuotes Fixed
some_targets = record {
  condition_id = "c1";
  regime = quiet;
  quotes = a_quote ∷ record a_quote { token_id = "no" } ∷ [];
}

-- The one order satisfies the first quote; the second quote is new.
reconcile_accounts_example :
    let plan = reconcile some_targets (an_order ∷ []) some_tolerances in
    (kept : List String) × Matched some_tolerances
      (an_order ∷ [])
      []
      some_targets.quotes
      kept
      plan.to_place
    × AllDistinct kept
    × (length kept + length plan.to_place ≡ 2)
    × ((i : String)
        → member i plan.to_cancel ≡ (member i (ids (an_order ∷ [])) && not (member i kept)))
reconcile_accounts_example = reconcile_accounts some_tolerances some_targets (an_order ∷ [])

apply_fill_lem_example :
    (contains "t1" a_store.fills ≡ true) × (apply_fill a_fill a_store ≡ (false, a_store))
    ⊎ (contains "t1" a_store.fills ≡ false)
      × ((apply_fill a_fill a_store).0 ≡ true)
      × IsApplied a_fill a_store (apply_fill a_fill a_store).1 "yes"
apply_fill_lem_example = apply_fill_lem Fixed-IsOrdered Fixed-IsMonotone a_fill a_store "yes" refl

a_store-AllSound : AllSound a_store.positions
a_store-AllSound = (record { nonneg = refl; no_price = λ h. cc h }, tt)

positions_stay_sound_example :
    ((fill : Fill Fixed) → AllSound (apply_fill fill a_store).1.positions)
    × ((t : String) (size avg : Fixed) → AllSound (set_position t size avg a_store).positions)
    × ((now : Fixed) (api : Dict String (Fixed × Fixed))
        → AllSound (reconcile_positions now api a_store).positions)
positions_stay_sound_example = positions_stay_sound Fixed-IsOrdered a_store a_store-AllSound

abbrev a_snapshot : Dict String (Fixed × Fixed)
a_snapshot = ("yes", (whole 25, cents 41)) ∷ ("no", (whole 3, cents 50)) ∷ []

reconcile_positions_lem_example :
    lookup "no" (reconcile_positions (whole 100) a_snapshot a_store).positions
    ≡ reconciled true "no" (some (whole 3, cents 50)) none
reconcile_positions_lem_example =
    reconcile_positions_lem (whole 100) a_snapshot a_store "no" (refl, (refl, tt))

replace_open_orders_lem_example :
    lookup "o1" (replace_open_orders (whole 55) "yes" [] (whole 10) a_store).orders ≡ some an_order
replace_open_orders_lem_example =
    replace_open_orders_lem (whole 55) "yes" [] (whole 10) a_store "o1" (refl, refl, tt)

a_store-IsTimed : IsTimed a_store
a_store-IsTimed = record { timed = λ t. ground (arith, string_eq.same_iff "no" t) }

-- The mark of time 90 is young enough at time 100.
expire_unblocks_example :
    (ts : Fixed) × (lookup "no" (expire_inflight (whole 100) (whole 20) a_store).1.inflight_ts
      ≡ some ts)
    × ((whole 20 <? whole 100 ⊖ ts) ≡ false)
unfolding expire_inflight
expire_unblocks_example = expire_unblocks (whole 100) (whole 20) a_store "no" a_store-IsTimed refl

abbrev a_trade : TradeEvent Fixed
a_trade = record {
  token_id = "yes";
  our_side = buy;
  price = cents 40;
  size = whole 10;
  trade_id = "t1";
  status = matched;
  ts = whole 100;
}

abbrev pub fresh_tracker : Tracker Fixed
fresh_tracker = record { store = a_store; applied = [] }
