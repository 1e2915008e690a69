-- ===== src/Engine/Metadata.antt =====
-- engine.py: the refresh of the markets' metadata, from the records as they come, and the reports of all
-- of the markets.
pub mod Closed
use poly_maker.Prelude.{
  Bool, true, false, not, ◌&&◌, ◌||◌, Option, none, some, List, [], ◌∷◌, ◌++◌, String,
  if◌then◌else◌, is_empty,
}
use poly_maker.Prelude.Int.{ℤ}
use poly_maker.Prelude.Eq.{◌==◌, string_eq}
use poly_maker.Float.{Float, num, ◌⊗◌}
use poly_maker.Dict.{Dict, insert}
use poly_maker.Attempt.{Attempt, got, caught, raised, ◌>>=◌}
use poly_maker.Json.{
  Json, null, truth, text, object, Fields, end, Wire, get, get_else, float_of, str_of, is_true,
}
use poly_maker.Catalog.Gamma.{fields_or_none}
use poly_maker.Engine.{Engine}
use poly_maker.Engine.Requests.{Request}
use poly_maker.Engine.Refresh.{MetaReport, apply_report}

module _ {W : Type 0} ⦃f : Float W⦄ ⦃w : Wire W⦄ where
  -- `_fnum`
  abbrev pub fnum : Option (Json W) → Option W
  fnum none = none
  fnum (some v) = float_of v

  abbrev bps_of : Option W → Option ℤ
  bps_of none = none
  bps_of (some rate) = some (f.floor (f.round (rate ⊗ num 10000) 0))

  abbrev end_date_of : Option (Json W) → Option String
  end_date_of none = none
  end_date_of (some null) = none
  end_date_of (some v) = some (str_of v)

  abbrev pub is_accepting : Fields W → Bool
  is_accepting raw = is_true (get_else "acceptingOrders" (truth true) raw)

  abbrev pub is_closed_market : Fields W → Bool
  is_closed_market raw = is_true (get_else "closed" (truth false) raw)

  abbrev pub report_with : Fields W → Fields W → MetaReport W
  report_with raw fee = record {
    accepting = is_accepting raw;
    closed = is_closed_market raw;
    rewards_min_size = fnum (get "rewardsMinSize" raw);
    rewards_max_spread = fnum (get "rewardsMaxSpread" raw);
    taker_fee_bps = bps_of (fnum (get "rate" fee));
    rebate_rate = fnum (get "rebateRate" fee);
    end_date_iso = end_date_of (get "endDate" raw);
    min_order_size = fnum (get "orderMinSize" raw);
  }

  -- What the engine reads of a record; the fees are not looked at where the market is stopped.
  unfoldable pub report_of : Fields W → Attempt (MetaReport W)
  report_of raw =
      if is_closed_market raw || not (is_accepting raw)
      then got (report_with raw end)
      else (fields_or_none (get "feeSchedule" raw) >>= λ fee. got (report_with raw fee))

  -- The records of `markets_by_condition` that have a condition id, by it
  abbrev pub by_condition : List (Fields W) → Dict String (Fields W) → Dict String (Fields W)
  by_condition [] d = d
  by_condition (raw ∷ raws) d =
      by_condition raws (elim (get "conditionId" raw) as (λ _. Dict String (Fields W)) [
        | none ↦ d
        | some v ↦ if is_true v then insert (str_of v) raw d else d
      ])

module _ {W D : Type 0} ⦃f : Float W⦄ where
  -- The loop of `refresh_market_metadata`, over the reports of records that can all be read: where the
  -- reading of one raises, the loop of the code ends there, after the ones before it.
  unfoldable pub apply_reports :
      Dict String (MetaReport W) → Engine W D → List (Request W) × Engine W D
  apply_reports [] e = ([], e)
  apply_reports ((cid, r) ∷ reports) e =
      let (asked, e') = apply_report cid r e in
      let (rest, last) = apply_reports reports e' in (asked ++ rest, last)
