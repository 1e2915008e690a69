-- ===== src/Tests/Starts.antt =====
-- The theorems on the start of the engine, its tasks and the reports on its markets, at concrete inputs.
use poly_maker.Prelude.{◌≡◌, refl, true, false, none, some, List, [], ◌∷◌, String, All}
use poly_maker.Prelude.Eq.{string_eq}
use poly_maker.Float.Fixed.{Fixed, fixed_float}
use poly_maker.Dict.{values, contains}
use poly_maker.Domain.{OpenOrder}
use poly_maker.Engine.{Engine}
use poly_maker.Engine.Startup.{startup_reconcile}
use poly_maker.Engine.Startup.Clean.{startup_holds_only_ours}
use poly_maker.Engine.Refresh.{MetaReport}
use poly_maker.Engine.Metadata.{apply_reports}
use poly_maker.Engine.Metadata.Closed.{halted_of, apply_reports_halts}
use poly_maker.Tests.{cents, whole, an_order}
use poly_maker.Tests.Engines.{an_engine}

abbrev OfYes : OpenOrder Fixed → Type 0
OfYes o = o.token_id ≡ "yes"

-- An engine before its first quote
abbrev at_start : Engine Fixed (List (Fixed × Fixed))
at_start = record an_engine { state = record an_engine.state { orders = [] } }

startup_holds_only_ours_example :
    let e' =
      (startup_reconcile
        (whole 100)
        (an_order ∷ an_order ∷ [])
        (an_order ∷ [])
        (("yes", (whole 12, cents 40)) ∷ ("foreign", (whole 3, cents 10)) ∷ [])
        at_start).1 in
    All OfYes (values e'.state.orders)
    × ((t : String) → contains t e'.state.positions ≡ true → contains t e'.token_cid ≡ true)
startup_holds_only_ours_example =
    startup_holds_only_ours OfYes (whole 100) (an_order ∷ an_order ∷ []) (an_order ∷ [])
      (("yes", (whole 12, cents 40)) ∷ ("foreign", (whole 3, cents 10)) ∷ []) at_start refl
      (refl, tt)

abbrev closed_report : MetaReport Fixed
closed_report = record {
  accepting = true;
  closed = true;
  rewards_min_size = none;
  rewards_max_spread = none;
  taker_fee_bps = none;
  rebate_rate = none;
  end_date_iso = none;
  min_order_size = none;
}

apply_reports_halts_example :
    halted_of "c1" (apply_reports (("c1", closed_report) ∷ []) an_engine).1 ≡ some true
apply_reports_halts_example =
    apply_reports_halts (("c1", closed_report) ∷ []) an_engine "c1" false (refl, tt) refl
