-- ===== src/Tests/Runs.antt =====
-- The theorem on the runs of the engine, at concrete inputs.
use poly_maker.Prelude.{◌≡◌, ◌++◌, refl, true, List, [], All}
use poly_maker.Float.Fixed.{Fixed, fixed_float, Fixed-IsOrdered}
use poly_maker.SortedDict.Assoc.{assoc_dict}
use poly_maker.Risk.{reset_day, new_manager}
use poly_maker.Prelude.Eq.{string_eq}
use poly_maker.Strategy.Quoting.Quotes.{IsPostable}
use poly_maker.Engine.Requests.Postable.{requote_posts_valid}
use poly_maker.Engine.{Engine, on_fill}
use poly_maker.Engine.Requests.{Request, recompute}
use poly_maker.Engine.Requests.Orders.{placed_by}
use poly_maker.Engine.Run.{starts, steps, requotes, fills, resets}
use poly_maker.Engine.Run.Killed.{killed_engine_places_nothing}
use poly_maker.Tests.{whole, a_fill, a_market}
use poly_maker.Tests.Engines.{
  an_engine, market_entry, market_entry, some_settings, some_links, some_answers, no_dates,
}

abbrev requoted : List (Request Fixed) × Engine Fixed (List (Fixed × Fixed))
unfolding recompute
requoted =
    recompute some_settings no_dates some_links some_answers (whole 100) "c1"
      (record an_engine { risk = reset_day an_engine.state an_engine.risk })

-- The switch is on, the day is reset, the market is requoted, and a fill comes in.
killed_engine_places_nothing_example :
    All (λ (r : Request Fixed). placed_by r ≡ []) ((([] ++ []) ++ requoted.0) ++ [])
    × ((on_fill a_fill requoted.1).risk.killed ≡ true)
unfolding requoted
killed_engine_places_nothing_example =
    killed_engine_places_nothing some_settings no_dates {e = an_engine}
      (steps (steps (steps starts resets) (requotes some_links some_answers (whole 100) "c1"))
        (fills a_fill))
      refl

-- An engine that is not killed, without a fresh event
abbrev quoting_engine : Engine Fixed (List (Fixed × Fixed))
quoting_engine = record an_engine { risk = new_manager }

requote_posts_valid_example :
    All
      (λ (r : Request Fixed). All (IsPostable a_market) (placed_by r))
      (recompute some_settings no_dates some_links some_answers (whole 100) "c1" quoting_engine).0
requote_posts_valid_example =
    requote_posts_valid Fixed-IsOrdered some_settings no_dates some_links some_answers (whole 100)
      "c1" market_entry quoting_engine refl
