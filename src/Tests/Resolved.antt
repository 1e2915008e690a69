-- ===== src/Tests/Resolved.antt =====
-- The theorem on the trade list, at concrete inputs.
use poly_maker.Prelude.{refl, true, Option, none, some, List, [], ◌∷◌, String}
use poly_maker.Prelude.Int.{pos}
use poly_maker.Prelude.Eq.{string_eq}
use poly_maker.SortedDict.Assoc.{assoc_dict}
use poly_maker.Float.Fixed.{Fixed, fixed_float}
use poly_maker.Dict.{Dict}
use poly_maker.Json.{Json, number}
use poly_maker.Config.{StrategyProfile}
use poly_maker.Config.Profile.{MarketEntry, Coerce, profile_for}
use poly_maker.Catalog.Blob.{dump_meta, load_meta}
use poly_maker.Catalog.Store.{CatalogStore, upsert_market, get_market, get_by_slug}
use poly_maker.Strategy.Estimators.{make_estimators}
use poly_maker.Engine.{Engine, on_fill}
use poly_maker.Engine.Resolve.{Sources, resolve_markets}
use poly_maker.Engine.Resolve.Wired.{IsWired}
use poly_maker.Engine.Run.{starts, steps, fills}
use poly_maker.Engine.Run.Wired.{run-IsWired}
use poly_maker.Tests.{whole, a_market, a_profile, a_fill}
use poly_maker.Tests.Wire.{plain_wire}
use poly_maker.Tests.Engines.{an_engine, some_settings, no_dates}

instance abbrev plain_coerce : Coerce Fixed
plain_coerce = record { as_float = numbers; as_int = λ v. some (pos 2); as_bool = λ v. some true }
  where
    numbers : Json Fixed → Option Fixed
    numbers (number x) = some x
    numbers v = none

abbrev a_catalog : CatalogStore Fixed
a_catalog = upsert_market (whole 5) a_market none (record { markets = []; tags = [] })

-- One entry by slug, and the same market again by its condition id, with an override
abbrev some_entries : List (MarketEntry Fixed)
some_entries =
    record { slug = some "s"; condition_id = none; profile = "calm"; enabled = true; extra = [] }
    ∷ record {
      slug = none;
      condition_id = some "c1";
      profile = "calm";
      enabled = true;
      extra = ("gamma", number (whole 3)) ∷ [];
    }
    ∷ []

abbrev no_sources : MarketEntry Fixed → Sources Fixed
no_sources entry = record { now = whole 5; resolved = none; markets = λ tag. ([], true) }

abbrev new_engine : Engine Fixed (List (Fixed × Fixed))
new_engine = record an_engine { markets = []; token_cid = [] }

new_engine-IsWired : IsWired new_engine
new_engine-IsWired = record { routed = λ t cid r. cc r; listed = λ cid m r. cc r }

abbrev some_profiles : Dict String (StrategyProfile Fixed)
some_profiles = ("calm", a_profile) ∷ []

abbrev resolved : Engine Fixed (List (Fixed × Fixed))
unfolding resolve_markets
resolved =
    elim (resolve_markets some_profiles no_sources none some_entries a_catalog new_engine)
      as (λ _. Engine Fixed (List (Fixed × Fixed))) [ none ↦ new_engine | some r ↦ r.1 ]

-- After the start a fill comes in.
run-IsWired_example : IsWired (on_fill a_fill resolved)
unfolding resolve_markets resolved upsert_market get_by_slug get_market load_meta dump_meta
    profile_for make_estimators
run-IsWired_example =
    run-IsWired some_settings no_dates some_profiles no_sources none some_entries a_catalog
      new_engine {e' = resolved} refl new_engine-IsWired (steps starts (fills a_fill))
