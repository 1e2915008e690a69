-- ===== src/Engine/Resolve.antt =====
-- engine.py: the markets of the trade list, from the catalog or from the server of markets. What the
-- servers answer for an entry is an argument; `none` is an exception, which ends the start.
pub mod Wired
use poly_maker.Prelude.{
  Bool, true, false, ◌&&◌, ◌||◌, Option, none, some, List, [], ◌∷◌, String, if◌then◌else◌, ◌>>=◌,
}
use poly_maker.Prelude.Eq.{◌==◌, string_eq}
use poly_maker.Float.{Float}
use poly_maker.Dict.{Dict, lookup, insert}
use poly_maker.Domain.{MarketMeta, yes_token, no_token}
use poly_maker.Json.{Fields, Wire, get, is_text}
use poly_maker.Attempt.{Attempt, got, caught, raised}
use poly_maker.Config.{StrategyProfile, filled_in}
use poly_maker.Config.Profile.{MarketEntry, Coerce, profile_for}
use poly_maker.Strategy.Estimators.{MarketEstimators, make_estimators}
use poly_maker.Strategy.Regime.{new_machine}
use poly_maker.Catalog.Gamma.{parse_market}
use poly_maker.Catalog.Store.{
  CatalogStore, get_market, get_by_slug, upsert_market, cache_tag, cached_tag,
}
use poly_maker.Engine.{Market, Engine}

-- The clock, the id of the tag, and the markets that `iter_markets` yields for a tag, with whether it
-- ended without an exception
pub record Sources (W : Type 0) : Type 0 where
  pub now : W
  pub resolved : Option String
  pub markets : Option String → List (Fields W) × Bool

module _ {W : Type 0} ⦃f : Float W⦄ ⦃w : Wire W⦄ where
  -- `k and raw.get(...) == k`
  abbrev matches : String → Option String → Fields W → Bool
  matches key none raw = false
  matches key (some s) raw = filled_in (some s) && is_text s (get key raw)

  abbrev parsed : Attempt (MarketMeta W) → Option (Option (MarketMeta W))
  parsed (got m) = some (some m)
  parsed caught = some none
  parsed raised = none

  -- The loop of `_fetch_meta`: the first record of the market decides.
  unfoldable pub search :
      Option String
      → Option String
      → Dict String W
      → Bool
      → List (Fields W)
      → Option (Option (MarketMeta W))
  search slug cid rates ended [] = if ended then some none else none
  search slug cid rates ended (raw ∷ raws) =
      let rest = search slug cid rates ended raws in
      if matches "slug" slug raw || matches "conditionId" cid raw
      then parsed (parse_market raw rates)
      else rest

  abbrev known_tag : Option String → CatalogStore W → Option String
  known_tag resolved s = elim (cached_tag "politics" s) as (λ _. Option String) [
    | none ↦ resolved
    | some t ↦ some t
  ]

  -- A tag that was just resolved is kept.
  abbrev keep_tag : W → Option String → CatalogStore W → CatalogStore W
  keep_tag now none s = s
  keep_tag now (some t) s = elim (cached_tag "politics" s) as (λ _. CatalogStore W) [
    | none ↦ if t == "" then s else cache_tag now "politics" t s
    | some u ↦ s
  ]

  abbrev keep_market : W → Option (MarketMeta W) → CatalogStore W → CatalogStore W
  keep_market now none s = s
  keep_market now (some m) s = upsert_market now m none s

  -- `_fetch_meta`
  unfoldable pub fetch_meta :
      Sources W
      → MarketEntry W
      → Dict String W
      → CatalogStore W
      → Option (Option (MarketMeta W) × CatalogStore W)
  unfolding search
  fetch_meta src entry rates s = do
    let page = src.markets (known_tag src.resolved s)
    found ← search entry.slug entry.condition_id rates page.1 page.0
    some (found, keep_market src.now found (keep_tag src.now src.resolved s))

  abbrev by_slug : Option String → CatalogStore W → Option (MarketMeta W)
  by_slug none s = none
  by_slug (some slug) s = if slug == "" then none else get_by_slug slug s

  abbrev by_condition_id : Option String → CatalogStore W → Option (MarketMeta W)
  by_condition_id none s = none
  by_condition_id (some cid) s = if cid == "" then none else get_market cid s

  -- The market of an entry: by its slug, by its condition id, or from the server. The rates are asked
  -- for once, when they are first needed, so they are one answer.
  unfoldable pub find_market :
      Sources W
      → Option (Dict String W)
      → MarketEntry W
      → CatalogStore W
      → Option (Option (MarketMeta W) × CatalogStore W)
  unfolding fetch_meta
  find_market src rates entry s =
      let live = rates >>= λ known. fetch_meta src entry known s in
      elim (by_slug entry.slug s) as (λ _. Option (Option (MarketMeta W) × CatalogStore W)) [
        | some m ↦ some (some m, s)
        | none ↦
            elim (by_condition_id entry.condition_id s)
              as (λ _. Option (Option (MarketMeta W) × CatalogStore W)) [
                | some m ↦ some (some m, s)
                | none ↦ live
              ]
      ]

module _ {W D : Type 0} ⦃f : Float W⦄ where
  -- A market enters the engine's dictionaries.
  unfoldable pub add_market :
      MarketMeta W → StrategyProfile W → MarketEstimators W → Engine W D → Engine W D
  add_market meta profile est e = record e {
    markets =
        insert meta.condition_id
          (record {
            meta = meta;
            profile = profile;
            est = est;
            regime_m = new_machine;
            dirty = false;
            sweep = false;
            merging = false;
            halted = false;
            last_quote_fv = none;
          })
          e.markets;
    token_cid =
        insert (no_token meta) meta.condition_id
          (insert (yes_token meta) meta.condition_id e.token_cid);
  }

module _ {W D : Type 0} ⦃f : Float W⦄ ⦃w : Wire W⦄ ⦃c : Coerce W⦄
    (profiles : Dict String (StrategyProfile W)) where
  -- The body of the loop, from the market that was found; an entry without one is passed over.
  unfoldable pub take_up : MarketEntry W → Option (MarketMeta W) → Engine W D → Option (Engine W D)
  unfolding add_market
  take_up entry none e = some e
  take_up entry (some meta) e = do
    profile ← profile_for profiles entry
    est ← make_estimators profile
    some (add_market meta profile est e)

  -- The loop of `_resolve_markets`, over the enabled entries, before the engine runs
  unfoldable pub resolve_markets :
      (MarketEntry W → Sources W)
      → Option (Dict String W)
      → List (MarketEntry W)
      → CatalogStore W
      → Engine W D
      → Option (CatalogStore W × Engine W D)
  unfolding take_up find_market
  resolve_markets asks rates [] s e = some (s, e)
  resolve_markets asks rates (entry ∷ entries) s e = do
    (found, s') ← find_market (asks entry) rates entry s
    e' ← take_up entry found e
    resolve_markets asks rates entries s' e'
