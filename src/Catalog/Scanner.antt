-- ===== src/Catalog/Scanner.antt =====
-- catalog/scanner.py, with the reward rates of catalog/gamma.py: a scan. What the servers answer are
-- arguments; `none` is a call that raised. `hours` is `hours_to_end`.
pub mod Kept
use poly_maker.Prelude.{
  ℕ, zero, suc, Bool, true, false, not, ◌&&◌, ◌||◌, Option, none, some, List, [], ◌∷◌, String,
  if◌then◌else◌, ◌>>=◌,
}
use poly_maker.Prelude.Eq.{◌==◌, string_eq}
use poly_maker.Float.{Float, num, ◌≤?◌, ◌<?◌}
use poly_maker.Text.{same_text}
use poly_maker.Dict.{Dict, insert}
use poly_maker.Domain.{MarketMeta}
use poly_maker.Json.{Fields, Wire}
use poly_maker.Attempt.{Attempt, got, caught, raised}
use poly_maker.Catalog.Gamma.{parse_market}
use poly_maker.Catalog.Scoring.{score_market}
use poly_maker.Catalog.Store.{CatalogStore, upsert_market, cache_tag, cached_tag}

-- An entry of a page of sampling markets, with the rate of each asset; `none` is one that is no number.
pub record SamplingRow (W : Type 0) : Type 0 where
  pub condition_id : String
  pub rates : List (String × Option W)

pub record SamplingPage (W : Type 0) : Type 0 where
  pub rows : List (SamplingRow W)
  pub next_cursor : String

pub record ScanConfig (W : Type 0) : Type 0 where
  pub tag_slug : String
  pub rewards_only : Bool
  pub min_hours_to_end : W

abbrev usdc : String
usdc = "0x2791bca1f2de4661ed88a30c99a7a9449aa84174"

module _ {W : Type 0} ⦃f : Float W⦄ where
  -- The rate of the first entry in USDC; `none` where it is no number.
  abbrev pub usdc_rate : List (String × Option W) → Option W
  usdc_rate [] = some (num 0)
  usdc_rate ((asset, rate) ∷ rates) = if same_text asset usdc then rate else usdc_rate rates

  abbrev pub add_rates : List (SamplingRow W) → Dict String W → Option (Dict String W)
  add_rates [] rates = some rates
  add_rates (row ∷ rows) rates = do
    rate ← usdc_rate row.rates
    add_rates rows (if row.condition_id == "" then rates else insert row.condition_id rate rates)

  -- The loop of `fetch_reward_rates`, over the pages left
  unfoldable pub fetch_pages :
      (String → Option (SamplingPage W)) → ℕ → String → Dict String W → Option (Dict String W)
  fetch_pages answer zero cursor rates = some rates
  fetch_pages answer (suc pages) cursor rates = do
    page ← answer cursor
    rates' ← add_rates page.rows rates
    let rest = fetch_pages answer pages page.next_cursor rates'
    if page.next_cursor == "" || page.next_cursor == "LTE=" then some rates' else rest

  unfoldable pub fetch_reward_rates : (String → Option (SamplingPage W)) → Option (Dict String W)
  unfolding fetch_pages
  fetch_reward_rates answer = fetch_pages answer 50 "" []

  -- Whether a market ends too soon
  abbrev pub ends_soon : ScanConfig W → Option W → Bool
  ends_soon cfg none = false
  ends_soon cfg (some h) = (num 0 <? cfg.min_hours_to_end) && (h <? cfg.min_hours_to_end)

  -- The filters of the loop of `run_scan`
  unfoldable pub passes : (MarketMeta W → Option W) → ScanConfig W → MarketMeta W → Bool
  passes hours cfg m =
      not (cfg.rewards_only && (m.rewards_daily_rate ≤? num 0)) && not (ends_soon cfg (hours m))

  -- The loop that stores what was kept
  abbrev pub store_kept : W → List (MarketMeta W) → CatalogStore W → CatalogStore W
  store_kept now [] s = s
  store_kept now (m ∷ ms) s = store_kept now ms (upsert_market now m (some (score_market m)) s)

  -- The tag that is cached, or else resolved
  abbrev pub tag_of : ScanConfig W → Option String → CatalogStore W → Option String
  tag_of cfg resolved s = elim (cached_tag cfg.tag_slug s) as (λ _. Option String) [
    | none ↦ resolved
    | some t ↦ if t == "" then resolved else some t
  ]

  abbrev pub note_tag : W → ScanConfig W → Option String → CatalogStore W → CatalogStore W
  note_tag now cfg none s = s
  note_tag now cfg (some t) s = if t == "" then s else cache_tag now cfg.tag_slug t s

module _ {W : Type 0} ⦃f : Float W⦄ ⦃w : Wire W⦄ where
  -- A step of the loop of `run_scan`, with the rest of the loop; `none` where reading a market raises.
  abbrev pub keep_one :
      (MarketMeta W → Option W)
      → ScanConfig W
      → Attempt (MarketMeta W)
      → Option (List (MarketMeta W))
      → Option (List (MarketMeta W))
  keep_one hours cfg raised rest = none
  keep_one hours cfg caught rest = rest
  keep_one hours cfg (got m) rest =
      if passes hours cfg m then (rest >>= λ ms. some (m ∷ ms)) else rest

  unfoldable pub keep_markets :
      (MarketMeta W → Option W)
      → ScanConfig W
      → Dict String W
      → List (Fields W)
      → Option (List (MarketMeta W))
  unfolding passes
  keep_markets hours cfg rates [] = some []
  keep_markets hours cfg rates (raw ∷ raws) =
      keep_one hours cfg (parse_market raw rates) (keep_markets hours cfg rates raws)

  -- The rates to scan with; `none` where the scan ends with the exception.
  abbrev pub rates_or_empty : Bool → Attempt (Dict String W) → Option (Dict String W)
  rates_or_empty rewards_only (got rates) = some rates
  rates_or_empty rewards_only caught = if rewards_only then none else some []
  rates_or_empty rewards_only raised = none

  -- The end of a scan: nothing is stored if the loop raised.
  abbrev pub conclude :
      W
      → Option (List (MarketMeta W))
      → Bool
      → CatalogStore W
      → Option (List (MarketMeta W)) × CatalogStore W
  conclude now none ended s = (none, s)
  conclude now (some kept) ended s = if ended then (some kept, store_kept now kept s) else (none, s)

  abbrev pub scan_with :
      W
      → (MarketMeta W → Option W)
      → ScanConfig W
      → Option (Dict String W)
      → Option String
      → (Option String → List (Fields W) × Bool)
      → CatalogStore W
      → Option (List (MarketMeta W)) × CatalogStore W
  scan_with now hours cfg none tag markets s = (none, s)
  scan_with now hours cfg (some rates) tag markets s =
      conclude now (keep_markets hours cfg rates (markets tag).0) (markets tag).1
        (note_tag now cfg tag s)

  -- `run_scan`, from the rates, the tag, and the markets that `iter_markets` yields for a tag, with
  -- whether it ended without an exception. A result `none` is an exception, in front of the store it
  -- leaves.
  unfoldable pub run_scan :
      W
      → (MarketMeta W → Option W)
      → ScanConfig W
      → Attempt (Dict String W)
      → Option String
      → (Option String → List (Fields W) × Bool)
      → CatalogStore W
      → Option (List (MarketMeta W)) × CatalogStore W
  unfolding keep_markets
  run_scan now hours cfg fetched resolved markets s =
      scan_with now hours cfg (rates_or_empty cfg.rewards_only fetched) (tag_of cfg resolved s)
        markets s
