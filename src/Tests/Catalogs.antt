-- ===== src/Tests/Catalogs.antt =====
-- The theorems on the catalog, at concrete inputs.
use poly_maker.Prelude.{
  ℕ, ◌≤◌, ◌≡◌, ◌⊎◌, refl, true, false, Option, none, some, List, [], ◌∷◌, String, All, length, take,
  drop, leb, if◌then◌else◌, inl, inr, arith, Bool-cases,
}
use poly_maker.Prelude.Eq.{string_eq}
use poly_maker.Float.{◌≼◌, ◌≤?◌}
use poly_maker.Float.Fixed.{Fixed, fixed_float, Fixed-IsOrdered, floor-of_int}
use poly_maker.Dict.{values}
use poly_maker.Domain.{MarketMeta}
use poly_maker.Json.{Json, text, array, Fields, end, field, truth, nil, cons}
use poly_maker.Catalog.Gamma.{Page, past_end, lists, iter_markets}
use poly_maker.Catalog.Gamma.Pages.{Serves, iter_markets-eq-take}
use poly_maker.Catalog.Store.{
  CatalogRow, CatalogStore, get_market, upsert_market, top_rows, cutoff_of,
}
use poly_maker.Catalog.Store.Blob.{get_market-upsert_market}
use poly_maker.Catalog.Store.Top.{IsRanked, IsIn, IsBeaten, top_rows_lem}
use poly_maker.Attempt.{got}
use poly_maker.Catalog.Scanner.{ScanConfig, run_scan}
use poly_maker.Catalog.Scanner.Kept.{IsWanted, last_with, run_scan_lem}
use poly_maker.Tests.{whole, a_market}
use poly_maker.Tests.Wire.{plain_wire}

-- A server with five markets
abbrev five : List ℕ
five = 10 ∷ 20 ∷ 30 ∷ 40 ∷ 50 ∷ []

abbrev server : ℕ → Page ℕ
server offset = if leb 5 offset then past_end else lists (take 2 (drop offset five))

server-Serves : Serves five 2 server
server-Serves offset = elim (Bool-cases (leb 5 offset)) [
  | inl past ↦ inr (ground (arith, past), rw past (inl refl))
  | inr within ↦ inl (ground (arith, within), rw within refl)
]

iter_markets-eq-take_example : iter_markets server 2 2 ≡ (10 ∷ 20 ∷ 30 ∷ 40 ∷ [], true)
iter_markets-eq-take_example = iter_markets-eq-take five 2 2 server (omega arith) server-Serves

abbrev empty_catalog : CatalogStore Fixed
empty_catalog = record { markets = []; tags = [] }

get_market-upsert_market_example :
    get_market "c1" (upsert_market (whole 5) a_market none empty_catalog) ≡ some a_market
get_market-upsert_market_example =
    get_market-upsert_market floor-of_int (whole 5) a_market none empty_catalog "c1"

-- Two markets, the second one scanned later
abbrev a_catalog : CatalogStore Fixed
a_catalog =
    upsert_market (whole 9) (record a_market { condition_id = "c2"; slug = "s2" }) none
      (upsert_market (whole 5) a_market none empty_catalog)

top_rows_lem_example :
    let rows = values a_catalog.markets in
    let chosen = top_rows 1 (whole 6) a_catalog in
    (length chosen ≤ 1)
    × All
        (λ (r : CatalogRow Fixed). (r.question ≡ "q") × (cutoff_of (whole 6) rows ≼ r.scanned_ts))
        chosen
    × IsRanked chosen
    × All
        (λ (r : CatalogRow Fixed).
          ((cutoff_of (whole 6) rows ≤? r.scanned_ts) ≡ false)
          ⊎ (IsIn chosen r ⊎ IsBeaten 1 chosen r))
        rows
unfolding upsert_market
top_rows_lem_example =
    top_rows_lem Fixed-IsOrdered 1 (whole 6) a_catalog (λ (r : CatalogRow Fixed). r.question ≡ "q")
      (refl, (refl, tt))

abbrev a_scan : ScanConfig Fixed
a_scan = record { tag_slug = ""; rewards_only = true; min_hours_to_end = whole 24 }

abbrev two_texts : String → String → Json Fixed
two_texts x y = array (cons (text x) (cons (text y) nil))

-- A market that is kept, and one that takes no orders
abbrev some_raws : List (Fields Fixed)
some_raws =
    field "acceptingOrders" (truth true) (
      field "clobTokenIds" (two_texts "yes" "no")
        (field "outcomes" (two_texts "Yes" "No") (field "conditionId" (text "c1") end)))
    ∷ field "conditionId" (text "c2") end
    ∷ []

abbrev in_two_days : MarketMeta Fixed → Option Fixed
in_two_days m = some (whole 48)

run_scan_lem_example :
    let r =
      run_scan
        (whole 5)
        in_two_days
        a_scan
        (got (("c1", whole 2) ∷ []))
        none
        (λ tag. (some_raws, true))
        empty_catalog in
    ((r.0 ≡ none) × (get_market "c1" r.1 ≡ get_market "c1" empty_catalog))
    ⊎ ((kept : List (MarketMeta Fixed)) × (r.0 ≡ some kept)
        × All (IsWanted in_two_days a_scan) kept
        × (get_market "c1" r.1 ≡ last_with "c1" kept (get_market "c1" empty_catalog)))
run_scan_lem_example =
    run_scan_lem floor-of_int (whole 5) in_two_days a_scan (got (("c1", whole 2) ∷ [])) none
      (λ tag. (some_raws, true)) empty_catalog "c1"
