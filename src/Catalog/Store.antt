-- ===== src/Catalog/Store.antt =====
-- catalog/store.py: the tables of markets and tags, by primary key. Ties of the score stand in the
-- order of the table.
pub mod Blob
pub mod Top
use poly_maker.Prelude.{
  ℕ, Bool, true, false, Option, none, some, List, [], ◌∷◌, String, if◌then◌else◌, get_or, take,
  keep_if, ◌>>=◌, length,
}
use poly_maker.Prelude.Int.{ℤ}
use poly_maker.Prelude.Eq.{◌==◌, string_eq}
use poly_maker.Float.{Float, num, ◌⊖◌, ◌≤?◌, ◌<?◌, fmax}
use poly_maker.Dict.{Dict, lookup, insert, values}
use poly_maker.Domain.{TokenMeta, MarketMeta}
use poly_maker.Json.{
  Json, null, truth, number, text, array, object, Fields, end, field, Items, nil, cons, get,
}
use poly_maker.Catalog.Blob.{dump_meta, load_meta}
use poly_maker.Catalog.Scoring.{MarketScore, score_market}

pub record CatalogRow (W : Type 0) : Type 0 where
  pub question : String
  pub slug : String
  pub meta_json : Json W
  pub score : W
  pub score_json : MarketScore W
  pub scanned_ts : W

pub record CatalogStore (W : Type 0) : Type 0 where
  pub markets : Dict String (CatalogRow W)
  pub tags : Dict String (String × W)

module _ {W : Type 0} ⦃f : Float W⦄ where
  unfoldable pub upsert_market :
      W → MarketMeta W → Option (MarketScore W) → CatalogStore W → CatalogStore W
  upsert_market now meta score s =
      let sc = get_or score (score_market meta) in
      record s {
        markets =
            insert meta.condition_id
              (record {
                question = meta.question;
                slug = meta.slug;
                meta_json = dump_meta meta;
                score = sc.score;
                score_json = sc;
                scanned_ts = now;
              })
              s.markets;
      }

  abbrev pub upsert_many : W → List (MarketMeta W) → CatalogStore W → CatalogStore W
  upsert_many now [] s = s
  upsert_many now (m ∷ ms) s = upsert_many now ms (upsert_market now m none s)

  -- `get`; `none` where there is no row, or where the blob does not load.
  unfoldable pub get_market : String → CatalogStore W → Option (MarketMeta W)
  get_market cid s = lookup cid s.markets >>= λ row. load_meta row.meta_json

  abbrev first_row : List (CatalogRow W) → Option (CatalogRow W)
  first_row [] = none
  first_row (row ∷ rows) = some row

  unfoldable pub get_by_slug : String → CatalogStore W → Option (MarketMeta W)
  get_by_slug slug s =
      first_row (keep_if (λ (r : CatalogRow W). r.slug == slug) (values s.markets)) >>= λ row.
      load_meta row.meta_json

  -- `MAX(scanned_ts)`
  abbrev pub newest : List (CatalogRow W) → Option W
  newest [] = none
  newest (r ∷ rows) = some (get_or (newest rows >>= λ t. some (fmax r.scanned_ts t)) r.scanned_ts)

  -- A row takes its place behind the rows of the same score.
  abbrev pub insert_ranked : CatalogRow W → List (CatalogRow W) → List (CatalogRow W)
  insert_ranked r [] = r ∷ []
  insert_ranked r (x ∷ xs) = if x.score ≤? r.score then r ∷ x ∷ xs else x ∷ insert_ranked r xs

  -- `ORDER BY score DESC`
  unfoldable pub ranked : List (CatalogRow W) → List (CatalogRow W)
  ranked [] = []
  ranked (r ∷ rows) = insert_ranked r (ranked rows)

  abbrev pub cutoff_of : W → List (CatalogRow W) → W
  cutoff_of fresh_s rows = get_or (newest rows) (num 0) ⊖ fresh_s

  -- The rows of `top`
  unfoldable pub top_rows : ℕ → W → CatalogStore W → List (CatalogRow W)
  unfolding ranked
  top_rows limit fresh_s s =
      let rows = values s.markets in
      take limit
        (ranked (keep_if (λ (r : CatalogRow W). cutoff_of fresh_s rows ≤? r.scanned_ts) rows))

  abbrev pub load_rows : List (CatalogRow W) → Option (List (MarketMeta W × MarketScore W))
  load_rows [] = some []
  load_rows (r ∷ rows) = do
    meta ← load_meta r.meta_json
    rest ← load_rows rows
    some ((meta, r.score_json) ∷ rest)

  -- `top`; `none` where a blob does not load.
  unfoldable pub top : ℕ → W → CatalogStore W → Option (List (MarketMeta W × MarketScore W))
  unfolding top_rows
  top limit fresh_s s = load_rows (top_rows limit fresh_s s)

  abbrev pub cache_tag : W → String → String → CatalogStore W → CatalogStore W
  cache_tag now slug tag_id s = record s { tags = insert slug (tag_id, now) s.tags }

  abbrev pub cached_tag : String → CatalogStore W → Option String
  cached_tag slug s = lookup slug s.tags >>= λ row. some row.0
