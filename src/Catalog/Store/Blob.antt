-- ===== src/Catalog/Store/Blob.antt =====
-- catalog/store.py: a market that was stored is read back.
use poly_maker.Prelude.{◌≡◌, refl, Option, none, some, String, if◌then◌else◌, Bool-cases, inl, inr}
use poly_maker.Prelude.Int.{ℤ}
use poly_maker.Prelude.Eq.{◌==◌, string_eq}
use poly_maker.Float.{Float}
use poly_maker.Dict.{lookup-insert}
use poly_maker.Domain.{MarketMeta}
use poly_maker.Catalog.Scoring.{MarketScore}
use poly_maker.Catalog.Blob.{dump_meta, load_meta}
use poly_maker.Catalog.Store.{CatalogStore, upsert_market, get_market}

module _ {W : Type 0} ⦃f : Float W⦄ (whole : (z : ℤ) → f.floor (f.of_int z) ≡ z) where
  load_meta_texts :
      (m : MarketMeta W) (end_date event : Option String)
      → load_meta (dump_meta (record m { end_date_iso = end_date; event_id = event }))
        ≡ some (record m { end_date_iso = end_date; event_id = event })
  unfolding load_meta dump_meta
  load_meta_texts m none none = rw (whole m.maker_fee_bps, whole m.taker_fee_bps) refl
  load_meta_texts m none (some i) = rw (whole m.maker_fee_bps, whole m.taker_fee_bps) refl
  load_meta_texts m (some t) none = rw (whole m.maker_fee_bps, whole m.taker_fee_bps) refl
  load_meta_texts m (some t) (some i) = rw (whole m.maker_fee_bps, whole m.taker_fee_bps) refl

  load_meta-dump_meta : (m : MarketMeta W) → load_meta (dump_meta m) ≡ some m
  load_meta-dump_meta m = load_meta_texts m m.end_date_iso m.event_id

  -- A market that was stored is read back whole, every field and both tokens, by its condition id; and
  -- the other markets of the table are as before. Integers are read back from the numbers that they
  -- are written as.
  pub get_market-upsert_market :
      (now : W) (m : MarketMeta W) (score : Option (MarketScore W)) (s : CatalogStore W)
      (cid : String)
      → get_market cid (upsert_market now m score s)
        ≡ (if m.condition_id == cid then some m else get_market cid s)
  unfolding get_market upsert_market
  get_market-upsert_market now m score s cid =
      rw (lookup-insert m.condition_id cid _ s.markets, get_market, upsert_market)
        (elim (Bool-cases (m.condition_id == cid)) [
          | inl same ↦ rw same (load_meta-dump_meta m)
          | inr other ↦ rw other refl
        ])
