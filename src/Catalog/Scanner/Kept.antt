-- ===== src/Catalog/Scanner/Kept.antt =====
-- catalog/scanner.py: what a scan leaves in the table.
use mathlib.Core.Path.{subst}
use poly_maker.Prelude.{
  ◌&&◌, Bool-cases, ◌≡◌, ◌⊎◌, refl, ap, ◌∙◌, Bool, true, false, Option, none, some, List, [], ◌∷◌,
  String, if◌then◌else◌, All, arith, inl, inr, Option-cases, IfSome, if-intro,
}
use poly_maker.Prelude.Int.{ℤ}
use poly_maker.Prelude.Eq.{◌==◌, string_eq}
use poly_maker.Float.{Float, num, ◌≤?◌, ◌<?◌}
use poly_maker.Dict.{Dict}
use poly_maker.Domain.{MarketMeta}
use poly_maker.Json.{Fields, Wire}
use poly_maker.Attempt.{Attempt, got, caught, raised}
use poly_maker.Catalog.Gamma.{parse_market}
use poly_maker.Catalog.Scoring.{score_market}
use poly_maker.Catalog.Store.{CatalogStore, get_market}
use poly_maker.Catalog.Store.Blob.{get_market-upsert_market}
use poly_maker.Catalog.Scanner.{
  ScanConfig, passes, store_kept, tag_of, note_tag, keep_one, keep_markets, conclude, scan_with,
  rates_or_empty, run_scan,
}

module _ {W : Type 0} ⦃f : Float W⦄ where
  -- The last market of a list with an id, or else the default
  abbrev pub last_with :
      String → List (MarketMeta W) → Option (MarketMeta W) → Option (MarketMeta W)
  last_with cid [] d = d
  last_with cid (m ∷ ms) d = last_with cid ms (if m.condition_id == cid then some m else d)

  get_market-store_kept :
      ((z : ℤ) → f.floor (f.of_int z) ≡ z)
      → (now : W) (ms : List (MarketMeta W)) (s : CatalogStore W) (cid : String)
      → get_market cid (store_kept now ms s) ≡ last_with cid ms (get_market cid s)
  get_market-store_kept whole now [] s cid = refl
  get_market-store_kept whole now (m ∷ ms) s cid =
      get_market-store_kept whole now ms _ cid
      ∙ ap (last_with cid ms) (get_market-upsert_market whole now m (some (score_market m)) s cid)

  note_tag-get_market :
      (now : W) (cfg : ScanConfig W) (tag : Option String) (s : CatalogStore W) (cid : String)
      → get_market cid (note_tag now cfg tag s) ≡ get_market cid s
  unfolding get_market
  note_tag-get_market now cfg none s cid = refl
  note_tag-get_market now cfg (some t) s cid = ground arith

  -- A market that a scan may keep: in the rewards program where that is asked, and not about to end
  abbrev pub IsWanted : (MarketMeta W → Option W) → ScanConfig W → MarketMeta W → Type 0
  IsWanted hours cfg m =
      ((cfg.rewards_only ≡ false) ⊎ ((m.rewards_daily_rate ≤? num 0) ≡ false))
      × ((hours m ≡ none)
          ⊎ ((num 0 <? cfg.min_hours_to_end) ≡ false)
          ⊎ ((h : W) × (hours m ≡ some h) × ((h <? cfg.min_hours_to_end) ≡ false)))

  ends_later :
      (cfg : ScanConfig W) (h : W) (hours : Option W)
      → hours ≡ some h
      → (num 0 <? cfg.min_hours_to_end && (h <? cfg.min_hours_to_end)) ≡ false
      → (hours ≡ none)
        ⊎ ((num 0 <? cfg.min_hours_to_end) ≡ false)
        ⊎ ((h : W) × (hours ≡ some h) × ((h <? cfg.min_hours_to_end) ≡ false))
  ends_later cfg h hours e late = elim (Bool-cases (num 0 <? cfg.min_hours_to_end)) [
    | inr off ↦ inr (inl off)
    | inl on ↦ inr (inr (h, e, rw on at late))
  ]

  passes-IsWanted :
      (hours : MarketMeta W → Option W) (cfg : ScanConfig W) (m : MarketMeta W)
      → passes hours cfg m ≡ true
      → IsWanted hours cfg m
  unfolding passes
  passes-IsWanted hours cfg m h = elim (Option-cases (hours m)) [
    | inl open_ended ↦ (ground (arith, h), inl open_ended)
    | inr (left, e) ↦
        (ground (arith, h), ends_later cfg left (hours m) e (ground (arith, (rw e at h))))
  ]

module _ {W : Type 0} ⦃f : Float W⦄ ⦃w : Wire W⦄ where
  keep_one-All :
      (hours : MarketMeta W → Option W) (cfg : ScanConfig W) (a : Attempt (MarketMeta W))
      (rest : Option (List (MarketMeta W)))
      → IfSome (All (IsWanted hours cfg)) rest
      → IfSome (All (IsWanted hours cfg)) (keep_one hours cfg a rest)
  unfolding passes
  keep_one-All hours cfg raised rest h = tt
  keep_one-All hours cfg caught rest h = h
  keep_one-All hours cfg (got m) none h = ground arith
  keep_one-All hours cfg (got m) (some ms) h =
      if-intro (IfSome (All (IsWanted hours cfg))) (passes hours cfg m) _ _
        (λ kept. (passes-IsWanted hours cfg m kept, h)) (λ _. h)

  keep_markets-All :
      (hours : MarketMeta W → Option W) (cfg : ScanConfig W) (rates : Dict String W)
      (raws : List (Fields W))
      → IfSome (All (IsWanted hours cfg)) (keep_markets hours cfg rates raws)
  unfolding keep_markets
  keep_markets-All hours cfg rates [] = tt
  keep_markets-All hours cfg rates (raw ∷ raws) =
      keep_one-All hours cfg (parse_market raw rates) _ (keep_markets-All hours cfg rates raws)

  -- What a scan did to one condition id of a store
  abbrev pub ScanOf :
      (MarketMeta W → Option W)
      → ScanConfig W
      → String
      → CatalogStore W
      → Option (List (MarketMeta W)) × CatalogStore W
      → Type 0
  ScanOf hours cfg cid s r =
      ((r.0 ≡ none) × (get_market cid r.1 ≡ get_market cid s))
      ⊎ ((kept : List (MarketMeta W)) × (r.0 ≡ some kept)
          × All (IsWanted hours cfg) kept
          × (get_market cid r.1 ≡ last_with cid kept (get_market cid s)))

  conclude-ScanOf :
      ((z : ℤ) → f.floor (f.of_int z) ≡ z)
      → (now : W) (hours : MarketMeta W → Option W) (cfg : ScanConfig W)
        (kept : Option (List (MarketMeta W))) (ended : Bool) (s : CatalogStore W) (cid : String)
      → IfSome (All (IsWanted hours cfg)) kept
      → ScanOf hours cfg cid s (conclude now kept ended s)
  conclude-ScanOf whole now hours cfg none ended s cid a = inl (refl, refl)
  conclude-ScanOf whole now hours cfg (some kept) true s cid a =
      inr (kept, refl, a, get_market-store_kept whole now kept s cid)
  conclude-ScanOf whole now hours cfg (some kept) false s cid a = inl (refl, refl)

  -- A scan that ends leaves each condition id with the last market kept for it, or with what the table
  -- had if none was kept; and every market kept is wanted. A scan that raises changes no market.
  pub run_scan_lem :
      ((z : ℤ) → f.floor (f.of_int z) ≡ z)
      → (now : W) (hours : MarketMeta W → Option W) (cfg : ScanConfig W)
        (fetched : Attempt (Dict String W)) (resolved : Option String)
        (markets : Option String → List (Fields W) × Bool) (s : CatalogStore W) (cid : String)
      → let r = run_scan now hours cfg fetched resolved markets s in
        ((r.0 ≡ none) × (get_market cid r.1 ≡ get_market cid s))
        ⊎ ((kept : List (MarketMeta W)) × (r.0 ≡ some kept)
            × All (IsWanted hours cfg) kept
            × (get_market cid r.1 ≡ last_with cid kept (get_market cid s)))
  unfolding run_scan
  run_scan_lem whole now hours cfg fetched resolved markets s cid =
      elim (Option-cases (rates_or_empty cfg.rewards_only fetched)) [
        | inl raises ↦ rw raises (inl (refl, refl))
        | inr (rates, e) ↦
            let tag = tag_of cfg resolved s in
            rw e (
              subst
                (λ old.
                  let r = scan_with now hours cfg (some rates) tag markets s in
                  ((r.0 ≡ none) × (get_market cid r.1 ≡ old))
                  ⊎ ((kept : List (MarketMeta W)) × (r.0 ≡ some kept)
                      × All (IsWanted hours cfg) kept
                      × (get_market cid r.1 ≡ last_with cid kept old)))
                (note_tag-get_market now cfg tag s cid)
                (conclude-ScanOf whole now hours cfg _ (markets tag).1 (note_tag now cfg tag s) cid
                  (keep_markets-All hours cfg rates (markets tag).0)))
      ]
