-- ===== src/Engine/Resolve/Wired.antt =====
-- engine.py: the dictionaries that `_resolve_markets` fills agree with one another.
use mathlib.Core.Option.{some-injective}
use poly_maker.Prelude.{
  ◌≡◌, sym, ap, ◌∙◌, true, Option, none, some, List, [], ◌∷◌, String, arith, ◌||◌, Option-cases,
  Bool-cases, inl, inr,
}
use poly_maker.Prelude.Eq.{◌==◌, string_eq, same_self}
use poly_maker.Float.{Float}
use poly_maker.Dict.{Dict, lookup, contains, insert, lookup-insert}
use poly_maker.Domain.{MarketMeta, yes_token, no_token}
use poly_maker.Json.{Wire}
use poly_maker.Config.{StrategyProfile}
use poly_maker.Config.Profile.{MarketEntry, Coerce, profile_for}
use poly_maker.Strategy.Estimators.{MarketEstimators, make_estimators}
use poly_maker.Catalog.Store.{CatalogStore}
use poly_maker.Engine.{Market, Engine}
use poly_maker.Engine.Resolve.{Sources, add_market, take_up, find_market, resolve_markets}

-- Every token leads to a market that the engine has; every market is kept under its own condition id,
-- and both its tokens lead somewhere.
pub record IsWired {W D : Type 0} (e : Engine W D) : Type 0 where
  pub routed : (t cid : String) → lookup t e.token_cid ≡ some cid → contains cid e.markets ≡ true
  pub listed :
      (cid : String) (m : Market W)
      → lookup cid e.markets ≡ some m
      → (m.meta.condition_id ≡ cid)
        × (contains (yes_token m.meta) e.token_cid ≡ true)
        × (contains (no_token m.meta) e.token_cid ≡ true)

contains-insert :
    {V : Type 0} (k j : String) (v : V) (d : Dict String V)
    → contains j (insert k v d) ≡ (k == j || contains j d)
contains-insert k j v d = ground (arith, lookup-insert k j v d)

still_routed :
    (y n c t : String) (rs : Dict String String)
    → contains t rs ≡ true
    → contains t (insert n c (insert y c rs)) ≡ true
still_routed y n c t rs h =
    ground (arith, contains-insert n t c (insert y c rs), contains-insert y t c rs)

both_routed :
    (y n c : String) (rs : Dict String String)
    → (contains y (insert n c (insert y c rs)) ≡ true)
      × (contains n (insert n c (insert y c rs)) ≡ true)
both_routed y n c rs = (
  ground (arith, contains-insert n y c (insert y c rs), contains-insert y y c rs, same_self y),
  ground (arith, contains-insert n n c (insert y c rs), same_self n),
)

module _ {W : Type 0} where
  routed_after :
      (c y n : String) (new : Market W) (ms : Dict String (Market W)) (rs : Dict String String)
      → ((t cid : String) → lookup t rs ≡ some cid → contains cid ms ≡ true)
      → (t cid : String) → lookup t (insert n c (insert y c rs)) ≡ some cid
      → contains cid (insert c new ms) ≡ true
  routed_after c y n new ms rs h t cid r = ground (
    arith,
    h t cid,
    contains-insert c cid new ms,
    lookup-insert n t c (insert y c rs),
    lookup-insert y t c rs,
    string_eq.same_iff c cid,
  )

  listed_after :
      (new : Market W) (ms : Dict String (Market W)) (rs : Dict String String)
      → ((cid : String) (m : Market W)
          → lookup cid ms ≡ some m
          → (m.meta.condition_id ≡ cid)
            × (contains (yes_token m.meta) rs ≡ true)
            × (contains (no_token m.meta) rs ≡ true))
      → (cid : String) (m : Market W)
      → let c = new.meta.condition_id in
        let rs' = insert (no_token new.meta) c (insert (yes_token new.meta) c rs) in
        lookup cid (insert c new ms) ≡ some m
        → (m.meta.condition_id ≡ cid)
          × (contains (yes_token m.meta) rs' ≡ true)
          × (contains (no_token m.meta) rs' ≡ true)
  listed_after new ms rs h cid m r = elim (Bool-cases (new.meta.condition_id == cid)) [
    | inl same ↦
        let k = some-injective _ _ (rw same at (sym (lookup-insert _ cid new ms) ∙ r)) in
        let both = both_routed (yes_token new.meta) (no_token new.meta) new.meta.condition_id rs in
        rw (← k) ((string_eq.same_iff _ _).0 same, both.0, both.1)
    | inr other ↦
        let old = h cid m (rw other at (sym (lookup-insert _ cid new ms) ∙ r)) in
        (
          old.0,
          still_routed _ _ _ (yes_token m.meta) rs old.1,
          still_routed _ _ _ (no_token m.meta) rs old.2,
        )
  ]

module _ {W D : Type 0} ⦃f : Float W⦄ where
  add_market-IsWired :
      (meta : MarketMeta W) (profile : StrategyProfile W) (est : MarketEstimators W)
      (e : Engine W D)
      → IsWired e
      → IsWired (add_market meta profile est e)
  unfolding add_market
  add_market-IsWired meta profile est e h = record {
    routed = routed_after _ _ _ _ e.markets e.token_cid h.routed;
    listed = listed_after _ e.markets e.token_cid h.listed;
  }

module _ {W D : Type 0} ⦃f : Float W⦄ ⦃w : Wire W⦄ ⦃c : Coerce W⦄
    (profiles : Dict String (StrategyProfile W)) where
  take_up-IsWired :
      (entry : MarketEntry W) (found : Option (MarketMeta W)) (e e' : Engine W D)
      → take_up profiles entry found e ≡ some e'
      → IsWired e
      → IsWired e'
  unfolding take_up
  take_up-IsWired entry none e e' r h = rw (← some-injective _ _ r) h
  take_up-IsWired entry (some meta) e e' r h = elim (Option-cases (profile_for profiles entry)) [
    | inl unknown ↦ cc (rw unknown at r)
    | inr (profile, known) ↦ elim (Option-cases (make_estimators profile)) [
      | inl refused ↦ cc (rw (known, refused) at r)
      | inr (est, made) ↦
          rw (← some-injective _ _ (rw (known, made) at r))
            (add_market-IsWired meta profile est e h)
    ]
  ]

  -- If the start resolves the trade list, the dictionaries agree, as they did before: every token
  -- leads to a market that the engine has, and every market stands under its own condition id with
  -- both its tokens, whatever the list, the catalog and the servers held, duplicates included.
  pub resolve_markets-IsWired :
      (asks : MarketEntry W → Sources W) (rates : Option (Dict String W))
      (entries : List (MarketEntry W)) (s : CatalogStore W) (e : Engine W D) {s' : CatalogStore W}
      {e' : Engine W D}
      → resolve_markets profiles asks rates entries s e ≡ some (s', e')
      → IsWired e
      → IsWired e'
  unfolding resolve_markets
  resolve_markets-IsWired asks rates [] s e {s'} {e'} r h =
      rw (← ap (λ x. x.1) (some-injective _ _ r)) h
  resolve_markets-IsWired asks rates (entry ∷ entries) s e {s'} {e'} r h =
      elim (Option-cases (find_market (asks entry) rates entry s)) [
        | inl raised ↦ cc (rw raised at r)
        | inr (q, found) ↦ elim (Option-cases (take_up profiles entry q.0 e)) [
          | inl raised ↦ cc (rw (found, raised) at r)
          | inr (e1, taken) ↦
              resolve_markets-IsWired asks rates entries q.1 e1 (rw (found, taken) at r)
                (take_up-IsWired entry q.0 e e1 taken h)
        ]
      ]
