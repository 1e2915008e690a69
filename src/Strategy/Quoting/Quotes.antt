-- ===== src/Strategy/Quoting/Quotes.antt =====
-- strategy/quoting.py: what every quote set satisfies, by regime and inventory.
use poly_maker.Prelude.{
  ℕ, ◌+◌, ◌*◌, ◌≤◌, ◌≡◌, ◌⊎◌, refl, true, false, Option, none, some, List, [], ◌∷◌, String, arith,
  All, All-append, length, length-append, inl, inr, Bool-cases,
}
use poly_maker.Float.{Float, num, ◌⊖◌, ◌⊗◌, ◌<?◌, ◌≼◌}
use poly_maker.Float.Laws.{IsOrdered, le_of_not_lt}
use poly_maker.Domain.{
  buy, sell, Regime, MarketMeta, Position, Quote, yes_token, no_token, price_decimals,
}
use poly_maker.Book.{BookView}
use poly_maker.Strategy.Pricing.{layer_count, layer_plan, maybe_exit}
use poly_maker.Strategy.Pricing.Layers.{IsLayer, add_layers_lem}
use poly_maker.Strategy.Quoting.{
  QuoteInputs, is_pulled, yes_entry, no_entry, sized, equalize, entry_layers, entry_quotes,
  exit_quotes, construct_quotes, half_spread,
}

module _ {W : Type 0} ⦃f : Float W⦄ where
  pub weaken :
      (P Q : Quote W → Type 0) (l : List (Quote W))
      → ((q : Quote W) → P q → Q q)
      → All P l
      → All Q l
  weaken P Q [] h a = tt
  weaken P Q (x ∷ l) h a = (h x a.0, weaken P Q l h a.1)

  -- What the exchange demands of an order on the market: one of its two tokens, a price strictly
  -- between 0 and 1, and at least the minimum size.
  pub record IsPostable (m : MarketMeta W) (q : Quote W) : Type 0 where
    pub token_known : (q.token_id ≡ yes_token m) ⊎ (q.token_id ≡ no_token m)
    pub price_pos : (num 0 <? q.price) ≡ true
    pub price_lt_one : (q.price <? num 1) ≡ true
    pub size_ge : m.min_order_size ≼ q.size

  maybe_exit-IsPostable :
      (m : MarketMeta W) (t : String) (p : Position W) (fv delta : W) (v : BookView W) (tick : W)
      (decimals : ℕ) (urgency : W) (r : Regime)
      → (t ≡ yes_token m) ⊎ (t ≡ no_token m)
      → All (IsPostable m) (maybe_exit t p fv delta v tick decimals urgency m r)
  unfolding maybe_exit
  maybe_exit-IsPostable m t p fv delta v tick decimals urgency r known = ground arith

  maybe_exit-sells :
      (m : MarketMeta W) (t : String) (p : Position W) (fv delta : W) (v : BookView W) (tick : W)
      (decimals : ℕ) (urgency : W) (r : Regime)
      → All (λ (q : Quote W). q.side ≡ sell) (maybe_exit t p fv delta v tick decimals urgency m r)
        × (length (maybe_exit t p fv delta v tick decimals urgency m r) ≤ 1)
  unfolding maybe_exit
  maybe_exit-sells m t p fv delta v tick decimals urgency r = ground arith

  -- What holds of the entry quotes on one token
  pub record IsEntry (m : MarketMeta W) (token : String) (size : W) (q : Quote W) : Type 0 where
    pub layer : IsLayer token buy size q
    pub big_enough : (size <? m.min_order_size) ≡ false

  -- The size of each entry order, for a number of shares
  abbrev pub entry_size : QuoteInputs W → W → W
  entry_size inp shares =
      (layer_plan shares inp.profile.layers inp.meta.min_order_size
        (inp.meta.rewards_min_size ⊗ inp.profile.reward_size_mult)).1

  abbrev pub shares_of : Option (W × W) → W
  shares_of none = num 0
  shares_of (some (price, shares)) = shares

  add_layers-IsEntry :
      (inp : QuoteInputs W) (token : String) (price shares : W)
      → All
          (IsEntry inp.meta token (entry_size inp shares))
          (entry_layers inp token (some (price, shares)))
        × (length (entry_layers inp token (some (price, shares))) ≤ layer_count inp.profile.layers)
  unfolding entry_layers
  add_layers-IsEntry inp token price shares =
      let m = inp.meta in
      let (layers, count, sized) =
        add_layers_lem token buy price m.tick_size (price_decimals m) inp.profile.layer_step_ticks
          true shares inp.profile.layers m.min_order_size
          (m.rewards_min_size ⊗ inp.profile.reward_size_mult) in
      elim sized [
        | inl e ↦ rw e (tt, omega arith)
        | inr big ↦ (
          weaken (IsLayer token buy (entry_size inp shares))
              (IsEntry m token (entry_size inp shares)) _
              (λ q l. record { layer = l; big_enough = big.0 }) layers,
          count,
        )
      ]

  pub entry_layers-IsEntry :
      (inp : QuoteInputs W) (token : String) (e : Option (W × W))
      → All (IsEntry inp.meta token (entry_size inp (shares_of e))) (entry_layers inp token e)
        × (length (entry_layers inp token e) ≤ layer_count inp.profile.layers)
  unfolding entry_layers
  entry_layers-IsEntry inp token none = (tt, omega arith)
  entry_layers-IsEntry inp token (some (price, shares)) = add_layers-IsEntry inp token price shares

  module _ (inp : QuoteInputs W) where
    abbrev entries : Option (W × W) × Option (W × W)
    entries = equalize inp.profile.equal_share_entries (yes_entry inp) (no_entry inp)

    entry_quotes-All :
        (P : Quote W → Type 0)
        → ((q : Quote W)
            → IsEntry inp.meta (yes_token inp.meta) (entry_size inp (shares_of entries.0)) q
            → P q)
        → ((q : Quote W)
            → IsEntry inp.meta (no_token inp.meta) (entry_size inp (shares_of entries.1)) q
            → P q)
        → All P (entry_quotes inp)
    unfolding entry_quotes
    entry_quotes-All P h k =
        All-append P (entry_layers inp (yes_token inp.meta) entries.0)
          (entry_layers inp (no_token inp.meta) entries.1)
          (weaken _ P _ h (entry_layers-IsEntry inp (yes_token inp.meta) entries.0).0)
          (weaken _ P _ k (entry_layers-IsEntry inp (no_token inp.meta) entries.1).0)

    pub exit_quotes-sells :
        All (λ (q : Quote W). q.side ≡ sell) (exit_quotes inp) × (length (exit_quotes inp) ≤ 2)
    unfolding exit_quotes
    exit_quotes-sells =
        let m = inp.meta in
        let d = half_spread inp in
        let yes =
          maybe_exit-sells m (yes_token m) inp.pos_yes inp.fv d inp.yes_view m.tick_size
            (price_decimals m) inp.yes_exit_urgency inp.regime in
        let no =
          maybe_exit-sells m (no_token m) inp.pos_no (num 1 ⊖ inp.fv) d inp.no_view m.tick_size
            (price_decimals m) inp.no_exit_urgency inp.regime in
        (
          All-append (λ (q : Quote W). q.side ≡ sell) _ _ yes.0 no.0,
          rw (length-append _ _) (omega (arith, yes.1, no.1)),
        )

    exit_quotes-IsPostable : All (IsPostable inp.meta) (exit_quotes inp)
    unfolding exit_quotes
    exit_quotes-IsPostable =
        All-append (IsPostable inp.meta) _ _
          (maybe_exit-IsPostable inp.meta (yes_token inp.meta) inp.pos_yes _ _ _ _ _ _ _ (inl refl))
          (maybe_exit-IsPostable inp.meta (no_token inp.meta) inp.pos_no _ _ _ _ _ _ _ (inr refl))

    pub construct_quotes-All :
        (P : Quote W → Type 0)
        → All P (entry_quotes inp)
        → All P (exit_quotes inp)
        → All P (construct_quotes inp).quotes
    unfolding construct_quotes
    construct_quotes-All P h k = elim (Bool-cases (is_pulled inp.regime)) [
      | inl pulled ↦ rw pulled tt
      | inr quoting ↦ rw quoting (All-append P (entry_quotes inp) (exit_quotes inp) h k)
    ]

    pub construct_quotes-pulled : is_pulled inp.regime ≡ true → (construct_quotes inp).quotes ≡ []
    unfolding construct_quotes
    construct_quotes-pulled h = rw h

    -- Every quote can be posted: it is for a token of the market, at a price strictly between 0 and 1,
    -- for at least the exchange minimum. Nothing is assumed of the inputs.
    pub construct_quotes-IsPostable :
        (o : IsOrdered W) → All (IsPostable inp.meta) (construct_quotes inp).quotes
    construct_quotes-IsPostable o =
        construct_quotes-All (IsPostable inp.meta)
          (entry_quotes-All (IsPostable inp.meta)
            (λ q e. record {
              token_known = inl e.layer.token_eq;
              price_pos = e.layer.price_pos;
              price_lt_one = e.layer.price_lt_one;
              size_ge = rw e.layer.size_eq (le_of_not_lt o _ inp.meta.min_order_size e.big_enough);
            })
            (λ q e. record {
              token_known = inr e.layer.token_eq;
              price_pos = e.layer.price_pos;
              price_lt_one = e.layer.price_lt_one;
              size_ge = rw e.layer.size_eq (le_of_not_lt o _ inp.meta.min_order_size e.big_enough);
            }))
          exit_quotes-IsPostable

    -- There are at most two exits and, on each of the two tokens, at most as many entries as layers.
    pub length-construct_quotes-le :
        length (construct_quotes inp).quotes ≤ 2 * layer_count inp.profile.layers + 2
    unfolding construct_quotes entry_quotes
    length-construct_quotes-le =
        let yes = (entry_layers-IsEntry inp (yes_token inp.meta) entries.0).1 in
        let no = (entry_layers-IsEntry inp (no_token inp.meta) entries.1).1 in
        elim (Bool-cases (is_pulled inp.regime)) [
          | inl pulled ↦ rw pulled (omega arith)
          | inr quoting ↦
              rw (quoting, length-append, length-append)
                (omega (arith, yes, no, exit_quotes-sells.1))
        ]
