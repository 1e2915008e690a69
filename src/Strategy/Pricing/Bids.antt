-- ===== src/Strategy/Pricing/Bids.antt =====
-- strategy/quoting.py: the range of a rounded price, and the maker rules that a bid price obeys.
use poly_maker.Prelude.{
  ℕ, ◌≡◌, ◌⊎◌, refl, Bool, true, false, Option, none, some, arith, inl, inr, Bool-cases,
  Option-cases, IfSome, IfSome-intro,
}
use poly_maker.Prelude.Int.{ℤ}
use poly_maker.Float.{Float, num, ◌⊖◌, ◌≤?◌, ◌<?◌, ◌≼◌, fmin, fmax}
use poly_maker.Float.Laws.{
  IsOrdered, IsMonotone, fmin-le_left, fmin-le_right, le-fmin, le-fmax_right, not_le_of_lt,
  le_of_lt, lt_of_lt_of_le, lt_of_le_of_lt, lt_of_not_le,
}
use poly_maker.Book.{BookView}
use poly_maker.Strategy.Pricing.{
  ticks, round_to_tick, compute_fair_value, joined_price, bid_price, place_bid,
}

module _ {W : Type 0} ⦃f : Float W⦄ (o : IsOrdered W) where
  open o use {le_refl, le_trans}

  clamped :
      (p tick : W)
      → tick ≼ num 1 ⊖ tick
      → (tick ≼ fmin (fmax p tick) (num 1 ⊖ tick))
        × (fmin (fmax p tick) (num 1 ⊖ tick) ≼ num 1 ⊖ tick)
  clamped p tick h = (
    le-fmin o (fmax p tick) (num 1 ⊖ tick) tick (le-fmax_right o p tick) h,
    fmin-le_right o (fmax p tick) (num 1 ⊖ tick),
  )

  -- On a grid with tick at most one half, every rounded price lies between one tick and one tick below
  -- 1, and so does every fair value, whatever the price, the flow and the direction of rounding.
  pub prices_in_range :
      (price flow_z tick : W) (decimals : ℕ) (up : Bool)
      → tick ≼ num 1 ⊖ tick
      → (tick ≼ round_to_tick price tick decimals up)
        × (round_to_tick price tick decimals up ≼ num 1 ⊖ tick)
        × (tick ≼ compute_fair_value price flow_z tick)
        × (compute_fair_value price flow_z tick ≼ num 1 ⊖ tick)
  unfolding round_to_tick compute_fair_value
  prices_in_range price flow_z tick decimals up h =
      let rounded = clamped _ tick h in
      let fair = clamped _ tick h in (rounded.0, rounded.1, fair.0, fair.1)

  -- With such a tick, itself positive, `place_bid` always finds a price, one in that range: its
  -- refusal of prices outside (0, 1) is never taken.
  pub place_bid_total :
      (target : W) (view : BookView W) (tick : W) (decimals : ℕ) (fv : W) (min_edge join : ℤ)
      → (num 0 <? tick) ≡ true
      → (num 1 ⊖ tick <? num 1) ≡ true
      → tick ≼ num 1 ⊖ tick
      → (p : W) × (place_bid target view tick decimals fv min_edge join ≡ some p)
        × (tick ≼ p)
        × (p ≼ num 1 ⊖ tick)
  unfolding place_bid
  place_bid_total target view tick decimals fv min_edge join h k g =
      let raw = bid_price target view tick fv min_edge join in
      let p = round_to_tick raw tick decimals false in
      let (low, high, _, _) = prices_in_range raw raw tick decimals false g in
      (
        p,
        rw (
          not_le_of_lt o (num 0) p (lt_of_lt_of_le o (num 0) tick p h low),
          not_le_of_lt o p (num 1) (lt_of_le_of_lt o p (num 1 ⊖ tick) (num 1) high k),
        ),
        low,
        high,
      )

  module _ (mono : IsMonotone W) where
    open mono use {sub_mono, sub-zero}

    sub-le : (a t : W) → num 0 ≼ t → a ⊖ t ≼ a
    sub-le a t h = rw sub-zero at (sub_mono a a t (num 0) (le_refl a) h)

    joined_price-le-cap :
        (target : W) (best_bid : Option W) (tick cap : W) (join : ℤ)
        → joined_price target best_bid tick cap join ≼ cap
    unfolding joined_price
    joined_price-le-cap target none tick cap join = fmin-le_right o target cap
    joined_price-le-cap target (some bid) tick cap join =
        ground (arith, fmin-le_right o target cap, fmin-le_right o bid cap)

    joined_price-le-bid :
        (target bid tick cap : W) (join : ℤ)
        → num 0 ≼ ticks join tick
        → joined_price target (some bid) tick cap join ≼ bid
    unfolding joined_price
    joined_price-le-bid target bid tick cap join h =
        elim (Bool-cases (bid ⊖ ticks join tick ≤? fmin target cap)) [
          | inl near ↦ rw near (fmin-le_left o bid cap)
          | inr far ↦ rw far (
              le_trans (fmin target cap) (bid ⊖ ticks join tick) bid
                (le_of_lt o _ _ (lt_of_not_le o (bid ⊖ ticks join tick) (fmin target cap) far))
                (sub-le bid (ticks join tick) h))
        ]

    bid_price-le-joined :
        (target : W) (view : BookView W) (tick fv : W) (min_edge join : ℤ)
        → num 0 ≼ tick
        → bid_price target view tick fv min_edge join
          ≼ joined_price target view.best_bid tick (fv ⊖ ticks min_edge tick) join
    unfolding bid_price
    bid_price-le-joined target view tick fv min_edge join h =
        let price = joined_price target view.best_bid tick (fv ⊖ ticks min_edge tick) join in
        elim (Option-cases view.best_ask) [
          | inl e ↦ rw (e, bid_price) (le_refl price)
          | inr (ask, e) ↦ elim (Bool-cases (ask ≤? price)) [
            | inl crossing ↦
                rw (e, bid_price)
                  (rw crossing (le_trans (ask ⊖ tick) ask price (sub-le ask tick h) crossing))
            | inr clear ↦ rw (e, bid_price) (rw clear (le_refl price))
          ]
        ]

    bid_price-ask :
        (target : W) (view : BookView W) (tick fv : W) (min_edge join : ℤ) (ask : W)
        → view.best_ask ≡ some ask
        → ((bid_price target view tick fv min_edge join <? ask) ≡ true)
          ⊎ (bid_price target view tick fv min_edge join ≡ ask ⊖ tick)
    unfolding bid_price
    bid_price-ask target view tick fv min_edge join ask e =
        let price = joined_price target view.best_bid tick (fv ⊖ ticks min_edge tick) join in
        elim (Bool-cases (ask ≤? price)) [
          | inl crossing ↦ rw (e, bid_price) (rw crossing (inr refl))
          | inr clear ↦ rw (e, bid_price) (rw clear (inl (lt_of_not_le o ask price clear)))
        ]

    -- Before rounding a bid obeys the maker rules: it is at least the minimum edge below the fair
    -- value, it does not improve on the best bid, and it is below the best ask, or one tick below it
    -- where it would have crossed.
    pub bid_price_rules :
        (target : W) (view : BookView W) (tick fv : W) (min_edge join : ℤ)
        → num 0 ≼ tick
        → num 0 ≼ ticks join tick
        → let price = bid_price target view tick fv min_edge join in
          (price ≼ fv ⊖ ticks min_edge tick)
          × IfSome (λ bid. price ≼ bid) view.best_bid
          × IfSome (λ ask. ((price <? ask) ≡ true) ⊎ (price ≡ ask ⊖ tick)) view.best_ask
    bid_price_rules target view tick fv min_edge join h k =
        let cap = fv ⊖ ticks min_edge tick in
        let price = bid_price target view tick fv min_edge join in
        let joined = joined_price target view.best_bid tick cap join in
        let below = bid_price-le-joined target view tick fv min_edge join h in
        (
          le_trans price joined cap below (joined_price-le-cap target view.best_bid tick cap join),
          IfSome-intro (λ bid. price ≼ bid) view.best_bid
              (λ bid e.
                le_trans price joined bid below
                  (rw e (joined_price-le-bid target bid tick cap join k))),
          IfSome-intro (λ ask. ((price <? ask) ≡ true) ⊎ (price ≡ ask ⊖ tick)) view.best_ask
              (bid_price-ask target view tick fv min_edge join),
        )
