-- ===== src/Strategy/Pricing/Layers.antt =====
-- strategy/quoting.py: how `_add_layers` splits a size into orders.
use poly_maker.Prelude.{
  ℕ, zero, suc, ◌+◌, ◌≤◌, ◌≡◌, ◌⊎◌, refl, Bool, true, false, ◌&&◌, ◌||◌, [], String, arith,
  if◌then◌else◌, All, length, inl, inr, Bool-cases,
}
use poly_maker.Prelude.Int.{ℤ}
use poly_maker.Float.{Float, num, dec, ◌⊗◌, ◌≤?◌, ◌<?◌, ◌≼◌, fmax}
use poly_maker.Float.Laws.{IsOrdered}
use poly_maker.Domain.{Side, Quote}
use poly_maker.Strategy.Pricing.{
  layer_count, split_size, consolidate, layer_plan, layer_quotes, add_layers,
}

pub layer_count-pos : (layers : ℤ) → 1 ≤ layer_count layers
layer_count-pos layers = ground arith

module _ {W : Type 0} ⦃f : Float W⦄ where
  -- The loop ends with at least one layer and no more than at the start, each with its share of the
  -- total; and either one layer is left or a share is not below half the floor.
  consolidate_lem :
      (total floor : W) (n : ℕ)
      → 1 ≤ n
      → let (m, per) = consolidate total floor n (split_size total n) in
        (1 ≤ m)
        × (m ≤ n)
        × (per ≡ split_size total m)
        × ((m ≡ 1) ⊎ (((num 0 <? floor) && (per <? dec 5 1 ⊗ floor)) ≡ false))
  unfolding consolidate
  consolidate_lem total floor zero h = absurd (omega arith)
  consolidate_lem total floor (suc zero) h = (h, omega arith, refl, inl refl)
  consolidate_lem total floor (suc (suc n)) h =
      elim (Bool-cases ((num 0 <? floor) && (split_size total (suc (suc n)) <? dec 5 1 ⊗ floor))) [
        | inl small ↦
            let (low, high, share, ends) = consolidate_lem total floor (suc n) (omega arith) in
            rw (small, consolidate) (low, omega arith, share, ends)
        | inr fine ↦ rw (fine, consolidate) (omega arith, omega arith, refl, inr fine)
      ]

  -- A quote of `add_layers`: of the token and side asked, of the size given, at a price in (0, 1)
  pub record IsLayer (token : String) (side : Side) (per : W) (q : Quote W) : Type 0 where
    pub token_eq : q.token_id ≡ token
    pub side_eq : q.side ≡ side
    pub size_eq : q.size ≡ per
    pub price_pos : (num 0 <? q.price) ≡ true
    pub price_lt_one : (q.price <? num 1) ≡ true

  layer_plan-le :
      (total : W) (layers : ℤ) (exchange_min reward_floor : W)
      → (layer_plan total layers exchange_min reward_floor).0 ≤ layer_count layers
  unfolding layer_plan
  layer_plan-le total layers exchange_min reward_floor =
      (consolidate_lem total (fmax reward_floor exchange_min) (layer_count layers)
        (layer_count-pos layers)).1

  -- The plan of the layers has between one layer and the number asked, and its orders reach the reward
  -- floor (the exchange minimum, if that is larger), unless a single order is left and even that is
  -- below half the floor.
  pub layer_plan_reaches_floor :
      (o : IsOrdered W) (total : W) (layers : ℤ) (exchange_min reward_floor : W)
      → (num 0 <? fmax reward_floor exchange_min) ≡ true
      → let floor = fmax reward_floor exchange_min in
        let (n, per) = layer_plan total layers exchange_min reward_floor in
        (1 ≤ n)
        × (n ≤ layer_count layers)
        × ((floor ≼ per) ⊎ ((n ≡ 1) × ((per <? dec 5 1 ⊗ floor) ≡ true)))
  unfolding layer_plan
  layer_plan_reaches_floor o total layers exchange_min reward_floor h =
      let floor = fmax reward_floor exchange_min in
      let (low, high, _, ends) =
        consolidate_lem total floor (layer_count layers) (layer_count-pos layers) in
      (low, high, reaches o floor _ _ h ends)
    where
      reaches :
          (o : IsOrdered W) (floor per : W) (n : ℕ)
          → (num 0 <? floor) ≡ true
          → (n ≡ 1) ⊎ (((num 0 <? floor) && (per <? dec 5 1 ⊗ floor)) ≡ false)
          → let bumped = (num 0 <? floor) && ((dec 5 1 ⊗ floor ≤? per) && (per <? floor)) in
            (floor ≼ (if bumped then floor else per))
            ⊎ ((n ≡ 1) × (((if bumped then floor else per) <? dec 5 1 ⊗ floor) ≡ true))
      reaches o floor per n h ends =
          ground
            (arith, o.le_refl floor, o.lt-eq-not-le per floor, o.lt-eq-not-le per (dec 5 1 ⊗ floor))

  module _ (token : String) (side : Side) (top tick : W) (decimals : ℕ) (step : ℤ)
      (down : Bool) where
    layer_quotes-IsLayer :
        (per : W) (n i : ℕ)
        → All (IsLayer token side per) (layer_quotes token side top tick decimals step down per n i)
    unfolding layer_quotes
    layer_quotes-IsLayer per zero i = tt
    layer_quotes-IsLayer per (suc n) i = ground (arith, layer_quotes-IsLayer per n (i + 1))

    length-layer_quotes-le :
        (per : W) (n i : ℕ)
        → length (layer_quotes token side top tick decimals step down per n i) ≤ n
    unfolding layer_quotes
    length-layer_quotes-le per zero i = omega arith
    length-layer_quotes-le per (suc n) i = ground (arith, length-layer_quotes-le per n (i + 1))

    -- What `add_layers` appends: at most as many orders as layers asked, all of the size of the plan,
    -- which is positive and no smaller than the exchange minimum if there is an order at all.
    pub add_layers_lem :
        (total : W) (layers : ℤ) (exchange_min reward_floor : W)
        → let per = (layer_plan total layers exchange_min reward_floor).1 in
          let quotes =
            add_layers token side top tick decimals total layers step down exchange_min
              reward_floor in
          All (IsLayer token side per) quotes
          × (length quotes ≤ layer_count layers)
          × ((quotes ≡ []) ⊎ (((per <? exchange_min) ≡ false) × ((per ≤? num 0) ≡ false)))
    unfolding add_layers
    add_layers_lem total layers exchange_min reward_floor =
        let (n, per) = layer_plan total layers exchange_min reward_floor in
        elim (Bool-cases (total ≤? num 0)) [
          | inl none_left ↦ rw none_left (tt, omega arith, inl refl)
          | inr some_left ↦ elim (Bool-cases ((per <? exchange_min) || (per ≤? num 0))) [
            | inl dust ↦ rw (some_left, dust) (tt, omega arith, inl refl)
            | inr sized ↦
                rw (some_left, sized)
                  (
                    layer_quotes-IsLayer per n 0,
                    omega (
                      arith,
                      length-layer_quotes-le per n 0,
                      layer_plan-le total layers exchange_min reward_floor,
                    ),
                    inr (ground arith, ground arith),
                  )
          ]
        ]
