-- ===== src/Engine/Requests/Orders.antt =====
-- engine.py: when quotes are placed, and what a resync leaves in the store.
use poly_maker.Prelude.{
  ◌≡◌, ◌⊎◌, refl, Bool, true, false, not, ◌&&◌, List, [], ◌∷◌, String, arith, if◌then◌else◌, All,
  All-append, if-intro, inl, inr, Bool-cases, is_empty, ltb, length,
}
use poly_maker.Prelude.Eq.{◌==◌, string_eq}
use poly_maker.Float.{Float, dec, ◌<?◌}
use poly_maker.Dict.{values}
use poly_maker.Domain.{OpenOrder, MarketMeta, Quote, yes_token, no_token}
use poly_maker.Execution.Reconcile.{is_noop}
use poly_maker.State.Store.{StateStore}
use poly_maker.State.Store.Orders.{replace_open_orders-All}
use poly_maker.Engine.{Engine, Settings, Links, wake_cid}
use poly_maker.Engine.Quoter.{Planned}
use poly_maker.Engine.Requests.{
  is_calm, Request, cancels, places, cancels_asset, reads_orders, Answers, orders_of,
  refresh_token_orders, quarantine, maybe_merge, finish, place_quotes, place_stage, carry_out,
}

module _ {W : Type 0} ⦃f : Float W⦄ where
  pub orders_of-All :
      (P : OpenOrder W → Type 0) (t : String) (os : List (OpenOrder W))
      → All P os
      → All P (orders_of t os)
  orders_of-All P t [] a = tt
  orders_of-All P t (o ∷ os) a = elim (Bool-cases (o.token_id == t)) [
    | inl own ↦ rw own (a.0, orders_of-All P t os a.1)
    | inr other ↦ rw other (orders_of-All P t os a.1)
  ]

  pub refresh_token_orders-All :
      (P : OpenOrder W → Type 0) (now : W) (m : MarketMeta W) (live : List (OpenOrder W))
      (grace : W) (s : StateStore W)
      → All P (values s.orders)
      → All P live
      → All P (values (refresh_token_orders now m live grace s).orders)
  unfolding refresh_token_orders
  refresh_token_orders-All P now m live grace s a b =
      replace_open_orders-All P now (no_token m) (orders_of (no_token m) live) grace _
        (replace_open_orders-All P now (yes_token m) (orders_of (yes_token m) live) grace s a
          (orders_of-All P (yes_token m) live b))
        (orders_of-All P (no_token m) live b)

  -- The quotes of a request to place
  abbrev pub placed_by : Request W → List (Quote W)
  placed_by (places qs) = qs
  placed_by _ = []

  abbrev pub is_shed : Settings W → Links W → Planned W → Bool
  is_shed cfg links p = not cfg.paper && ((dec 85 2 <? links.order_pressure) && is_calm p.regime)

  -- A request to place is the plan's, after the plan's cancellations were confirmed or not needed, and
  -- not while load is shed.
  abbrev IsOrderly : Settings W → Links W → Bool → Planned W → Request W → Type 0
  IsOrderly cfg links cancel_ok p r =
      (placed_by r ≡ [])
      ⊎ ((placed_by r ≡ p.plan.to_place)
          × ((is_empty p.plan.to_cancel ≡ true) ⊎ (cancel_ok ≡ true))
          × (is_shed cfg links p ≡ false))

module _ {W D : Type 0} ⦃f : Float W⦄ (cfg : Settings W) (links : Links W) (answers : Answers W)
    (now : W) where
  abbrev AllOrderly : Planned W → List (Request W) × Engine W D → Type 0
  AllOrderly p r = All (IsOrderly cfg links answers.cancel_ok p) r.0

  maybe_merge-IsOrderly :
      (cid : String) (p : Planned W) (e : Engine W D) → AllOrderly p (maybe_merge cfg cid p e)
  unfolding maybe_merge
  maybe_merge-IsOrderly cid p e = ground arith

  finish-IsOrderly :
      (cid : String) (p : Planned W) (asked : List (Request W)) (e : Engine W D)
      → All (IsOrderly cfg links answers.cancel_ok p) asked
      → AllOrderly p (finish cfg links answers now cid p asked e)
  finish-IsOrderly cid p asked e h = All-append _ asked _ h (maybe_merge-IsOrderly cid p _)

  place_quotes-IsOrderly :
      (p : Planned W) (e : Engine W D)
      → (is_empty p.plan.to_cancel ≡ true) ⊎ (answers.cancel_ok ≡ true)
      → is_shed cfg links p ≡ false
      → All (IsOrderly cfg links answers.cancel_ok p) (place_quotes answers now p e.state e.risk).0
  unfolding place_quotes quarantine
  place_quotes-IsOrderly p e cleared free =
      (inr (refl, cleared, free), by_test (ltb (length answers.placed) (length p.plan.to_place)))
    where
      by_test :
          (b : Bool)
          → All (IsOrderly cfg links answers.cancel_ok p) (
              if b
              then cancels_asset (yes_token p.meta)
                ∷ cancels_asset (no_token p.meta)
                ∷ reads_orders
                ∷ []
              else [])
      by_test true = (inl refl, (inl refl, (inl refl, tt)))
      by_test false = tt

  place_stage-IsOrderly :
      (cid : String) (p : Planned W) (asked : List (Request W)) (e : Engine W D)
      → All (IsOrderly cfg links answers.cancel_ok p) asked
      → (is_empty p.plan.to_cancel ≡ true) ⊎ (answers.cancel_ok ≡ true)
      → AllOrderly p (place_stage cfg links answers now cid p asked e)
  unfolding place_stage
  place_stage-IsOrderly cid p asked e h cleared = elim (Bool-cases (is_empty p.plan.to_place)) [
    | inl nothing ↦ rw nothing (finish-IsOrderly cid p asked e h)
    | inr some_quotes ↦ elim (Bool-cases (is_shed cfg links p)) [
      | inl shed ↦ rw (some_quotes, shed) (finish-IsOrderly cid p asked (wake_cid cid e) h)
      | inr free ↦
          rw (some_quotes, free)
            (finish-IsOrderly cid p _ _
              (All-append _ asked _ h (place_quotes-IsOrderly p e cleared free)))
    ]
  ]

  -- Whatever the gateway answers: quotes are placed only as planned, only once the cancellations of the
  -- plan were confirmed (or there were none), and never while load is shed.
  pub placements_follow_cancels :
      (cid : String) (p : Planned W) (e : Engine W D)
      → All
          (λ (r : Request W).
            (placed_by r ≡ [])
            ⊎ ((placed_by r ≡ p.plan.to_place)
                × ((is_empty p.plan.to_cancel ≡ true) ⊎ (answers.cancel_ok ≡ true))
                × (is_shed cfg links p ≡ false)))
          (carry_out cfg links answers now cid p e).0
  unfolding carry_out
  placements_follow_cancels cid p e =
      if-intro (AllOrderly p) (is_noop p.plan) _ _ (λ _. maybe_merge-IsOrderly cid p e)
        (λ _.
          if-intro (AllOrderly p) (is_empty p.plan.to_cancel) _ _
            (λ nothing. place_stage-IsOrderly cid p [] e tt (inl nothing))
            (λ _.
              if-intro (AllOrderly p) answers.cancel_ok _ _
                (λ ok.
                  place_stage-IsOrderly cid p (cancels p.plan.to_cancel ∷ []) _ (inl refl, tt)
                    (inr ok))
                (λ _. (inl refl, (inl refl, tt)))))
