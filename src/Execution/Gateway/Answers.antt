-- ===== src/Execution/Gateway/Answers.antt =====
-- execution/gateway.py: placed orders against quotes, the count of missed heartbeats, and a failed read.
use mathlib.Core.Option
use mathlib.Core.Option.{some-injective}
use mathlib.Core.Path.{subst}
use poly_maker.Prelude.{
  ℕ, zero, suc, ◌+◌, ◌≤◌, ◌≡◌, ◌∙◌, refl, ap, true, false, Option, none, some, List, [], ◌∷◌, ◌++◌,
  String, arith, All, Any, if-intro, length, inl, inr, Option-cases,
}
use poly_maker.Prelude.Eq.{◌==◌, string_eq}
use poly_maker.Float.{Float, ◌⊖◌, ◌<?◌}
use poly_maker.Dict.{lookup}
use poly_maker.Domain.{OpenOrder, Quote}
use poly_maker.Execution.Gateway.{
  answered_orders, post, Gateway, Item, Response, items_of, first_of, id_keys, order_of,
  placed_orders, paper_orders, place, heartbeat, open_orders,
}
use poly_maker.State.Store.{StateStore, replace_open_orders}
use poly_maker.State.Store.Orders.{IsKeyed, replace_open_orders_lem}

-- That many heartbeats that raised
abbrev pub misses : ℕ → List (Option Item)
misses zero = []
misses (suc k) = none ∷ misses k

module _ {W : Type 0} ⦃f : Float W⦄ where
  -- The order is the quote's: token, side, price and size.
  pub record IsOrderOf (o : OpenOrder W) (q : Quote W) : Type 0 where
    pub token_eq : o.token_id ≡ q.token_id
    pub side_eq : o.side ≡ q.side
    pub price_eq : o.price ≡ q.price
    pub size_eq : o.size ≡ q.size

  abbrev pub AllQuoted : List (Quote W) → List (OpenOrder W) → Type 0
  AllQuoted qs os = All (λ (o : OpenOrder W). Any (IsOrderOf o) qs) os

  order_of-IsOrderOf : (now : W) (i : String) (q : Quote W) → IsOrderOf (order_of now i q) q
  order_of-IsOrderOf now i q = record {
    token_eq = refl;
    side_eq = refl;
    price_eq = refl;
    size_eq = refl;
  }

  AllQuoted-cons :
      (q : Quote W) (qs : List (Quote W)) (os : List (OpenOrder W))
      → AllQuoted qs os
      → AllQuoted (q ∷ qs) os
  AllQuoted-cons q qs [] a = tt
  AllQuoted-cons q qs (o ∷ os) a = (inr a.0, AllQuoted-cons q qs os a.1)

  placed_orders-AllQuoted :
      (now : W) (qs : List (Quote W)) (xs : List Item)
      → AllQuoted qs (placed_orders now qs xs) × (length (placed_orders now qs xs) ≤ length qs)
  unfolding placed_orders
  placed_orders-AllQuoted now [] xs = (tt, omega arith)
  placed_orders-AllQuoted now (q ∷ qs) [] = (tt, omega arith)
  placed_orders-AllQuoted now (q ∷ qs) (x ∷ xs) =
      let (quoted, few) = placed_orders-AllQuoted now qs xs in
      elim (Option-cases (first_of id_keys x)) [
        | inl missing ↦
            rw (missing, placed_orders) (AllQuoted-cons q qs _ quoted, omega (arith, few))
        | inr (i, found) ↦
            rw (found, placed_orders)
              ((inl (order_of-IsOrderOf now i q), AllQuoted-cons q qs _ quoted), omega (arith, few))
      ]

  paper_orders-AllQuoted :
      (show : ℕ → String) (now : W) (n : ℕ) (qs : List (Quote W))
      → AllQuoted qs (paper_orders show now n qs)
        × (length (paper_orders show now n qs) ≤ length qs)
  unfolding paper_orders
  paper_orders-AllQuoted show now n [] = (tt, omega arith)
  paper_orders-AllQuoted show now n (q ∷ qs) =
      let (quoted, few) = paper_orders-AllQuoted show now (n + 1) qs in
      ((inl (order_of-IsOrderOf now _ q), AllQuoted-cons q qs _ quoted), omega (arith, few))

  -- The gateway after a run of heartbeats
  pub run_beats : List (Option Item) → Gateway W → Gateway W
  run_beats [] g = g
  run_beats (x ∷ xs) g = run_beats xs (heartbeat x g).1

  abbrev IsOn : Gateway W → Type 0
  IsOn g = (g.paper ≡ false) × (g.ready ≡ true)

  heartbeat-IsOn : (x : Option Item) (g : Gateway W) → IsOn g → IsOn (heartbeat x g).1
  unfolding heartbeat
  heartbeat-IsOn none g on = rw (on.0, on.1) (refl, refl)
  heartbeat-IsOn (some x) g on = rw (on.0, on.1) (refl, refl)

  run_misses :
      (k : ℕ) (g : Gateway W) → IsOn g → (run_beats (misses k) g).hb_failures ≡ g.hb_failures + k
  unfolding run_beats heartbeat
  run_misses zero g on = omega arith
  run_misses (suc k) g on =
      run_misses k (heartbeat none g).1 (heartbeat-IsOn none g on) ∙ rw (on.0, on.1) (omega arith)

  -- The count of failures is the number of heartbeats missed since the last good one, whatever came
  -- before it: after any answers, a good one, and k misses, the count is k.
  pub heartbeat_counts_misses :
      (earlier : List (Option Item)) (good : Item) (k : ℕ) (g : Gateway W)
      → g.paper ≡ false
      → g.ready ≡ true
      → (run_beats (earlier ++ (some good ∷ misses k)) g).hb_failures ≡ k
  unfolding run_beats heartbeat
  heartbeat_counts_misses [] good k g p r =
      run_misses k (heartbeat (some good) g).1 (heartbeat-IsOn (some good) g (p, r))
      ∙ rw (p, r) (omega arith)
  heartbeat_counts_misses (x ∷ xs) good k g p r =
      let on = heartbeat-IsOn x g (p, r) in
      heartbeat_counts_misses xs good k (heartbeat x g).1 on.0 on.1

  failed_read-empty : (g : Gateway W) → open_orders none g ≡ []
  unfolding open_orders
  failed_read-empty g = ground arith

  -- A failed read of the open orders is taken for an empty book of orders: the store forgets every
  -- order of the token that is past the grace period, although nothing says that it is gone.
  pub failed_read_forgets :
      (now : W) (t : String) (grace : W) (g : Gateway W) (s : StateStore W) (i : String)
      (o : OpenOrder W)
      → IsKeyed s.orders
      → lookup i s.orders ≡ some o
      → (o.token_id == t) ≡ true
      → (now ⊖ o.created_ts <? grace) ≡ false
      → lookup i (replace_open_orders now t (open_orders none g) grace s).orders ≡ none
  failed_read_forgets now t grace g s i o k found own old =
      ap (λ rows. lookup i (replace_open_orders now t rows grace s).orders) (failed_read-empty g)
      ∙ replace_open_orders_lem now t [] grace s i k
      ∙ rw (found, own, old)

  post-AllQuoted :
      (show : ℕ → String) (now : W) (qs : List (Quote W)) (answer : Option Response) (g : Gateway W)
      → AllQuoted qs (post show now qs answer g).0
        × (length (post show now qs answer g).0 ≤ length qs)
  unfolding post
  post-AllQuoted show now qs answer g =
      if-intro (λ (r : List (OpenOrder W) × Gateway W). AllQuoted qs r.0 × (length r.0 ≤ length qs))
        g.paper _ _ (λ _. paper_orders-AllQuoted show now g.paper_ids qs) (λ _. by_answer answer)
    where
      by_answer :
          (a : Option Response)
          → AllQuoted qs (answered_orders now qs a)
            × (length (answered_orders now qs a) ≤ length qs)
      by_answer none = (tt, omega arith)
      by_answer (some r) = placed_orders-AllQuoted now qs (items_of r)

  -- What `place` returns, in paper and in live mode and whatever the exchange answers: at most as many
  -- orders as quotes, each with the token, side, price and size of one of the quotes.
  pub place_lem :
      (show : ℕ → String) (nows : List W) (now : W) (qs : List (Quote W)) (answer : Option Response)
      (g : Gateway W) (os : List (OpenOrder W)) (g' : Gateway W)
      → place show nows now qs answer g ≡ some (os, g')
      → AllQuoted qs os × (length os ≤ length qs)
  unfolding place
  place_lem show nows now [] answer g os g' e =
      subst (λ x. AllQuoted [] x.0 × (length x.0 ≤ 0)) (some-injective _ _ e) (tt, omega arith)
  place_lem show nows now (q ∷ qs) answer g os g' e =
      let (bucket, _, posted) = (Option.map-eq-some_iff _ _).0 e in
      subst (λ x. AllQuoted (q ∷ qs) x.0 × (length x.0 ≤ length (q ∷ qs))) posted
        (post-AllQuoted show now (q ∷ qs) answer (record g { order_bucket = bucket }))
