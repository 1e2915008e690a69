-- ===== src/State/Store/Orders.antt =====
-- state/store.py: the double-order guard of `replace_open_orders`.
use mathlib.Core.Path.{subst}
use poly_maker.Prelude.{
  ◌≡◌, refl, Bool, false, not, ◌&&◌, ◌||◌, Option, none, some, List, [], ◌∷◌, String, arith,
  if◌then◌else◌, keep_if, map, inl, inr, Bool-cases, All,
}
use poly_maker.Prelude.Eq.{◌==◌, string_eq}
use poly_maker.Float.{Float, ◌⊖◌, ◌<?◌}
use poly_maker.Dict.{
  Dict, lookup, insert, remove, values, member, lookup-insert, lookup-remove, All-values-insert,
  All-values-remove,
}
use poly_maker.Domain.{OpenOrder}
use poly_maker.State.Store.{StateStore, replace_open_orders, insert_orders, drop_absent, orders_for}

module _ {W : Type 0} ⦃f : Float W⦄ where
  abbrev pub live_ids : List (OpenOrder W) → List String
  live_ids = map λ (o : OpenOrder W). o.order_id

  -- The last order of an id in a snapshot
  abbrev pub last_order : String → List (OpenOrder W) → Option (OpenOrder W) → Option (OpenOrder W)
  last_order i [] found = found
  last_order i (o ∷ os) found = last_order i os (if o.order_id == i then some o else found)

  lookup-insert_orders :
      (i : String) (os : List (OpenOrder W)) (d : Dict String (OpenOrder W))
      → lookup i (insert_orders os d) ≡ last_order i os (lookup i d)
  lookup-insert_orders i [] d = refl
  lookup-insert_orders i (o ∷ os) d =
      rw (lookup-insert_orders i os (insert o.order_id o d), lookup-insert o.order_id i o d)

  -- Whether an order of the token may be dropped: it is absent from the snapshot and old enough
  abbrev pub is_dropped : W → W → List String → OpenOrder W → Bool
  is_dropped now grace ids o = not (member o.order_id ids || (now ⊖ o.created_ts <? grace))

  abbrev any_dropped : W → W → List String → String → List (OpenOrder W) → Bool
  any_dropped now grace ids i [] = false
  any_dropped now grace ids i (o ∷ os) =
      (is_dropped now grace ids o && o.order_id == i) || any_dropped now grace ids i os

  lookup-drop_absent :
      (now grace : W) (ids : List String) (i : String) (os : List (OpenOrder W))
      (d : Dict String (OpenOrder W))
      → lookup i (drop_absent now grace ids os d)
        ≡ (if any_dropped now grace ids i os then none else lookup i d)
  lookup-drop_absent now grace ids i [] d = refl
  lookup-drop_absent now grace ids i (o ∷ os) d =
      elim (Bool-cases (member o.order_id ids || (now ⊖ o.created_ts <? grace))) [
        | inl kept ↦ rw kept (lookup-drop_absent now grace ids i os d)
        | inr gone ↦ rw gone (
            rw
              (
                lookup-drop_absent now grace ids i os (remove o.order_id d),
                lookup-remove o.order_id i d,
              )
              (ground arith))
      ]

  -- The ids under which the orders are kept are their own, each once.
  abbrev pub IsKeyed : Dict String (OpenOrder W) → Type 0
  IsKeyed [] = Unit
  IsKeyed ((k, o) ∷ d) = (o.order_id ≡ k) × (lookup k d ≡ none) × IsKeyed d

  abbrev is_dropped_order : W → W → List String → String → Option (OpenOrder W) → Bool
  is_dropped_order now grace ids t none = false
  is_dropped_order now grace ids t (some o) = o.token_id == t && is_dropped now grace ids o

  abbrev own_orders : String → List (OpenOrder W) → List (OpenOrder W)
  own_orders t = keep_if λ (o : OpenOrder W). o.token_id == t

  any_dropped-absent :
      (now grace : W) (ids : List String) (t i : String) (d : Dict String (OpenOrder W))
      → IsKeyed d
      → lookup i d ≡ none
      → any_dropped now grace ids i (own_orders t (values d)) ≡ false
  any_dropped-absent now grace ids t i [] k e = refl
  any_dropped-absent now grace ids t i ((j, o) ∷ d) k e = elim (Bool-cases (j == i)) [
    | inl same ↦ cc (rw same at e)
    | inr other ↦ ground (
      arith,
      any_dropped-absent now grace ids t i d k.2,
      string_eq.same_iff o.order_id i,
      string_eq.same_iff j i,
    )
  ]

  any_dropped-eq :
      (now grace : W) (ids : List String) (t i : String) (d : Dict String (OpenOrder W))
      → IsKeyed d
      → any_dropped now grace ids i (own_orders t (values d))
        ≡ is_dropped_order now grace ids t (lookup i d)
  any_dropped-eq now grace ids t i [] k = refl
  any_dropped-eq now grace ids t i ((j, o) ∷ d) k = elim (Bool-cases (j == i)) [
    | inl same ↦
        let e : j ≡ i = (string_eq.same_iff j i).0 same in
        let rest =
          any_dropped-absent now grace ids t i d k.2 (subst (λ x. lookup x d ≡ none) e k.1) in
        rw same (ground (arith, string_eq.same_iff o.order_id i))
    | inr other ↦ rw other (
        ground (
          arith,
          any_dropped-eq now grace ids t i d k.2,
          string_eq.same_iff o.order_id i,
          string_eq.same_iff j i,
        ))
  ]

  -- After a snapshot of a token's orders, an id holds the snapshot's order if the snapshot has one.
  -- Otherwise it holds the local order as before, unless that order is the token's, is absent from
  -- the snapshot and is no younger than the grace period: only then is it dropped.
  pub replace_open_orders_lem :
      (now : W) (t : String) (live : List (OpenOrder W)) (grace : W) (s : StateStore W) (i : String)
      → IsKeyed s.orders
      → lookup i (replace_open_orders now t live grace s).orders
        ≡ last_order i live (
            if is_dropped_order now grace (live_ids live) t (lookup i s.orders)
            then none
            else lookup i s.orders)
  unfolding replace_open_orders
  replace_open_orders_lem now t live grace s i k = rw (
    lookup-insert_orders i live (drop_absent now grace (live_ids live) (orders_for t s) s.orders),
    lookup-drop_absent now grace (live_ids live) i (orders_for t s) s.orders,
    any_dropped-eq now grace (live_ids live) t i s.orders k,
  )

  -- What holds of every local order and of every order of the snapshot holds of every order after it.
  pub replace_open_orders-All :
      (P : OpenOrder W → Type 0) (now : W) (t : String) (live : List (OpenOrder W)) (grace : W)
      (s : StateStore W)
      → All P (values s.orders)
      → All P live
      → All P (values (replace_open_orders now t live grace s).orders)
  unfolding replace_open_orders
  replace_open_orders-All P now t live grace s a b =
      inserted P live _ (dropped P now grace (live_ids live) (orders_for t s) s.orders a) b
    where
      dropped :
          (P : OpenOrder W → Type 0) (now grace : W) (ids : List String) (os : List (OpenOrder W))
          (d : Dict String (OpenOrder W))
          → All P (values d)
          → All P (values (drop_absent now grace ids os d))
      dropped P now grace ids [] d a = a
      dropped P now grace ids (o ∷ os) d a =
          elim (Bool-cases (member o.order_id ids || (now ⊖ o.created_ts <? grace))) [
            | inl kept ↦ rw kept (dropped P now grace ids os d a)
            | inr gone ↦ rw gone (
                dropped P now grace ids os (remove o.order_id d)
                  (All-values-remove P o.order_id d a))
          ]

      inserted :
          (P : OpenOrder W → Type 0) (os : List (OpenOrder W)) (d : Dict String (OpenOrder W))
          → All P (values d)
          → All P os
          → All P (values (insert_orders os d))
      inserted P [] d a b = a
      inserted P (o ∷ os) d a b =
          inserted P os (insert o.order_id o d) (All-values-insert P o.order_id o d a b.0) b.1
