-- ===== src/Engine/Startup/Clean.antt =====
-- engine.py: what the store holds when quoting starts.
use poly_maker.Prelude.{
  ◌≡◌, refl, ◌∙◌, Bool, true, false, not, ◌&&◌, none, List, [], ◌∷◌, String, if◌then◌else◌, arith,
  All, Bool-cases, inl, inr, is_empty, keep_if, if-intro,
}
use poly_maker.Prelude.Eq.{string_eq}
use poly_maker.Float.{Float, num}
use poly_maker.Dict.{
  Dict, lookup, contains, insert, remove, keys, values, member, lookup-insert, lookup-remove,
  contains-eq-member,
}
use poly_maker.Domain.{OpenOrder, Position}
use poly_maker.State.Store.{
  StateStore, drop_untracked_positions, remove_all, reconcile_positions, set_position, is_guarded,
}
use poly_maker.State.Store.Orders.{replace_open_orders-All}
use poly_maker.Engine.{Engine, only_traded}
use poly_maker.Engine.Requests.{orders_of}
use poly_maker.Engine.Requests.Orders.{orders_of-All}
use poly_maker.Engine.Startup.{adopt_orders, startup_reconcile}

member-keep_if :
    (p : String → Bool) (t : String) (xs : List String)
    → member t (keep_if p xs) ≡ (p t && member t xs)
member-keep_if p t [] = ground arith
member-keep_if p t (x ∷ xs) = elim (Bool-cases (p x)) [
  | inl kept ↦ rw kept (ground (arith, member-keep_if p t xs, string_eq.same_iff x t, kept))
  | inr gone ↦ rw gone (ground (arith, member-keep_if p t xs, string_eq.same_iff x t, gone))
]

module _ {W : Type 0} ⦃f : Float W⦄ where
  adopt_orders-All :
      (P : OpenOrder W → Type 0) (now : W) (ts : List String) (still : List (OpenOrder W))
      (s : StateStore W)
      → All P still
      → All P (values s.orders)
      → All P (values (adopt_orders now ts still s).orders)
  unfolding adopt_orders
  adopt_orders-All P now [] still s b a = a
  adopt_orders-All P now (t ∷ ts) still s b a =
      adopt_orders-All P now ts still _ b (
        replace_open_orders-All P now t (orders_of t still) (num 0) s a (orders_of-All P t still b))

  lookup-remove_all :
      (ts : List String) (d : Dict String (Position W)) (t : String)
      → lookup t (remove_all ts d) ≡ (if member t ts then none else lookup t d)
  lookup-remove_all [] d t = refl
  lookup-remove_all (x ∷ xs) d t =
      ground (arith, lookup-remove_all xs (remove x d) t, lookup-remove x t d)

  -- Only tokens of the list have positions.
  abbrev pub HoldsOnly : List String → Dict String (Position W) → Type 0
  HoldsOnly tokens d = (t : String) → contains t d ≡ true → member t tokens ≡ true

  drop_untracked-HoldsOnly :
      (tokens : List String) (s : StateStore W)
      → HoldsOnly tokens (drop_untracked_positions tokens s).1.positions
  unfolding drop_untracked_positions
  drop_untracked-HoldsOnly tokens s t h =
      let dropped = keep_if (λ x. not (member x tokens)) (keys s.positions) in
      ground (
        arith,
        lookup-remove_all dropped s.positions t,
        member-keep_if (λ x. not (member x tokens)) t (keys s.positions),
        contains-eq-member t s.positions,
      )

  insert-HoldsOnly :
      (tokens : List String) (x : String) (pos : Position W) (d : Dict String (Position W))
      → member x tokens ≡ true
      → HoldsOnly tokens d
      → HoldsOnly tokens (insert x pos d)
  insert-HoldsOnly tokens x pos d m h t k =
      ground (arith, lookup-insert x t pos d, string_eq.same_iff x t, h t, m, k)

  reconcile_positions-HoldsOnly :
      (tokens : List String) (now : W) (api : Dict String (W × W)) (s : StateStore W)
      → All (λ t. member t tokens ≡ true) (keys api)
      → HoldsOnly tokens s.positions
      → HoldsOnly tokens (reconcile_positions now api s).positions
  unfolding reconcile_positions set_position
  reconcile_positions-HoldsOnly tokens now [] s a h = h
  reconcile_positions-HoldsOnly tokens now ((x, (size, avg)) ∷ api) s a h =
      reconcile_positions-HoldsOnly tokens now api _ a.1 (
        if-intro (λ (s' : StateStore W). HoldsOnly tokens s'.positions) (is_guarded now x s) _ _
          (λ _. h) (λ _. insert-HoldsOnly tokens x _ s.positions a.0 h))

  reconcile_positions-orders :
      (now : W) (api : Dict String (W × W)) (s : StateStore W)
      → (reconcile_positions now api s).orders ≡ s.orders
  unfolding reconcile_positions set_position
  reconcile_positions-orders now [] s = refl
  reconcile_positions-orders now ((x, (size, avg)) ∷ api) s =
      reconcile_positions-orders now api _ ∙ ground arith

module _ {W D : Type 0} ⦃f : Float W⦄ where
  only_traded-All :
      (e : Engine W D) (api : Dict String (W × W))
      → All (λ t. member t (keys e.token_cid) ≡ true) (keys (only_traded e api))
  only_traded-All e [] = tt
  only_traded-All e ((t, v) ∷ api) = elim (Bool-cases (contains t e.token_cid)) [
    | inl traded ↦
        rw traded (ground (arith, contains-eq-member t e.token_cid), only_traded-All e api)
    | inr other ↦ rw other (only_traded-All e api)
  ]

  -- When quoting starts, with a store that had no orders, the store holds no order but those that the
  -- exchange still reports after the clean-up (what holds of all of them holds of every order kept),
  -- and no position but of tokens that the engine trades, whatever the account or the tables held.
  pub startup_holds_only_ours :
      (P : OpenOrder W → Type 0) (now : W) (leftover still : List (OpenOrder W))
      (account : Dict String (W × W)) (e : Engine W D)
      → e.state.orders ≡ []
      → All P still
      → let e' = (startup_reconcile now leftover still account e).1 in
        All P (values e'.state.orders)
        × ((t : String) → contains t e'.state.positions ≡ true → contains t e'.token_cid ≡ true)
  unfolding startup_reconcile drop_untracked_positions
  startup_holds_only_ours P now leftover still account e none_yet a = (
    rw (reconcile_positions-orders now (only_traded e account) (purged (is_empty leftover)))
        (kept-All (is_empty leftover)),
    λ t h.
        contains-eq-member t e.token_cid
        ∙ reconcile_positions-HoldsOnly (keys e.token_cid) now (only_traded e account)
            (purged (is_empty leftover)) (only_traded-All e account)
            (drop_untracked-HoldsOnly (keys e.token_cid) (kept (is_empty leftover))) t h,
  )
    where
      kept : Bool → StateStore W
      kept b = if b then e.state else adopt_orders now (keys e.token_cid) still e.state

      purged : Bool → StateStore W
      purged b = (drop_untracked_positions (keys e.token_cid) (kept b)).1

      kept-All : (b : Bool) → All P (values (kept b).orders)
      kept-All true = rw none_yet tt
      kept-All false = adopt_orders-All P now (keys e.token_cid) still e.state a (rw none_yet tt)
