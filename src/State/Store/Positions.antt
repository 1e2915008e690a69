-- ===== src/State/Store/Positions.antt =====
-- state/store.py: no position is negative, and a flat one has no average price.
use mathlib.Core.Path.{subst}
use poly_maker.Prelude.{
  ltb, ◌||◌, ◌∙◌, ◌≡◌, refl, Bool, true, false, Option, none, some, [], ◌∷◌, String, arith,
  if◌then◌else◌, All, inl, inr, Bool-cases,
}
use poly_maker.Prelude.Eq.{◌==◌, string_eq}
use poly_maker.Float.{Float, num, ◌⊖◌, ◌≤?◌, ◌<?◌, ◌≼◌, fmax}
use poly_maker.Float.Laws.{IsOrdered, le-fmax_left}
use poly_maker.Dict.{Dict, lookup, lookup_or, contains, insert, remove, lookup-insert}
use poly_maker.Domain.{Fill, Position}
use poly_maker.State.Store.{
  StateStore, apply_fill, filled_position, position, set_position, reconcile_positions, is_guarded,
  inflight_count,
}

module _ {W : Type 0} ⦃f : Float W⦄ where
  -- The size is zero or more, and the average price of a flat position is zero.
  pub record IsSound (p : Position W) : Type 0 where
    pub nonneg : num 0 ≼ p.size
    pub no_price : (p.size ≤? num 0) ≡ true → p.avg_price ≡ num 0

  abbrev pub AllSound : Dict String (Position W) → Type 0
  AllSound = All λ (e : String × Position W). IsSound e.1

  insert-AllSound :
      (t : String) (p : Position W) (d : Dict String (Position W))
      → IsSound p
      → AllSound d
      → AllSound (insert t p d)
  insert-AllSound t p [] h a = (h, tt)
  insert-AllSound t p ((k, q) ∷ d) h a = elim (Bool-cases (k == t)) [
    | inl same ↦ rw same (h, a.1)
    | inr other ↦ rw other (a.0, insert-AllSound t p d h a.1)
  ]

  remove-AllSound : (t : String) (d : Dict String (Position W)) → AllSound d → AllSound (remove t d)
  remove-AllSound t [] a = tt
  remove-AllSound t ((k, q) ∷ d) a = elim (Bool-cases (k == t)) [
    | inl same ↦ rw same (remove-AllSound t d a.1)
    | inr other ↦ rw other (a.0, remove-AllSound t d a.1)
  ]

  module _ (o : IsOrdered W) where
    open o use {le_refl}

    filled_position-IsSound : (fill : Fill W) (p : Position W) → IsSound (filled_position fill p)
    unfolding filled_position
    filled_position-IsSound fill p = record {
      nonneg = le-fmax_left o (num 0) _;
      no_price = λ h. rw h;
    }

    apply_fill-AllSound :
        (fill : Fill W) (s : StateStore W)
        → AllSound s.positions
        → AllSound (apply_fill fill s).1.positions
    unfolding apply_fill
    apply_fill-AllSound fill s a = elim (Bool-cases (contains fill.trade_id s.fills)) [
      | inl old ↦ rw old a
      | inr new ↦ rw new (
          insert-AllSound fill.token_id _ s.positions
            (filled_position-IsSound fill (position fill.token_id s)) a)
    ]

    set_position-AllSound :
        (t : String) (size avg : W) (s : StateStore W)
        → AllSound s.positions
        → AllSound (set_position t size avg s).positions
    unfolding set_position
    set_position-AllSound t size avg s a =
        insert-AllSound t _ s.positions
          (record {
            nonneg = le-fmax_left o (num 0) size;
            no_price = λ h. ground (arith, o.lt-eq-not-le (num 0) size);
          })
          a

    reconcile_positions-AllSound :
        (now : W) (api : Dict String (W × W)) (s : StateStore W)
        → AllSound s.positions
        → AllSound (reconcile_positions now api s).positions
    unfolding reconcile_positions
    reconcile_positions-AllSound now [] s a = a
    reconcile_positions-AllSound now ((t, (size, avg)) ∷ api) s a =
        elim (Bool-cases (is_guarded now t s)) [
          | inl guarded ↦
              rw (guarded, reconcile_positions) (reconcile_positions-AllSound now api s a)
          | inr open_token ↦
              rw (open_token, reconcile_positions)
                (reconcile_positions-AllSound now api (set_position t size avg s)
                  (set_position-AllSound t size avg s a))
        ]

    -- Every operation on positions keeps all of them sound: a fill, of either side and any size, a
    -- position set, and a whole snapshot reconciled.
    pub positions_stay_sound :
        (s : StateStore W)
        → AllSound s.positions
        → ((fill : Fill W) → AllSound (apply_fill fill s).1.positions)
          × ((t : String) (size avg : W) → AllSound (set_position t size avg s).positions)
          × ((now : W) (api : Dict String (W × W))
              → AllSound (reconcile_positions now api s).positions)
    positions_stay_sound s a = (
      λ fill. apply_fill-AllSound fill s a,
      λ t size avg. set_position-AllSound t size avg s a,
      λ now api. reconcile_positions-AllSound now api s a,
    )

  -- The position that a snapshot's entry stands for
  abbrev pub snapshot_position : String → W × W → Position W
  snapshot_position t (size, avg) = record {
    token_id = t;
    size = fmax (num 0) size;
    avg_price = if num 0 <? size then avg else num 0;
  }

  abbrev pub HasDistinctKeys : Dict String (W × W) → Type 0
  HasDistinctKeys [] = Unit
  HasDistinctKeys ((t, v) ∷ api) = (lookup t api ≡ none) × HasDistinctKeys api

  pub lookup-set_position :
      (t u : String) (size avg : W) (s : StateStore W)
      → lookup u (set_position t size avg s).positions
        ≡ (if t == u then some (snapshot_position t (size, avg)) else lookup u s.positions)
  unfolding set_position
  lookup-set_position t u size avg s = lookup-insert t u _ s.positions

  is_guarded-set_position :
      (now : W) (t u : String) (size avg : W) (s : StateStore W)
      → is_guarded now u (set_position t size avg s) ≡ is_guarded now u s
  unfolding set_position
  is_guarded-set_position now t u size avg s = refl

  -- What reconciling does to the position of a token, given its entry in the snapshot.
  abbrev pub reconciled : Bool → String → Option (W × W) → Option (Position W) → Option (Position W)
  reconciled true u entry old = old
  reconciled false u none old = old
  reconciled false u (some v) old = some (snapshot_position u v)

  -- A REST snapshot overwrites the position of exactly the tokens that it lists and that have neither
  -- a trade in flight nor a fill within the last five seconds; every other position stays.
  pub reconcile_positions_lem :
      (now : W) (api : Dict String (W × W)) (s : StateStore W) (u : String)
      → HasDistinctKeys api
      → lookup u (reconcile_positions now api s).positions
        ≡ reconciled
            (ltb 0 (inflight_count u s) || (now ⊖ lookup_or u (num 0) s.last_fill_ts <? num 5))
            u
            (lookup u api)
            (lookup u s.positions)
  unfolding reconcile_positions
  reconcile_positions_lem now [] s u h = elim (Bool-cases (is_guarded now u s)) [
    | inl g ↦ rw g
    | inr g ↦ rw g
  ]
  reconcile_positions_lem now ((t, (size, avg)) ∷ api) s u h = elim (Bool-cases (t == u)) [
    | inl same ↦
        let e : t ≡ u = (string_eq.same_iff t u).0 same in
        let gone : lookup u api ≡ none = subst (λ k. lookup k api ≡ none) e h.0 in
        elim (Bool-cases (is_guarded now t s)) [
          | inl g ↦
              rw (g, same, reconcile_positions)
                (rw (reconcile_positions_lem now api s u h.1, gone)
                  (rw (subst (λ k. is_guarded now k s ≡ true) e g)))
          | inr g ↦
              rw (g, same, reconcile_positions)
                (rw (
                  reconcile_positions_lem now api (set_position t size avg s) u h.1,
                  gone,
                  is_guarded-set_position now t u size avg s,
                  lookup-set_position t u size avg s,
                  same,
                  subst (λ k. is_guarded now k s ≡ false) e g,
                  e,
                ))
        ]
    | inr other ↦ elim (Bool-cases (is_guarded now t s)) [
      | inl g ↦ rw (g, other, reconcile_positions) (reconcile_positions_lem now api s u h.1)
      | inr g ↦
          rw (g, other, reconcile_positions)
            (reconcile_positions_lem now api (set_position t size avg s) u h.1
              ∙ rw (
                is_guarded-set_position now t u size avg s,
                lookup-set_position t u size avg s,
                other,
              ))
    ]
  ]
