-- ===== src/Execution/Reconcile/Matching.antt =====
-- execution/reconciler.py: what one target's search among the live orders finds.
use mathlib.Core.Option.{some-injective}
use poly_maker.Prelude.{
  ◌≡◌, ◌↔◌, ◌⊎◌, refl, Bool, true, false, ◌&&◌, none, some, List, [], ◌∷◌, String, arith, All, Any,
  inl, inr, Bool-cases,
}
use poly_maker.Prelude.Eq.{string_eq}
use poly_maker.Float.{Float, num, dec, ◌⊕◌, ◌⊖◌, ◌⊗◌, ◌≼◌, fabs}
use poly_maker.Dict.{member}
use poly_maker.Domain.{Side, side_beq, OpenOrder, Quote}
use poly_maker.Execution.Reconcile.{
  Tolerances, same_key, candidates, price_close, size_close, find_match,
}

side_beq_iff : (x y : Side) → (side_beq x y ≡ true) ↔ (x ≡ y)
side_beq_iff x y = ground arith

module _ {W : Type 0} ⦃f : Float W⦄ (t : Tolerances W) where
  -- The order stands for the quote: same token and side, a price within so many ticks, and a size within
  -- a fraction of the quote's.
  pub record Fits (q : Quote W) (o : OpenOrder W) : Type 0 where
    pub token_eq : o.token_id ≡ q.token_id
    pub side_eq : o.side ≡ q.side
    pub price_near : fabs (o.price ⊖ q.price) ≼ f.of_int t.reprice_ticks ⊗ t.tick ⊕ dec 1 9
    pub size_near : (q.size ≼ num 0) ⊎ (fabs (o.size ⊖ q.size) ≼ t.resize_frac ⊗ q.size ⊕ dec 1 9)

  abbrev pub fits : Quote W → OpenOrder W → Bool
  fits q o = same_key q o && (price_close t q o && size_close t q o)

  pub fits_iff : (q : Quote W) (o : OpenOrder W) → (fits q o ≡ true) ↔ Fits q o
  fits_iff q o = (
    λ h. record {
      token_eq = ground (arith, string_eq.same_iff o.token_id q.token_id);
      side_eq = ground (arith, side_beq_iff o.side q.side);
      price_near = ground arith;
      size_near = ground arith;
    },
    λ h.
        let same = (string_eq.same_iff o.token_id q.token_id).1 h.token_eq in
        let side = (side_beq_iff o.side q.side).1 h.side_eq in
        let near = h.price_near in let size = h.size_near in ground arith,
  )

  pub find_match-fresh :
      (keep : List String) (q : Quote W) (os : List (OpenOrder W)) (o : OpenOrder W)
      → find_match t keep q os ≡ some o
      → member o.order_id keep ≡ false
  unfolding find_match
  find_match-fresh keep q [] o e = cc
  find_match-fresh keep q (x ∷ os) o e = elim (Bool-cases (member x.order_id keep)) [
    | inl held ↦ find_match-fresh keep q os o (rw held at e)
    | inr free ↦ elim (Bool-cases (price_close t q x && size_close t q x)) [
      | inl close ↦ let same = some-injective _ _ (rw (free, close) at e) in rw (← same) free
      | inr apart ↦ find_match-fresh keep q os o (rw (free, apart) at e)
    ]
  ]

  later :
      (q : Quote W) (o x : OpenOrder W) (live : List (OpenOrder W))
      → Any (λ (y : OpenOrder W). y ≡ o) live × (fits q o ≡ true)
      → Any (λ (y : OpenOrder W). y ≡ o) (x ∷ live) × (fits q o ≡ true)
  later q o x live (found, fit) = (inr found, fit)

  pub find_match-fits :
      (keep : List String) (q : Quote W) (live : List (OpenOrder W)) (o : OpenOrder W)
      → find_match t keep q (candidates q live) ≡ some o
      → Any (λ (x : OpenOrder W). x ≡ o) live × (fits q o ≡ true)
  unfolding find_match
  find_match-fits keep q [] o e = cc
  find_match-fits keep q (x ∷ live) o e = elim (Bool-cases (same_key q x)) [
    | inr other ↦ later q o x live (find_match-fits keep q live o (rw other at e))
    | inl key ↦ elim (Bool-cases (member x.order_id keep)) [
      | inl held ↦ later q o x live (find_match-fits keep q live o (rw (key, held) at e))
      | inr free ↦ elim (Bool-cases (price_close t q x && size_close t q x)) [
        | inl close ↦
            let same = some-injective _ _ (rw (key, free, close) at e) in
            (inl same, rw (← same) (rw (key, close) refl))
        | inr apart ↦ later q o x live (find_match-fits keep q live o (rw (key, free, apart) at e))
      ]
    ]
  ]

  pub find_match-none :
      (keep : List String) (q : Quote W) (live : List (OpenOrder W))
      → find_match t keep q (candidates q live) ≡ none
      → All (λ (x : OpenOrder W). (member x.order_id keep ≡ true) ⊎ (fits q x ≡ false)) live
  unfolding find_match
  find_match-none keep q [] e = tt
  find_match-none keep q (x ∷ live) e = elim (Bool-cases (same_key q x)) [
    | inr other ↦ (inr (rw other refl), find_match-none keep q live (rw other at e))
    | inl key ↦ elim (Bool-cases (member x.order_id keep)) [
      | inl held ↦ (inl held, find_match-none keep q live (rw (key, held) at e))
      | inr free ↦ elim (Bool-cases (price_close t q x && size_close t q x)) [
        | inl close ↦ cc (rw (key, free, close) at e)
        | inr apart ↦
            (inr (rw (key, apart) refl), find_match-none keep q live (rw (key, free, apart) at e))
      ]
    ]
  ]
