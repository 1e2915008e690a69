-- ===== src/Strategy/Estimators/Markouts.antt =====
-- strategy/estimators.py: which fills the markout tracker resolves, and the bounds of its summary.
use poly_maker.Prelude.{◌≡◌, refl, Bool, List, [], ◌∷◌, keep_if, not, inl, inr, Bool-cases, ap}
use poly_maker.Float.{Float, ◌≤?◌}
use poly_maker.Strategy.Estimators.{
  Ewma, PendingMarkout, MarkoutTracker, update, resolve, evaluate, signed_markout,
}

module _ {W : Type 0} ⦃f : Float W⦄ where
  abbrev pub is_due : W → PendingMarkout W → Bool
  is_due ts p = p.due_ts ≤? ts

  -- The mean fed with the markouts of a list of fills, first to last
  abbrev pub feed : W → W → List (PendingMarkout W) → Ewma W → Ewma W
  feed fv_now ts [] e = e
  feed fv_now ts (p ∷ ps) e = feed fv_now ts ps (update (signed_markout fv_now p) ts e)

  resolve-eq :
      (fv_now ts : W) (ps : List (PendingMarkout W)) (e : Ewma W)
      → resolve fv_now ts ps e
        ≡ (keep_if (λ p. not (is_due ts p)) ps, feed fv_now ts (keep_if (is_due ts) ps) e)
  unfolding resolve
  resolve-eq fv_now ts [] e = refl
  resolve-eq fv_now ts (p ∷ ps) e = elim (Bool-cases (p.due_ts ≤? ts)) [
    | inl due ↦ rw (due, resolve-eq fv_now ts ps (update (signed_markout fv_now p) ts e))
    | inr later ↦ rw (later, resolve-eq fv_now ts ps e)
  ]

  keep_if-none :
      (ts : W) (ps : List (PendingMarkout W))
      → keep_if (is_due ts) (keep_if (λ p. not (is_due ts p)) ps) ≡ []
  keep_if-none ts [] = refl
  keep_if-none ts (p ∷ ps) = elim (Bool-cases (p.due_ts ≤? ts)) [
    | inl due ↦ rw due (keep_if-none ts ps)
    | inr later ↦ rw (later, keep_if) (rw later (keep_if-none ts ps))
  ]

  keep_if-twice :
      (ts : W) (ps : List (PendingMarkout W))
      → keep_if (λ p. not (is_due ts p)) (keep_if (λ p. not (is_due ts p)) ps)
        ≡ keep_if (λ p. not (is_due ts p)) ps
  keep_if-twice ts [] = refl
  keep_if-twice ts (p ∷ ps) = elim (Bool-cases (p.due_ts ≤? ts)) [
    | inl due ↦ rw due (keep_if-twice ts ps)
    | inr later ↦ rw later (rw later (ap (◌∷◌ p) (keep_if-twice ts ps)))
  ]

  -- `evaluate` feeds the mean with exactly the fills whose horizon has passed, oldest first, and
  -- keeps exactly the others, in order.
  pub evaluate_splits :
      (fv_now ts : W) (m : MarkoutTracker W)
      → ((evaluate fv_now ts m).pending ≡ keep_if (λ p. not (is_due ts p)) m.pending)
        × ((evaluate fv_now ts m).markout
            ≡ feed fv_now ts (keep_if (is_due ts) m.pending) m.markout)
  unfolding evaluate
  evaluate_splits fv_now ts m = (
    ap (λ (x : List (PendingMarkout W) × Ewma W). x.0) (resolve-eq fv_now ts m.pending m.markout),
    ap (λ (x : List (PendingMarkout W) × Ewma W). x.1) (resolve-eq fv_now ts m.pending m.markout),
  )

  -- No fill is counted twice: at the same time a second evaluation changes nothing, whatever fair
  -- value it is given.
  pub evaluate_once :
      (fv_now fv_again ts : W) (m : MarkoutTracker W)
      → evaluate fv_again ts (evaluate fv_now ts m) ≡ evaluate fv_now ts m
  unfolding evaluate
  evaluate_once fv_now fv_again ts m = rw (resolve-eq fv_now ts m.pending m.markout) (
      rw (
        resolve-eq fv_again ts (keep_if (λ p. not (is_due ts p)) m.pending)
            (feed fv_now ts (keep_if (is_due ts) m.pending) m.markout),
        keep_if-none ts m.pending,
        keep_if-twice ts m.pending,
      ))
