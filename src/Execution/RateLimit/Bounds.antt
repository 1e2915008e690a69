-- ===== src/Execution/RateLimit/Bounds.antt =====
-- execution/ratelimit.py: the bounds of the budget, and when `acquire` can return.
use mathlib.Core.Option.{some-injective}
use poly_maker.Prelude.{
  ◌≡◌, ◌≢◌, ◌↔◌, refl, true, none, some, List, [], ◌∷◌, arith, inl, inr, Bool-cases,
}
use poly_maker.Float.{Float, num, ◌⊕◌, ◌⊖◌, ◌⊗◌, ◌≤?◌, ◌<?◌, ◌≼◌, fmin}
use poly_maker.Float.Laws.{
  IsOrdered, IsMonotone, fmin-le_left, fmin-le_right, le-fmin, not_le_of_lt, lt_of_le_of_lt,
}
use poly_maker.Execution.RateLimit.{TokenBucket, refill, acquire}

module _ {W : Type 0} ⦃f : Float W⦄ (o : IsOrdered W) where
  open o use {le_refl, le_trans}

  refill-le-capacity : (now : W) (b : TokenBucket W) → (refill now b).tokens ≼ b.capacity
  unfolding refill
  refill-le-capacity now b = fmin-le_left o b.capacity (b.tokens ⊕ (now ⊖ b.last) ⊗ b.rate)

  refill-rate : (now : W) (b : TokenBucket W) → (refill now b).rate ≡ b.rate
  unfolding refill
  refill-rate now b = refl

  refill-capacity : (now : W) (b : TokenBucket W) → (refill now b).capacity ≡ b.capacity
  unfolding refill
  refill-capacity now b = refl

  -- A request for more than the capacity waits for ever: no sequence of clock readings lets it
  -- return.
  pub acquire_beyond_capacity :
      (nows : List W) (n : W) (b : TokenBucket W)
      → (b.capacity <? n) ≡ true
      → acquire nows n b ≡ none
  unfolding acquire
  acquire_beyond_capacity [] n b h = refl
  acquire_beyond_capacity (now ∷ nows) n b h = ground (
    arith,
    acquire_beyond_capacity nows n (refill now b),
    refill-capacity now b,
    not_le_of_lt o (refill now b).tokens n
        (lt_of_le_of_lt o (refill now b).tokens b.capacity n (refill-le-capacity now b) h),
  )

  -- A single reading of the clock is enough exactly when the request is within the capacity and
  -- within what the bucket holds with the refill of the elapsed time.
  pub acquire_at_once_iff :
      (now n : W) (b : TokenBucket W)
      → (acquire (now ∷ []) n b ≢ none)
        ↔ ((n ≼ b.capacity) × (n ≼ b.tokens ⊕ (now ⊖ b.last) ⊗ b.rate))
  unfolding acquire refill
  acquire_at_once_iff now n b =
      let full = b.tokens ⊕ (now ⊖ b.last) ⊗ b.rate in
      (
        λ h. ground (
          arith,
          le_trans n (fmin b.capacity full) b.capacity,
          le_trans n (fmin b.capacity full) full,
          fmin-le_left o b.capacity full,
          fmin-le_right o b.capacity full,
        ),
        λ h. ground (arith, le-fmin o b.capacity full n h.0 h.1),
      )

  -- When `acquire` returns, the budget is between zero and what the capacity leaves after the
  -- request, and the capacity and the rate are as before.
  pub acquire_bounds :
      (mono : IsMonotone W) (nows : List W) (n : W) (b : TokenBucket W) {b' : TokenBucket W}
      → acquire nows n b ≡ some b'
      → (num 0 ≼ b'.tokens)
        × (b'.tokens ≼ b.capacity ⊖ n)
        × (b'.capacity ≡ b.capacity)
        × (b'.rate ≡ b.rate)
  unfolding acquire refill
  acquire_bounds mono [] n b e = cc
  acquire_bounds mono (now ∷ nows) n b {b'} e = elim (Bool-cases (n ≤? (refill now b).tokens)) [
    | inl enough ↦
        let paid = some-injective _ _ (rw enough at e) in
        rw (← paid) (
          rw (← mono.sub-self n) (mono.sub_mono n (refill now b).tokens n n enough (le_refl n)),
          mono.sub_mono _ _ n n (refill-le-capacity now b) (le_refl n),
          refill-capacity now b,
          refill-rate now b,
        )
    | inr short ↦
        let rest = acquire_bounds mono nows n (refill now b) (rw short at e) in
        rw (← refill-capacity now b, ← refill-rate now b) rest
  ]
