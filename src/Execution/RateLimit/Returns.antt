-- ===== src/Execution/RateLimit/Returns.antt =====
-- execution/ratelimit.py: the waiting loop of `acquire` ends.
use poly_maker.Prelude.{◌≡◌, true, List, [], ◌∷◌, ◌++◌, arith, is_some}
use poly_maker.Float.{Float, num, ◌⊕◌, ◌⊖◌, ◌⊗◌, ◌≼◌}
use poly_maker.Float.Laws.{IsOrdered, IsMonotone, le-fmin}
use poly_maker.Execution.RateLimit.{TokenBucket, refill, acquire}

module _ {W : Type 0} ⦃f : Float W⦄ (o : IsOrdered W) (mono : IsMonotone W) where
  -- Readings of a clock that does not go back
  abbrev pub IsClock : W → List W → Type 0
  IsClock last [] = Unit
  IsClock last (now ∷ nows) = (num 0 ≼ now ⊖ last) × IsClock now nows

  abbrev pub IsFunded : TokenBucket W → Type 0
  IsFunded b = (num 0 ≼ b.rate) × (num 0 ≼ b.capacity) × (num 0 ≼ b.tokens)

  add_nonneg : (a b : W) → num 0 ≼ a → num 0 ≼ b → num 0 ≼ a ⊕ b
  add_nonneg a b h k =
      o.le_trans _ (num 0 ⊕ num 0) _ (rw (mono.add-zero (num 0)) (o.le_refl (num 0)))
        (mono.add_mono _ _ _ _ h k)

  earned_nonneg :
      (b : TokenBucket W) (now : W)
      → IsFunded b
      → num 0 ≼ now ⊖ b.last
      → num 0 ≼ (now ⊖ b.last) ⊗ b.rate
  earned_nonneg b now h k = rw (← mono.zero-mul b.rate) (mono.mul_mono _ _ b.rate h.0 k)

  refill-IsFunded :
      (now : W) (b : TokenBucket W) → IsFunded b → num 0 ≼ now ⊖ b.last → IsFunded (refill now b)
  unfolding refill
  refill-IsFunded now b h k =
      (h.0, h.1, le-fmin o _ _ _ h.1 (add_nonneg _ _ h.2 (earned_nonneg b now h k)))

  refill_enough :
      (later n : W) (b : TokenBucket W)
      → IsFunded b
      → n ≼ b.capacity
      → n ≼ (later ⊖ b.last) ⊗ b.rate
      → n ≼ (refill later b).tokens
  unfolding refill
  refill_enough later n b h within gap = le-fmin o _ _ _ within (
      o.le_trans _ (num 0 ⊕ n) _ (rw (mono.zero-add n) (o.le_refl n))
        (mono.add_mono _ _ _ _ h.2 gap))

  later_enough :
      (now later n : W) (b : TokenBucket W)
      → IsFunded b
      → num 0 ≼ now ⊖ b.last
      → n ≼ b.capacity
      → n ≼ (later ⊖ now) ⊗ b.rate
      → n ≼ (refill later (refill now b)).tokens
  unfolding refill
  later_enough now later n b h k within gap =
      refill_enough later n (refill now b) (refill-IsFunded now b h k) within gap

  -- A request within the capacity returns as soon as two readings in a row are far enough apart to
  -- earn it, whatever was in the bucket and however often the loop went round before.
  pub acquire_returns :
      (before after : List W) (now later n : W) (b : TokenBucket W)
      → IsFunded b
      → IsClock b.last (before ++ now ∷ later ∷ after)
      → n ≼ b.capacity
      → n ≼ (later ⊖ now) ⊗ b.rate
      → is_some (acquire (before ++ now ∷ later ∷ after) n b) ≡ true
  unfolding acquire refill
  acquire_returns [] after now later n b h clock within gap =
      ground (arith, later_enough now later n b h clock.0 within gap)
  acquire_returns (t ∷ before) after now later n b h clock within gap = ground (
    arith,
    acquire_returns before after now later n (refill t b) (refill-IsFunded t b h clock.0) clock.1
        within gap,
  )
