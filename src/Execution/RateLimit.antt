-- ===== src/Execution/RateLimit.antt =====
-- execution/ratelimit.py: the token bucket. `nows` are the clock's readings, one for each round of
-- the waiting loop of `acquire`.
pub mod Bounds
pub mod Returns
use poly_maker.Prelude.{Option, none, some, List, [], ◌∷◌, if◌then◌else◌}
use poly_maker.Float.{Float, num, dec, ◌⊕◌, ◌⊖◌, ◌⊗◌, ◌⊘◌, ◌≤?◌, ◌<?◌, fmin, fmax}

pub record TokenBucket (W : Type 0) : Type 0 where
  pub rate : W
  pub capacity : W
  pub tokens : W
  pub last : W

module _ {W : Type 0} ⦃f : Float W⦄ where
  -- `TokenBucket(rate_per_s, burst)` at the time `now`
  unfoldable pub new_bucket : W → W → Option W → TokenBucket W
  new_bucket now rate_per_s burst =
      let cap : W = elim burst [ none ↦ fmax (num 1) rate_per_s | some b ↦ b ] in
      record { rate = fmax rate_per_s (dec 1 3); capacity = cap; tokens = cap; last = now }

  unfoldable pub refill : W → TokenBucket W → TokenBucket W
  refill now b = record b {
    tokens = fmin b.capacity (b.tokens ⊕ (now ⊖ b.last) ⊗ b.rate);
    last = now;
  }

  -- `none` while the call is still waiting after the readings. Each round that is not the last sleeps
  -- for `deficit / rate`, which shows in the next reading.
  unfoldable pub acquire : List W → W → TokenBucket W → Option (TokenBucket W)
  acquire [] n b = none
  acquire (now ∷ nows) n b =
      let full = refill now b in
      let waiting = acquire nows n full in
      if n ≤? full.tokens then some (record full { tokens = full.tokens ⊖ n }) else waiting

  -- `pressure`, with the bucket after the read
  unfoldable pub pressure : W → TokenBucket W → W × TokenBucket W
  pressure now b =
      let full = refill now b in (num 1 ⊖ fmin (num 1) (full.tokens ⊘ full.capacity), full)
