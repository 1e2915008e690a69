-- ===== src/Engine/Upkeep/Drift.antt =====
-- engine.py: what the check against the chain does to each position.
use mathlib.Core.Path.{subst}
use poly_maker.Prelude.{
  ◌≡◌, ◌≢◌, ◌⊎◌, ◌&&◌, arith, keep_if, List, ◌∷◌, refl, sym, ap, ◌∙◌, Bool, true, false, Option,
  none, some, [], String, if◌then◌else◌, get_or, inl, inr, Bool-cases, Option-cases,
}
use poly_maker.Prelude.Eq.{◌==◌, string_eq, nat_eq}
use poly_maker.Float.{Float, num, dec, ◌⊖◌, ◌⊗◌, ◌⊘◌, ◌<?◌, fabs, fmax}
use poly_maker.Dict.{Dict, lookup, contains, keys, member, contains-eq-member}
use poly_maker.Domain.{Position, flat}
use poly_maker.State.Store.{inflight_count, position, force_set_position}
use poly_maker.State.Store.Positions.{snapshot_position, lookup-set_position}
use poly_maker.Engine.{Engine}
use poly_maker.Engine.Upkeep.{
  diverges, correct_token, correct_tokens, settled_tokens, check_divergence,
}
use poly_maker.Prelude.Int.{ℤ}
use poly_maker.Execution.Gateway.Balances.{token_balances}
use poly_maker.Execution.Gateway.Balances.Answer.{
  HasDistinctTokens, IsSaid, token_balances-IsSaid, token_balances-HasDistinctTokens,
}

member-keep_if :
    (p : String → Bool) (u : String) (xs : List String)
    → member u (keep_if p xs) ≡ (member u xs && p u)
member-keep_if p u [] = refl
member-keep_if p u (x ∷ xs) = ground (arith, string_eq.same_iff x u, member-keep_if p u xs)

module _ {W : Type 0} ⦃f : Float W⦄ where
  -- A position after the check, given its balance on the chain
  abbrev pub corrected : String → Option W → Position W → Position W
  corrected u none p = p
  corrected u (some chain_size) p =
      if diverges p.size chain_size then snapshot_position u (chain_size, p.avg_price) else p

  -- Whether a size is off the balance by more than one share and more than 2% of the balance
  abbrev pub IsOff : W → W → Bool → Type 0
  IsOff size balance off = (fmax (num 1) (dec 2 2 ⊗ balance) <? fabs (size ⊖ balance)) ≡ off

  -- The new position holds the balance, down to zero, and keeps the average price unless it is flat.
  abbrev pub IsSetTo : W → String → Position W → Position W → Type 0
  IsSetTo balance u old new =
      (new.token_id ≡ u)
      × (new.size ≡ fmax (num 0) balance)
      × (new.avg_price ≡ (if num 0 <? balance then old.avg_price else num 0))

  set_to :
      (u : String) (c : W) (old new : Position W)
      → new ≡ snapshot_position u (c, old.avg_price)
      → IsSetTo c u old new
  set_to u c old new h = (
    ap (λ (p : Position W). p.token_id) h,
    ap (λ (p : Position W). p.size) h,
    ap (λ (p : Position W). p.avg_price) h,
  )

module _ {W D : Type 0} ⦃f : Float W⦄ where
  position-forced :
      (t u : String) (c avg : W) (e : Engine W D)
      → position u (force_set_position t c avg e.state)
        ≡ (if t == u then snapshot_position t (c, avg) else position u e.state)
  position-forced t u c avg e =
      ap (λ o. get_or o (flat u)) (lookup-set_position t u c avg e.state) ∙ by_test (t == u)
    where
      by_test :
          (b : Bool)
          → get_or
              (if b then some (snapshot_position t (c, avg)) else lookup u e.state.positions)
              (flat u)
            ≡ (if b then snapshot_position t (c, avg) else position u e.state)
      by_test true = refl
      by_test false = refl

  position-correct_token :
      (t u : String) (c : W) (e : Engine W D)
      → position u (correct_token t c e).state
        ≡ (if t == u then corrected t (some c) (position t e.state) else position u e.state)
  unfolding correct_token
  position-correct_token t u c e = elim (Bool-cases (diverges (position t e.state).size c)) [
    | inl apart ↦ elim (Option-cases (lookup t e.token_cid)) [
      | inl unknown ↦ rw (apart, unknown) (position-forced t u c (position t e.state).avg_price e)
      | inr (cid, known) ↦
          rw (apart, known) (position-forced t u c (position t e.state).avg_price e)
    ]
    | inr near ↦ elim (Bool-cases (t == u)) [
      | inl same ↦
          rw (near, same) (ap (λ k. position k e.state) (sym ((string_eq.same_iff t u).0 same)))
      | inr other ↦ rw (near, other) refl
    ]
  ]

  settled_iff :
      (u : String) (e : Engine W D)
      → member u (settled_tokens e) ≡ (contains u e.token_cid && (inflight_count u e.state == 0))
  settled_iff u e = ground (
    arith,
    member-keep_if (λ t. inflight_count t e.state == 0) u (keys e.token_cid),
    contains-eq-member u e.token_cid,
  )

  member-settled_tokens :
      (u : String) (e : Engine W D)
      → member u (settled_tokens e) ≡ true
      → (contains u e.token_cid ≡ true) × (inflight_count u e.state ≡ 0)
  member-settled_tokens u e h =
      let both = sym (settled_iff u e) ∙ h in
      (ground (arith, both), (nat_eq.same_iff _ _).0 (ground (arith, both)))

  unasked :
      {R : Type 0} (u : String) (e : Engine W D)
      → member u (settled_tokens e) ≡ false
      → (contains u e.token_cid ≡ false) ⊎ (inflight_count u e.state ≢ 0) ⊎ R
  unasked u e h = elim (Bool-cases (contains u e.token_cid)) [
    | inr unknown ↦ inl unknown
    | inl known ↦ inr (
        inl λ zero_now.
          cc (rw known at (sym (settled_iff u e) ∙ h), (nat_eq.same_iff _ _).1 zero_now))
  ]

  position-correct_tokens :
      (onchain : Dict String W) (e : Engine W D) (u : String)
      → HasDistinctTokens onchain
      → position u (correct_tokens onchain e).state
        ≡ corrected u (lookup u onchain) (position u e.state)
  unfolding correct_tokens
  position-correct_tokens [] e u h = refl
  position-correct_tokens ((t, c) ∷ onchain) e u h =
      position-correct_tokens onchain (correct_token t c e) u h.1 ∙ elim (Bool-cases (t == u)) [
        | inl same ↦ first t u ((string_eq.same_iff t u).0 same) same h.0
        | inr other ↦ rw (position-correct_token t u c e, other) refl
      ]
    where
      first :
          (t u : String)
          → t ≡ u
          → (t == u) ≡ true
          → lookup t onchain ≡ none
          → corrected u (lookup u onchain) (position u (correct_token t c e).state)
            ≡ corrected u (if t == u then some c else lookup u onchain) (position u e.state)
      first t u same test gone =
          rw (subst (λ k. lookup k onchain ≡ none) same gone, position-correct_token t u c e, test)
            (subst
              (λ k.
                corrected t (some c) (position t e.state)
                ≡ corrected k (some c) (position k e.state))
              same refl)

  -- The position after the check is the one before, and the token was not asked for, or a trade in it
  -- was in flight, or nothing was read, or the size read is near; or it is the size read, which is off.
  abbrev pub IsChecked :
      (String → String → Option ℤ)
      → List String
      → Engine W D
      → Engine W D
      → Engine W D
      → String
      → Type 0
  IsChecked ask rpcs asked_at e e' u =
      (position u e'.state ≡ position u e.state)
        × ((contains u asked_at.token_cid ≡ false)
            ⊎ (inflight_count u asked_at.state ≢ 0)
            ⊎ (token_balances {W = W} ask rpcs (settled_tokens asked_at) ≡ none)
            ⊎ ((rpc : String) × (member rpc rpcs ≡ true)
                × (raw : ℤ) × (ask rpc u ≡ some raw)
                × IsOff (position u e.state).size (f.of_int raw ⊘ num 1_000_000) false))
      ⊎ (contains u asked_at.token_cid ≡ true)
        × (inflight_count u asked_at.state ≡ 0)
        × (rpc : String) × (member rpc rpcs ≡ true)
        × (raw : ℤ) × (ask rpc u ≡ some raw)
        × IsOff (position u e.state).size (f.of_int raw ⊘ num 1_000_000) true
        × IsSetTo (f.of_int raw ⊘ num 1_000_000) u (position u e.state) (position u e'.state)

  corrected-IsChecked :
      (ask : String → String → Option ℤ) (rpcs : List String) (asked_at e e' : Engine W D)
      → (d : Dict String W) (u : String) → IsSaid ask rpcs (settled_tokens asked_at) d u
      → position u e'.state ≡ corrected u (lookup u d) (position u e.state)
      → IsChecked ask rpcs asked_at e e' u
  corrected-IsChecked ask rpcs asked_at e e' d u (inl (absent, none_read)) h =
      inl (rw none_read at h, unasked u asked_at absent)
  corrected-IsChecked ask rpcs asked_at e e' d u (inr (asked, rpc, among, raw, said, read)) h =
      elim (Bool-cases (diverges (position u e.state).size (f.of_int raw ⊘ num 1_000_000))) [
        | inl off ↦
            let (traded, settled) = member-settled_tokens u asked_at asked in
            inr (
              traded,
              settled,
              rpc,
              among,
              raw,
              said,
              off,
              set_to u (f.of_int raw ⊘ num 1_000_000) (position u e.state) (position u e'.state)
                  (rw (read, off) at h),
            )
        | inr near ↦ inl ((rw (read, near) at h), inr (inr (inr (rpc, among, raw, said, near))))
      ]

  -- The check against the chain, with the gateway's balances: a token of no market of the engine, or with
  -- a trade in flight when the balances are asked for, keeps its position, and so do all if no node
  -- answers. Any other is compared to the balance that a node gave: if its size is off by more than one
  -- share and more than 2% of the balance, it is set to the balance, floored at 0, at its old average
  -- price, which a flat position does not keep; else it stays.
  pub check_divergence_lem :
      (ask : String → String → Option ℤ) (rpcs : List String) (asked_at e : Engine W D) (u : String)
      → IsChecked ask rpcs asked_at e (check_divergence (token_balances ask rpcs) asked_at e) u
  unfolding check_divergence
  check_divergence_lem ask rpcs asked_at e u =
      elim (Option-cases (token_balances {W = W} ask rpcs (settled_tokens asked_at))) [
        | inl silent ↦ inl (rw (silent, check_divergence) refl, inr (inr (inl silent)))
        | inr (d, said) ↦
            corrected-IsChecked ask rpcs asked_at e
              (check_divergence (token_balances ask rpcs) asked_at e) d u
              (token_balances-IsSaid ask rpcs (settled_tokens asked_at) d u said)
              (rw (said, check_divergence)
                (position-correct_tokens d e u
                  (token_balances-HasDistinctTokens ask rpcs (settled_tokens asked_at) d said)))
      ]
