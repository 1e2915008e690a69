-- ===== src/State/Store/Inflight.antt =====
-- state/store.py: the in-flight guard, which must not block a token for ever.
use poly_maker.Prelude.{
  ◌+◌, ◌-◌, ◌≡◌, ◌∙◌, refl, true, false, none, some, List, [], ◌∷◌, String, arith, if◌then◌else◌,
  ltb, inl, inr, Bool-cases, Option-cases,
}
use poly_maker.Prelude.Eq.{◌==◌, string_eq, nat_eq, same_self}
use poly_maker.Float.{Float, ◌⊖◌, ◌<?◌}
use poly_maker.Dict.{Dict, lookup, contains, insert, member, lookup-insert, lookup-remove}
use poly_maker.State.Store.{
  StateStore, inflight_count, mark_inflight, clear_inflight, expire_inflight, stale_tokens,
  expire_each,
}

module _ {W : Type 0} ⦃f : Float W⦄ where
  -- A token has a mark's time exactly when its count is not zero.
  pub record IsTimed (s : StateStore W) : Type 0 where
    pub timed : (t : String) → contains t s.inflight_ts ≡ ltb 0 (inflight_count t s)

  mark_inflight-IsTimed :
      (now : W) (t : String) (s : StateStore W) → IsTimed s → IsTimed (mark_inflight now t s)
  unfolding mark_inflight
  mark_inflight-IsTimed now t s v = record {
    timed = λ u. ground (
      arith,
      v.timed u,
      v.timed t,
      string_eq.same_iff t u,
      lookup-insert t u (inflight_count t s + 1) s.inflight,
      lookup-insert t u now s.inflight_ts,
    );
  }

  clear_inflight-IsTimed :
      (t : String) (s : StateStore W) → IsTimed s → IsTimed (clear_inflight t s)
  unfolding clear_inflight
  clear_inflight-IsTimed t s v = record {
    timed = λ u. ground (
      arith,
      v.timed u,
      v.timed t,
      string_eq.same_iff t u,
      same_self t,
      lookup-insert t u (inflight_count t s - 1) s.inflight,
      lookup-insert t t (inflight_count t s - 1) s.inflight,
      lookup-remove t u s.inflight_ts,
    );
  }

  expire_each-IsTimed :
      (ts : List String) (s : StateStore W) → IsTimed s → IsTimed (expire_each ts s)
  expire_each-IsTimed [] s v = v
  expire_each-IsTimed (t ∷ ts) s v = expire_each-IsTimed ts _ (record {
    timed = λ u. ground (
      arith,
      v.timed u,
      string_eq.same_iff t u,
      lookup-insert t u 0 s.inflight,
      lookup-remove t u s.inflight_ts,
    );
  })

  lookup-expire_each :
      (ts : List String) (s : StateStore W) (u : String)
      → lookup u (expire_each ts s).inflight_ts
        ≡ (if member u ts then none else lookup u s.inflight_ts)
  lookup-expire_each [] s u = refl
  lookup-expire_each (t ∷ ts) s u =
      rw (lookup-expire_each ts _ u) (rw (lookup-remove t u s.inflight_ts) (ground arith))

  member-stale_tokens :
      (now max_age : W) (u : String) (d : Dict String W) (ts : W)
      → lookup u d ≡ some ts
      → (max_age <? now ⊖ ts) ≡ true
      → member u (stale_tokens now max_age d) ≡ true
  member-stale_tokens now max_age u [] ts e h = cc
  member-stale_tokens now max_age u ((t, x) ∷ d) ts e h = elim (Bool-cases (t == u)) [
    | inl same ↦ ground (arith, rw same at e)
    | inr other ↦ ground (arith, member-stale_tokens now max_age u d ts (rw other at e) h)
  ]

  -- Marking, clearing and expiring keep the guards timed.
  pub inflight-IsTimed :
      (s : StateStore W)
      → IsTimed s
      → ((now : W) (t : String) → IsTimed (mark_inflight now t s))
        × ((t : String) → IsTimed (clear_inflight t s))
        × ((now max_age : W) → IsTimed (expire_inflight now max_age s).1)
  unfolding expire_inflight
  inflight-IsTimed s v = (
    λ now t. mark_inflight-IsTimed now t s v,
    λ t. clear_inflight-IsTimed t s v,
    λ now max_age. expire_each-IsTimed (stale_tokens now max_age s.inflight_ts) s v,
  )

  -- Expiry leaves no token blocked by an old guard: whatever is still in flight afterwards has a mark
  -- no older than the limit.
  pub expire_unblocks :
      (now max_age : W) (s : StateStore W) (u : String)
      → IsTimed s
      → let s' = (expire_inflight now max_age s).1 in
        ltb 0 (inflight_count u s') ≡ true
        → (ts : W) × (lookup u s'.inflight_ts ≡ some ts) × ((max_age <? now ⊖ ts) ≡ false)
  unfolding expire_inflight
  expire_unblocks now max_age s u v h =
      let stale = stale_tokens now max_age s.inflight_ts in
      let t : contains u (expire_each stale s).inflight_ts ≡ true =
        (expire_each-IsTimed stale s v).timed u ∙ h in
      elim (Option-cases (lookup u (expire_each stale s).inflight_ts)) [
        | inl e ↦ cc (rw e at t)
        | inr (ts, e) ↦ (
          ts,
          e,
          ground (
            arith,
            lookup-expire_each stale s u,
            member-stale_tokens now max_age u s.inflight_ts ts,
          ),
        )
      ]

  -- A mark and a clear of the same token cancel: every count is as before.
  pub mark_then_clear :
      (now : W) (t u : String) (s : StateStore W)
      → inflight_count u (clear_inflight t (mark_inflight now t s)) ≡ inflight_count u s
  unfolding mark_inflight clear_inflight
  mark_then_clear now t u s = ground (
    arith,
    same_self t,
    string_eq.same_iff t u,
    lookup-insert t t (inflight_count t s + 1) s.inflight,
    lookup-insert t u (inflight_count t s + 1) s.inflight,
    lookup-insert t u (inflight_count t s + 1 - 1) (insert t (inflight_count t s + 1) s.inflight),
  )
