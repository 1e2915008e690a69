-- ===== src/Engine/Merges/Single.antt =====
-- engine.py: a market has at most one merge under way, and it merges what is there.
use poly_maker.Prelude.{
  ◌≡◌, refl, ◌∙◌, Bool, true, false, Option, none, some, List, [], ◌∷◌, ◌++◌, String, if◌then◌else◌,
  arith, Bool-cases, Option-cases, inl, inr, if-intro, ◌||◌,
}
use poly_maker.Prelude.Int.{ℤ, pos, leb_ℤ}
use poly_maker.Prelude.Eq.{◌==◌, string_eq}
use poly_maker.Float.{Float, num, ◌⊗◌, ◌≼◌, ◌<?◌, fmin}
use poly_maker.Float.Laws.{IsOrdered, fmin-le_left, fmin-le_right}
use poly_maker.Dict.{
  Dict, lookup, lookup_or, contains, member, discard, AllDistinct, AllDistinct-discard,
  member-discard,
}
use poly_maker.Domain.{MarketMeta, yes_token, no_token}
use poly_maker.Engine.{Market, Engine, Settings, change, on_market}
use poly_maker.Engine.Quoter.{Planned}
use poly_maker.Engine.Requests.{Request, merges, maybe_merge}
use poly_maker.Engine.Merges.{trunc, merge_amount, merge_call, end_merge, merge_task}

module _ {W : Type 0} where
  abbrev pub mark_of : Option (Market W) → Option Bool
  mark_of none = none
  mark_of (some m) = some m.merging

  -- The markets of the merges that a list of requests starts
  abbrev pub started : List (Request W) → List String
  started [] = []
  started (merges cid amount ∷ rs) = cid ∷ started rs
  started (r ∷ rs) = started rs

  abbrev mark_as : Bool → Option (Market W) → Option Bool
  mark_as b none = none
  mark_as b (some m) = some b

  mark-change :
      (cid j : String) (b : Bool) (d : Dict String (Market W))
      → mark_of (lookup j (change cid (λ (m : Market W). record m { merging = b }) d))
        ≡ (if cid == j then mark_as b (lookup j d) else mark_of (lookup j d))
  mark-change cid j b [] = ground arith
  mark-change cid j b ((c, m) ∷ d) = ground (
    arith,
    string_eq.same_iff cid j,
    string_eq.same_iff c cid,
    string_eq.same_iff c j,
    mark-change cid j b d,
  )

module _ {W D : Type 0} where
  -- Whether a market is marked as merging, if the engine has it
  abbrev pub merging_of : String → Engine W D → Option Bool
  merging_of cid e = mark_of (lookup cid e.markets)

module _ {W D : Type 0} ⦃f : Float W⦄ (cfg : Settings W) where
  -- The engine and the merge tasks that run: a requote may start one, one may end, and anything else
  -- may happen that leaves the marks alone.
  pub data MergeStep : Engine W D × List String → Engine W D × List String → Type 0 where
    requotes :
        (cid : String) (p : Planned W) (e : Engine W D) (running : List String)
        → contains cid e.markets ≡ true
        → MergeStep
            (e, running)
            ((maybe_merge cfg cid p e).1, started (maybe_merge cfg cid p e).0 ++ running)
    ends :
        (cid : String) (meta : MarketMeta W) (asked : W) (bals : Option (Dict String W))
        (e : Engine W D) (running : List String)
        → MergeStep (e, running) ((merge_task cid meta asked bals e).1, discard cid running)
    goes_on :
        (e e' : Engine W D) (running : List String)
        → ((cid : String) → merging_of cid e' ≡ merging_of cid e)
        → MergeStep (e, running) (e', running)

  pub data MergeRun (s : Engine W D × List String) : Engine W D × List String → Type 0 where
    here : MergeRun s s
    next : {t u : Engine W D × List String} → MergeRun s t → MergeStep t u → MergeRun s u

  -- No market has two tasks, and one that has a task is marked.
  pub record OneEach (s : Engine W D × List String) : Type 0 where
    pub distinct : AllDistinct s.1
    pub marked : (cid : String) → member cid s.1 ≡ true → merging_of cid s.0 ≡ some true

  start-OneEach :
      (cid : String) (e : Engine W D) (running : List String)
      → merging_of cid e ≡ some false
      → OneEach (e, running)
      → OneEach (on_market cid (λ m. record m { merging = true }) e, cid ∷ running)
  start-OneEach cid e running idle one = record {
    distinct = (not_running (member cid running) refl, one.distinct);
    marked = λ j h.
        ground
          (arith, mark-change cid j true e.markets, string_eq.same_iff cid j, one.marked j, idle);
  }
    where
      not_running : (b : Bool) → member cid running ≡ b → b ≡ false
      not_running true h = cc (idle, one.marked cid h)
      not_running false h = refl

  maybe_merge-OneEach :
      (cid : String) (p : Planned W) (e : Engine W D) (running : List String)
      → contains cid e.markets ≡ true
      → OneEach (e, running)
      → OneEach ((maybe_merge cfg cid p e).1, started (maybe_merge cfg cid p e).0 ++ running)
  unfolding maybe_merge
  maybe_merge-OneEach cid p e running known one =
      if-intro (λ (r : List (Request W) × Engine W D). OneEach (r.1, started r.0 ++ running)) _ _ _
        (λ _. one) (λ free. start-OneEach cid e running (idle free) one)
    where
      idle :
          ((fmin p.size_yes p.size_no <? p.profile.merge_min_size)
              || (elim (lookup cid e.markets) as (λ _. Bool) [ none ↦ false | some m ↦ m.merging ]
                  || cfg.paper))
            ≡ false
          → merging_of cid e ≡ some false
      idle free = elim (Option-cases (lookup cid e.markets)) [
        | inl absent ↦ cc (rw absent at known)
        | inr (m, found) ↦ let k = rw found at free in rw found (ground arith)
      ]

  MergeStep-OneEach : {t u : Engine W D × List String} → MergeStep t u → OneEach t → OneEach u
  unfolding merge_task end_merge
  MergeStep-OneEach (requotes cid p e running known) one =
      maybe_merge-OneEach cid p e running known one
  MergeStep-OneEach (ends cid meta asked bals e running) one = record {
    distinct = AllDistinct-discard cid running one.distinct;
    marked = λ j h. ground (
      arith,
      mark-change cid j false e.markets,
      string_eq.same_iff cid j,
      member-discard cid j running,
      one.marked j,
    );
  }
  MergeStep-OneEach (goes_on e e' running same) one = record {
    distinct = one.distinct;
    marked = λ j h. same j ∙ one.marked j h;
  }

  -- Whatever happens in between, requotes of any market, ends of merges, and all else that leaves the
  -- marks alone: no market ever has two merge tasks that run at once.
  pub merges_one_at_a_time :
      {s t : Engine W D × List String} → MergeRun s t → s.1 ≡ [] → AllDistinct t.1
  merges_one_at_a_time {s} r none_yet = (run r).distinct
    where
      run : {t : Engine W D × List String} → MergeRun s t → OneEach t
      run here = record { distinct = rw none_yet tt; marked = λ cid h. cc (rw none_yet at h) }
      run (next r st) = MergeStep-OneEach st (run r)

module _ {W : Type 0} ⦃f : Float W⦄ (o : IsOrdered W) where
  merge_amount-le-asked :
      (meta : MarketMeta W) (asked : W) (bals : Option (Dict String W))
      → merge_amount meta asked bals ≼ asked
  unfolding merge_amount
  merge_amount-le-asked meta asked none = o.le_refl asked
  merge_amount-le-asked meta asked (some []) = o.le_refl asked
  merge_amount-le-asked meta asked (some (b ∷ d)) =
      o.le_trans _ _ _ (fmin-le_left o _ _) (fmin-le_left o _ _)

  merge_amount-le :
      (meta : MarketMeta W) (asked : W) (b : String × W) (d : Dict String W)
      → (merge_amount meta asked (some (b ∷ d)) ≼ lookup_or (yes_token meta) (num 0) (b ∷ d))
        × (merge_amount meta asked (some (b ∷ d)) ≼ lookup_or (no_token meta) (num 0) (b ∷ d))
  unfolding merge_amount
  merge_amount-le meta asked b d =
      (o.le_trans _ _ _ (fmin-le_left o _ _) (fmin-le_right o _ _), fmin-le_right o _ _)

  -- A merge is called for a positive number of millionths only, of the market's own condition; it is the
  -- amount asked or less, and, if balances were read, no more than the balance of either token.
  pub merge_call_lem :
      (meta : MarketMeta W) (asked : W) (bals : Option (Dict String W)) (cid : String) (raw : ℤ)
      (neg_risk : Bool)
      → merge_call meta asked bals ≡ some (cid, raw, neg_risk)
      → (leb_ℤ raw (pos 0) ≡ false)
        × (cid ≡ meta.condition_id)
        × (neg_risk ≡ meta.neg_risk)
        × ((amount : W) × (raw ≡ trunc (amount ⊗ num 1_000_000))
            × (amount ≼ asked)
            × ((b : String × W) (d : Dict String W)
                → bals ≡ some (b ∷ d)
                → (amount ≼ lookup_or (yes_token meta) (num 0) (b ∷ d))
                  × (amount ≼ lookup_or (no_token meta) (num 0) (b ∷ d))))
  unfolding merge_call
  merge_call_lem meta asked bals cid raw neg_risk h =
      elim (Bool-cases (leb_ℤ (trunc (merge_amount meta asked bals ⊗ num 1_000_000)) (pos 0))) [
        | inl nothing ↦ cc (rw nothing at h)
        | inr positive ↦
            let k = rw positive at h in
            (
              ground arith,
              ground arith,
              ground arith,
              (
                merge_amount meta asked bals,
                ground arith,
                merge_amount-le-asked meta asked bals,
                λ b d e. rw e (merge_amount-le meta asked b d),
              ),
            )
      ]
