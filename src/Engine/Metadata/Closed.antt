-- ===== src/Engine/Metadata/Closed.antt =====
-- engine.py: a market that is reported closed is halted.
use poly_maker.Prelude.{
  ◌≡◌, refl, ◌∙◌, Bool, true, false, not, ◌||◌, Option, none, some, [], ◌∷◌, String, if◌then◌else◌,
  arith, Bool-cases, Option-cases, inl, inr,
}
use poly_maker.Prelude.Eq.{◌==◌, string_eq}
use poly_maker.Float.{Float}
use poly_maker.Dict.{Dict, lookup, keys, member, AllDistinct}
use poly_maker.Engine.{Market, Engine, change}
use poly_maker.Engine.Refresh.{
  MetaReport, apply_report, apply_meta_refresh, has_updates, refreshed_meta,
}
use poly_maker.Engine.Metadata.{apply_reports}

module _ {W : Type 0} where
  abbrev halt_of : Option (Market W) → Option Bool
  halt_of none = none
  halt_of (some m) = some m.halted

  abbrev pub is_stopped : MetaReport W → Bool
  is_stopped r = r.closed || not r.accepting

  abbrev halt_after : Bool → Option (Market W) → Option Bool
  halt_after b none = none
  halt_after b (some m) = some b

  halt-set :
      (cid j : String) (b : Bool) (g : Market W → Market W) (d : Dict String (Market W))
      → ((m : Market W) → (g m).halted ≡ b)
      → halt_of (lookup j (change cid g d))
        ≡ (if cid == j then halt_after b (lookup j d) else halt_of (lookup j d))
  halt-set cid j b g [] h = ground arith
  halt-set cid j b g ((c, m) ∷ d) h = ground (
    arith,
    string_eq.same_iff cid j,
    string_eq.same_iff c cid,
    string_eq.same_iff c j,
    h m,
    halt-set cid j b g d h,
  )

  halt-keep :
      (cid j : String) (g : Market W → Market W) (d : Dict String (Market W))
      → ((m : Market W) → (g m).halted ≡ m.halted)
      → halt_of (lookup j (change cid g d)) ≡ halt_of (lookup j d)
  halt-keep cid j g [] h = refl
  halt-keep cid j g ((c, m) ∷ d) h =
      ground (arith, string_eq.same_iff c cid, h m, halt-keep cid j g d h)

  by_market :
      (r : MetaReport W) {b : Bool} (o : Option (Market W))
      → halt_of o ≡ some b
      → halt_after (is_stopped r) o ≡ some (is_stopped r)
  by_market r none k = cc k
  by_market r (some m) k = refl

module _ {W D : Type 0} ⦃f : Float W⦄ where
  -- Whether a market is halted, if the engine has it
  abbrev pub halted_of : String → Engine W D → Option Bool
  halted_of cid e = halt_of (lookup cid e.markets)

  -- A report decides its own market, and no other.
  apply_report-halted :
      (cid j : String) (r : MetaReport W) (e : Engine W D)
      → halted_of j (apply_report cid r e).1
        ≡ (if cid == j then halt_after (is_stopped r) (lookup j e.markets) else halted_of j e)
  unfolding apply_report apply_meta_refresh
  apply_report-halted cid j r e = elim (Option-cases (lookup cid e.markets)) [
    | inl absent ↦ rw (absent, apply_report) (ground (arith, string_eq.same_iff cid j, absent))
    | inr (m, found) ↦ elim (Bool-cases (is_stopped r)) [
      | inl stopped ↦ elim (Bool-cases m.halted) [
        | inl old ↦
            rw (found, apply_report)
              (rw (stopped, old) (ground (arith, string_eq.same_iff cid j, found, old)))
        | inr new ↦
            rw (found, apply_report)
              (rw (stopped, new)
                (halt-keep cid j (λ n. record n { dirty = true }) _ (λ n. refl)
                  ∙ halt-set cid j true (λ n. record n { halted = true }) e.markets (λ n. refl)))
      ]
      | inr going ↦
          rw (found, apply_report)
            (rw going (
              halt-keep cid j
                (λ n.
                  if has_updates r n.meta
                  then record n { meta = refreshed_meta r n.meta; dirty = true }
                  else n)
                _ (λ n. ground arith)
              ∙ halt-set cid j false (λ n. record n { halted = false }) e.markets (λ n. refl)))
    ]
  ]

  reports_of_others :
      (reports : Dict String (MetaReport W)) (j : String) (e : Engine W D)
      → member j (keys reports) ≡ false
      → halted_of j (apply_reports reports e).1 ≡ halted_of j e
  unfolding apply_reports
  reports_of_others [] j e h = refl
  reports_of_others ((cid, r) ∷ reports) j e h =
      reports_of_others reports j (apply_report cid r e).1 (ground arith)
      ∙ apply_report-halted cid j r e
      ∙ ground arith

  -- After a refresh every market that was reported on is halted exactly if it was reported closed or
  -- not accepting orders, whatever it was before; the halt of every other market is as before.
  pub apply_reports_halts :
      (reports : Dict String (MetaReport W)) (e : Engine W D) (j : String) (b : Bool)
      → AllDistinct (keys reports)
      → halted_of j e ≡ some b
      → halted_of j (apply_reports reports e).1 ≡ elim (lookup j reports) as (λ _. Option Bool) [
        | none ↦ some b
        | some r ↦ some (is_stopped r)
      ]
  unfolding apply_reports
  apply_reports_halts [] e j b d h = h
  apply_reports_halts ((cid, r) ∷ reports) e j b d h = elim (Bool-cases (cid == j)) [
    | inl same ↦
        reports_of_others reports j (apply_report cid r e).1
          (ground (arith, string_eq.same_iff cid j))
        ∙ apply_report-halted cid j r e
        ∙ rw same (by_market r (lookup j e.markets) h)
    | inr other ↦ rw other (
        apply_reports_halts reports (apply_report cid r e).1 j b d.1
          (apply_report-halted cid j r e ∙ rw other h))
  ]
