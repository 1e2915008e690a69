-- ===== src/Engine/Run/Killed.antt =====
-- engine.py: no step of the engine places an order once the kill switch is on.
use poly_maker.Prelude.{
  ◌≡◌, refl, ap, ◌∙◌, true, Option, some, List, [], ◌∷◌, String, arith, All, inl, inr, Option-cases,
  All-append, All-map,
}
use poly_maker.Float.{Float}
use poly_maker.Dict.{Dict}
use poly_maker.SortedDict.{SortedDict}
use poly_maker.Engine.{Engine, Settings, Links}
use poly_maker.Engine.Quoter.{Planned, plan_market, quotable_market}
use poly_maker.Engine.Quoter.Halts.{stopped_market_pulls}
use poly_maker.Engine.Requests.{Request, Answers, recompute}
use poly_maker.Engine.Requests.Orders.{placed_by, placements_follow_cancels}
use poly_maker.Engine.Refresh.{MetaReport, apply_report}
use poly_maker.Engine.Metadata.{apply_reports}
use poly_maker.Engine.Run.{
  EngineStep, requotes, trades, fills, feeds, beats, reconciles, corrects, refreshes, rereads,
  merged, resets, kills, EngineRun, starts, steps,
}
use poly_maker.Engine.Run.Switch.{is_killed, EngineStep-killed}

module _ {W D : Type 0} ⦃f : Float W⦄ where
  apply_report-places :
      (cid : String) (r : MetaReport W) (e : Engine W D)
      → All (λ (q : Request W). placed_by q ≡ []) (apply_report cid r e).0
  unfolding apply_report
  apply_report-places cid r e = ground arith

  apply_reports-places :
      (reports : Dict String (MetaReport W)) (e : Engine W D)
      → All (λ (r : Request W). placed_by r ≡ []) (apply_reports reports e).0
  unfolding apply_reports
  apply_reports-places [] e = tt
  apply_reports-places ((cid, r) ∷ reports) e =
      All-append _ (apply_report cid r e).0 _ (apply_report-places cid r e)
        (apply_reports-places reports (apply_report cid r e).1)

module _ {W D : Type 0} ⦃f : Float W⦄ ⦃d : SortedDict W D⦄ where
  module _ (cfg : Settings W) (timestamp : String → Option W) (links : Links W)
      (answers : Answers W) (now : W) where
    plan_market-places :
        (cid : String) (e : Engine W D) (p : Planned W) (e' : Engine W D)
        → is_killed e ≡ true
        → plan_market cfg timestamp links now cid e ≡ some (p, e')
        → p.plan.to_place ≡ []
    unfolding plan_market
    plan_market-places cid e p e' h planned = elim (Option-cases (quotable_market cid e)) [
      | inl skipped ↦ cc (rw skipped at planned)
      | inr (q, found) ↦
          ap (λ plan. plan.to_place)
            (stopped_market_pulls cfg timestamp links now cid q.0 q.1 q.2 e p e' found (rw h refl)
              planned).1
    ]

    -- A requote of a killed engine places nothing.
    recompute-places :
        (cid : String) (e : Engine W D)
        → is_killed e ≡ true
        → All
            (λ (r : Request W). placed_by r ≡ [])
            (recompute cfg timestamp links answers now cid e).0
    unfolding recompute
    recompute-places cid e h = elim (Option-cases (plan_market cfg timestamp links now cid e)) [
      | inl skipped ↦ rw (skipped, recompute) tt
      | inr (q, planned) ↦
          let none_planned = plan_market-places cid e q.0 q.1 h planned in
          rw (planned, recompute)
            (All-map _ (λ (r : Request W). placed_by r ≡ []) _
              (λ r c. elim c as (λ _. placed_by r ≡ []) [
                | inl nothing ↦ nothing
                | inr planned_ones ↦ planned_ones.0 ∙ none_planned
              ])
              (placements_follow_cancels cfg links answers now cid q.0 q.1))
    ]

  module _ (cfg : Settings W) (timestamp : String → Option W) where
    EngineStep-places :
        {e e' : Engine W D} {asked : List (Request W)}
        → EngineStep cfg timestamp e asked e'
        → is_killed e ≡ true
        → All (λ (r : Request W). placed_by r ≡ []) asked
    EngineStep-places {e} (requotes links answers now cid) h =
        recompute-places cfg timestamp links answers now cid e h
    EngineStep-places {e} (refreshes reports) h = apply_reports-places reports e
    EngineStep-places (trades a t p z ts) h = tt
    EngineStep-places (fills fill) h = tt
    EngineStep-places (feeds state books) h = tt
    EngineStep-places (beats now ok n reported) h = tt
    EngineStep-places (reconciles now positions live) h = tt
    EngineStep-places (corrects balances asked_at) h = tt
    EngineStep-places (rereads now t rest) h = tt
    EngineStep-places (merged cid meta asked bals) h = tt
    EngineStep-places resets h = tt
    EngineStep-places kills h = tt

    -- Once the kill switch is on, no later step of the engine places an order, and the switch stays
    -- on: whatever steps its tasks take, in any order, a requote being one step, whatever the feeds
    -- deliver and the exchange answers.
    pub killed_engine_places_nothing :
        {e e' : Engine W D} {asked : List (Request W)}
        → EngineRun cfg timestamp e asked e'
        → e.risk.killed ≡ true
        → All (λ (r : Request W). placed_by r ≡ []) asked × (e'.risk.killed ≡ true)
    killed_engine_places_nothing starts h = (tt, h)
    killed_engine_places_nothing (steps {asked} run step) h =
        let before = killed_engine_places_nothing run h in
        (
          All-append _ asked _ before.0 (EngineStep-places step before.1),
          EngineStep-killed cfg timestamp step before.1,
        )
