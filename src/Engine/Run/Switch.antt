-- ===== src/Engine/Run/Switch.antt =====
-- engine.py: every step of the engine leaves the kill switch on, once it is on.
use mathlib.Core.Option.{some-injective}
use poly_maker.Prelude.{
  ◌≡◌, refl, sym, ap, ◌∙◌, Bool, true, Option, none, some, List, [], ◌∷◌, ◌++◌, String, arith, inl,
  inr, Bool-cases, Option-cases, if-intro, is_empty,
}
use poly_maker.Prelude.Int.{ℤ}
use poly_maker.Float.{Float}
use poly_maker.Dict.{Dict}
use poly_maker.SortedDict.{SortedDict}
use poly_maker.Domain.{Side, Fill, OpenOrder}
use poly_maker.Risk.{kill, reset_day, note_fill, note_order_result, update_mark}
use poly_maker.Engine.{Engine, Settings, Links, on_trade, on_fill}
use poly_maker.Execution.Reconcile.{is_noop}
use poly_maker.Engine.Quoter.{Planned, plan_market, plan_from, quotable_market, assess}
use poly_maker.Engine.Requests.{
  Request, cancels, remove_orders, Answers, recompute, carry_out, place_stage, place_quotes,
  maybe_merge, finish,
}
use poly_maker.Engine.Requests.Orders.{is_shed}
use poly_maker.Engine.Upkeep.{
  heartbeat_step, reconcile_round, reconcile_orders, note_pnl, check_divergence, correct_token,
  correct_tokens, settled_tokens,
}
use poly_maker.Engine.Refresh.{MetaReport, refresh_book, apply_report, apply_meta_refresh}
use poly_maker.Engine.Metadata.{apply_reports}
use poly_maker.Engine.Merges.{merge_task, end_merge}
use poly_maker.Engine.Run.{
  EngineStep, requotes, trades, fills, feeds, beats, reconciles, corrects, refreshes, rereads,
  merged, resets, kills,
}

module _ {W D : Type 0} where
  abbrev pub is_killed : Engine W D → Bool
  is_killed e = e.risk.killed

module _ {W D : Type 0} ⦃f : Float W⦄ where
  maybe_merge-killed :
      (cfg : Settings W) (cid : String) (p : Planned W) (e : Engine W D)
      → is_killed (maybe_merge cfg cid p e).1 ≡ is_killed e
  unfolding maybe_merge
  maybe_merge-killed cfg cid p e = ground arith

  finish-killed :
      (cfg : Settings W) (links : Links W) (answers : Answers W) (now : W) (cid : String)
      (p : Planned W) (asked : List (Request W)) (e : Engine W D)
      → is_killed (finish cfg links answers now cid p asked e).1 ≡ is_killed e
  finish-killed cfg links answers now cid p asked e = maybe_merge-killed cfg cid p _

  place_stage-killed :
      (cfg : Settings W) (links : Links W) (answers : Answers W) (now : W) (cid : String)
      (p : Planned W) (asked : List (Request W)) (e : Engine W D)
      → is_killed (place_stage cfg links answers now cid p asked e).1 ≡ is_killed e
  unfolding place_stage place_quotes note_order_result
  place_stage-killed cfg links answers now cid p asked e =
      if-intro Keeps (is_empty p.plan.to_place) _ _
        (λ _. finish-killed cfg links answers now cid p asked e)
        (λ _.
          if-intro Keeps (is_shed cfg links p) _ _
            (λ _. finish-killed cfg links answers now cid p asked _)
            (λ _.
              finish-killed cfg links answers now cid p
                (asked ++ (place_quotes answers now p e.state e.risk).0) _))
    where
      Keeps : List (Request W) × Engine W D → Type 0
      Keeps r = is_killed r.1 ≡ is_killed e

  carry_out-killed :
      (cfg : Settings W) (links : Links W) (answers : Answers W) (now : W) (cid : String)
      (p : Planned W) (e : Engine W D)
      → is_killed (carry_out cfg links answers now cid p e).1 ≡ is_killed e
  unfolding carry_out
  carry_out-killed cfg links answers now cid p e =
      if-intro Keeps (is_noop p.plan) _ _ (λ _. maybe_merge-killed cfg cid p e)
        (λ _.
          if-intro Keeps (is_empty p.plan.to_cancel) _ _
            (λ _. place_stage-killed cfg links answers now cid p [] e)
            (λ _.
              if-intro Keeps answers.cancel_ok _ _
                (λ _.
                  place_stage-killed cfg links answers now cid p (cancels p.plan.to_cancel ∷ [])
                    (record e { state = remove_orders p.plan.to_cancel e.state }))
                (λ _. refl)))
    where
      Keeps : List (Request W) × Engine W D → Type 0
      Keeps r = is_killed r.1 ≡ is_killed e

  apply_report-killed :
      (cid : String) (r : MetaReport W) (e : Engine W D)
      → is_killed (apply_report cid r e).1 ≡ is_killed e
  unfolding apply_report apply_meta_refresh
  apply_report-killed cid r e = ground arith

  apply_reports-killed :
      (reports : Dict String (MetaReport W)) (e : Engine W D)
      → is_killed (apply_reports reports e).1 ≡ is_killed e
  unfolding apply_reports
  apply_reports-killed [] e = refl
  apply_reports-killed ((cid, r) ∷ reports) e =
      apply_reports-killed reports (apply_report cid r e).1 ∙ apply_report-killed cid r e

  correct_token-killed :
      (t : String) (size : W) (e : Engine W D) → is_killed (correct_token t size e) ≡ is_killed e
  unfolding correct_token
  correct_token-killed t size e = ground arith

  correct_tokens-killed :
      (onchain : Dict String W) (e : Engine W D)
      → is_killed (correct_tokens onchain e) ≡ is_killed e
  unfolding correct_tokens
  correct_tokens-killed [] e = refl
  correct_tokens-killed ((t, size) ∷ onchain) e =
      correct_tokens-killed onchain (correct_token t size e) ∙ correct_token-killed t size e

  check_divergence-killed :
      (balances : List String → Option (Dict String W)) (asked_at e : Engine W D)
      → is_killed (check_divergence balances asked_at e) ≡ is_killed e
  unfolding check_divergence
  check_divergence-killed balances asked_at e =
      elim (Option-cases (balances (settled_tokens asked_at))) [
        | inl silent ↦ rw (silent, check_divergence) refl
        | inr (onchain, said) ↦ rw (said, check_divergence) (correct_tokens-killed onchain e)
      ]

  heartbeat_step-killed :
      (cfg : Settings W) (now : W) (ok : Bool) (failures : ℤ)
      (reported : String → Option (List (OpenOrder W))) (e : Engine W D)
      → is_killed (heartbeat_step cfg now ok failures reported e) ≡ is_killed e
  unfolding heartbeat_step
  heartbeat_step-killed cfg now ok failures reported e = ground arith

  reconcile_round-killed :
      (cfg : Settings W) (now : W) (positions : Option (Dict String (W × W)))
      (live : Option (List (OpenOrder W))) (e : Engine W D)
      → is_killed (reconcile_round cfg now positions live e) ≡ is_killed e
  unfolding reconcile_round reconcile_orders note_pnl
  reconcile_round-killed cfg now none live e = refl
  reconcile_round-killed cfg now (some api) none e = elim (Bool-cases cfg.paper) [
    | inl paper ↦ rw paper (if-intro Keeps e.reconcile_now _ _ (λ _. refl) (λ _. refl))
    | inr real ↦ rw real refl
  ]
    where
      Keeps : Engine W D → Type 0
      Keeps e' = is_killed (note_pnl now e') ≡ is_killed e
  reconcile_round-killed cfg now (some api) (some orders) e = elim (Bool-cases cfg.paper) [
    | inl paper ↦ rw paper (if-intro Keeps e.reconcile_now _ _ (λ _. refl) (λ _. refl))
    | inr real ↦ rw real (if-intro Keeps e.reconcile_now _ _ (λ _. refl) (λ _. refl))
  ]
    where
      Keeps : Engine W D → Type 0
      Keeps e' = is_killed (note_pnl now e') ≡ is_killed e

module _ {W D : Type 0} ⦃f : Float W⦄ ⦃d : SortedDict W D⦄ where
  on_trade-killed :
      (aggressor : Side) (asset : String) (price size ts : W) (e : Engine W D)
      → is_killed (on_trade aggressor asset price size ts e) ≡ is_killed e
  unfolding on_trade
  on_trade-killed aggressor asset price size ts e = ground arith

  on_fill-killed : (fill : Fill W) (e : Engine W D) → is_killed (on_fill fill e) ≡ is_killed e
  unfolding on_fill note_fill
  on_fill-killed fill e = ground arith

  refresh_book-killed :
      (now : W) (t : String) (rest : Option (List (W × W) × List (W × W) × Option String))
      (e : Engine W D)
      → is_killed (refresh_book now t rest e) ≡ is_killed e
  unfolding refresh_book
  refresh_book-killed now t rest e = ground arith

  module _ (cfg : Settings W) (timestamp : String → Option W) (links : Links W)
      (answers : Answers W) (now : W) where
    plan_market-killed :
        (cid : String) (e : Engine W D) (p : Planned W) (e' : Engine W D)
        → plan_market cfg timestamp links now cid e ≡ some (p, e')
        → is_killed e' ≡ is_killed e
    unfolding plan_market plan_from assess update_mark
    plan_market-killed cid e p e' h = elim (Option-cases (quotable_market cid e)) [
      | inl skipped ↦ cc (rw skipped at h)
      | inr (q, found) ↦ ap (λ r. is_killed r.1) (sym (some-injective _ _ (rw found at h)))
    ]

    recompute-killed :
        (cid : String) (e : Engine W D)
        → is_killed (recompute cfg timestamp links answers now cid e).1 ≡ is_killed e
    unfolding recompute
    recompute-killed cid e = elim (Option-cases (plan_market cfg timestamp links now cid e)) [
      | inl skipped ↦ rw (skipped, is_killed, recompute) refl
      | inr (q, planned) ↦
          rw (planned, is_killed, recompute)
            (carry_out-killed cfg links answers now cid q.0 q.1
              ∙ plan_market-killed cid e q.0 q.1 planned)
    ]

  module _ (cfg : Settings W) (timestamp : String → Option W) where
    pub EngineStep-killed :
        {e e' : Engine W D} {asked : List (Request W)}
        → EngineStep cfg timestamp e asked e'
        → is_killed e ≡ true
        → is_killed e' ≡ true
    unfolding merge_task end_merge reset_day kill
    EngineStep-killed {e} (requotes links answers now cid) h =
        recompute-killed cfg timestamp links answers now cid e ∙ h
    EngineStep-killed {e} (trades a t p z ts) h = on_trade-killed a t p z ts e ∙ h
    EngineStep-killed {e} (fills fill) h = on_fill-killed fill e ∙ h
    EngineStep-killed (feeds state books) h = h
    EngineStep-killed {e} (beats now ok n reported) h =
        heartbeat_step-killed cfg now ok n reported e ∙ h
    EngineStep-killed {e} (reconciles now positions live) h =
        reconcile_round-killed cfg now positions live e ∙ h
    EngineStep-killed {e} (corrects balances asked_at) h =
        check_divergence-killed balances asked_at e ∙ h
    EngineStep-killed {e} (refreshes reports) h = apply_reports-killed reports e ∙ h
    EngineStep-killed {e} (rereads now t rest) h = refresh_book-killed now t rest e ∙ h
    EngineStep-killed (merged cid meta asked bals) h = h
    EngineStep-killed resets h = h
    EngineStep-killed kills h = refl
