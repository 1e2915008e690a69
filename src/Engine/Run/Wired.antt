-- ===== src/Engine/Run/Wired.antt =====
-- engine.py: the wiring of markets and tokens over the runs of the engine.
use mathlib.Core.Option.{some-injective}
use poly_maker.Prelude.{
  ◌≡◌, refl, sym, ap, ◌∙◌, Bool, Option, none, some, List, String, inl, inr, is_some, not, ◌&&◌,
  Bool-cases, Option-cases, if-intro,
}
use mathlib.Core.Option
use poly_maker.Prelude.Eq.{string_eq}
use poly_maker.Prelude.Int.{ℤ, leb_ℤ}
use poly_maker.Float.{Float}
use poly_maker.Dict.{Dict, lookup, contains}
use poly_maker.SortedDict.{SortedDict}
use poly_maker.Domain.{Side, Fill, OpenOrder}
use poly_maker.Engine.{Market, Engine, Settings, Links, on_trade, on_fill}
use poly_maker.Engine.Quoter.{plan_market, plan_from, quotable_market}
use poly_maker.Engine.Requests.{Request, Answers, recompute}
use poly_maker.Engine.Upkeep.{heartbeat_step, reconcile_round, reconcile_orders, note_pnl}
use poly_maker.Engine.Refresh.{refresh_book}
use poly_maker.Engine.Merges.{merge_task, end_merge}
use poly_maker.Engine.Run.{
  EngineStep, requotes, trades, fills, feeds, beats, reconciles, corrects, refreshes, rereads,
  merged, resets, kills, EngineRun, starts, steps,
}
use poly_maker.Json.{Wire}
use poly_maker.Config.{StrategyProfile}
use poly_maker.Config.Profile.{MarketEntry, Coerce}
use poly_maker.Catalog.Store.{CatalogStore}
use poly_maker.Engine.Resolve.{Sources, resolve_markets}
use poly_maker.Engine.Resolve.Wired.{IsWired, resolve_markets-IsWired}
use poly_maker.Engine.Run.Wiring.{
  wiring, on_market-wiring, wake_cid-wiring, wake_all-wiring, carry_out-wiring,
  apply_reports-wiring, check_divergence-wiring, ident, shape, lookup-shape,
}

module _ {W : Type 0} where
  contains-shape :
      (cid : String) (d : Dict String (Market W)) → contains cid (shape d) ≡ contains cid d
  contains-shape cid d = ap is_some (lookup-shape cid d) ∙ by_market (lookup cid d)
    where
      by_market : (o : Option (Market W)) → is_some (Option.map ident o) ≡ is_some o
      by_market none = refl
      by_market (some m) = refl

  -- The markets of the same shape hold one of the same condition id and tokens.
  found_before :
      (cid : String) (m : Market W) (ms ms' : Dict String (Market W))
      → shape ms' ≡ shape ms
      → lookup cid ms' ≡ some m
      → (n : Market W) × (lookup cid ms ≡ some n) × (ident n ≡ ident m)
  found_before cid m ms ms' same found = elim (Option-cases (lookup cid ms)) [
    | inl absent ↦ cc (absent, before)
    | inr (n, there) ↦ (n, there, some-injective _ _ (rw there at before))
  ]
    where
      before : Option.map ident (lookup cid ms) ≡ some (ident m)
      before =
          sym (lookup-shape cid ms)
          ∙ ap (λ d. lookup cid d) (sym same)
          ∙ lookup-shape cid ms'
          ∙ ap (Option.map ident) found

module _ {W D : Type 0} where
  IsWired-wiring : (e e' : Engine W D) → wiring e' ≡ wiring e → IsWired e → IsWired e'
  IsWired-wiring e e' same h = record {
    routed = λ t cid r.
        sym (contains-shape cid e'.markets)
        ∙ ap (λ x. contains cid x.0) same
        ∙ contains-shape cid e.markets
        ∙ h.routed t cid (ap (λ x. lookup t x.1) (sym same) ∙ r);
    listed = λ cid m r.
        let old = found_before cid m e.markets e'.markets (ap (λ x. x.0) same) r in
        let was = h.listed cid old.0 old.1 in
        let now_routed = λ (t : String). ap (λ x. contains t x.1) same in
        let same_ident = old.2 in
        (
          ap (λ i. i.0) (sym same_ident) ∙ was.0,
          now_routed _ ∙ ap (λ i. contains i.1.0.token_id e.token_cid) (sym same_ident) ∙ was.1,
          now_routed _ ∙ ap (λ i. contains i.1.1.token_id e.token_cid) (sym same_ident) ∙ was.2,
        );
  }

module _ {W D : Type 0} ⦃f : Float W⦄ where
  heartbeat_step-wiring :
      (cfg : Settings W) (now : W) (ok : Bool) (failures : ℤ)
      (reported : String → Option (List (OpenOrder W))) (e : Engine W D)
      → wiring (heartbeat_step cfg now ok failures reported e) ≡ wiring e
  unfolding heartbeat_step
  heartbeat_step-wiring cfg now ok failures reported e =
      if-intro Keeps
        (not ok && (leb_ℤ cfg.risk.heartbeat_halt_failures failures && not e.hb_was_down)) _ _
        (λ _. wake_all-wiring e)
        (λ _. if-intro Keeps (ok && e.hb_was_down) _ _ (λ _. wake_all-wiring e) (λ _. refl))
    where
      Keeps : Engine W D → Type 0
      Keeps e' = wiring e' ≡ wiring e

  reconcile_round-wiring :
      (cfg : Settings W) (now : W) (positions : Option (Dict String (W × W)))
      (live : Option (List (OpenOrder W))) (e : Engine W D)
      → wiring (reconcile_round cfg now positions live e) ≡ wiring e
  unfolding reconcile_round reconcile_orders note_pnl
  reconcile_round-wiring cfg now none live e = refl
  reconcile_round-wiring cfg now (some api) none e = elim (Bool-cases cfg.paper) [
    | inl paper ↦ rw paper (if-intro Keeps e.reconcile_now _ _ (λ _. wake_all-wiring e) (λ _. refl))
    | inr real ↦ rw real refl
  ]
    where
      Keeps : Engine W D → Type 0
      Keeps e' = wiring (note_pnl now e') ≡ wiring e
  reconcile_round-wiring cfg now (some api) (some orders) e = elim (Bool-cases cfg.paper) [
    | inl paper ↦ rw paper (if-intro Keeps e.reconcile_now _ _ (λ _. wake_all-wiring e) (λ _. refl))
    | inr real ↦ rw real (if-intro Keeps e.reconcile_now _ _ (λ _. wake_all-wiring e) (λ _. refl))
  ]
    where
      Keeps : Engine W D → Type 0
      Keeps e' = wiring (note_pnl now e') ≡ wiring e

module _ {W D : Type 0} ⦃f : Float W⦄ ⦃d : SortedDict W D⦄ where
  on_trade-wiring :
      (aggressor : Side) (asset : String) (price size ts : W) (e : Engine W D)
      → wiring (on_trade aggressor asset price size ts e) ≡ wiring e
  unfolding on_trade
  on_trade-wiring aggressor asset price size ts e = elim (Option-cases (lookup asset e.token_cid)) [
    | inl unknown ↦ rw (unknown, on_trade, wiring) refl
    | inr (cid, known) ↦ rw (known, on_trade, wiring) (on_market-wiring cid _ e (λ m. refl))
  ]

  on_fill-wiring : (fill : Fill W) (e : Engine W D) → wiring (on_fill fill e) ≡ wiring e
  unfolding on_fill
  on_fill-wiring fill e = elim (Option-cases (lookup fill.token_id e.token_cid)) [
    | inl unknown ↦ rw (unknown, on_fill, wiring) refl
    | inr (cid, known) ↦ rw (known, on_fill, wiring) (on_market-wiring cid _ e (λ m. refl))
  ]

  refresh_book-wiring :
      (now : W) (t : String) (rest : Option (List (W × W) × List (W × W) × Option String))
      (e : Engine W D)
      → wiring (refresh_book now t rest e) ≡ wiring e
  unfolding refresh_book
  refresh_book-wiring now t none e = refl
  refresh_book-wiring now t (some rest) e = elim (Option-cases (lookup t e.books)) [
    | inl absent ↦ rw (absent, refresh_book, wiring) refl
    | inr (book, found) ↦ elim (Option-cases (lookup t e.token_cid)) [
      | inl unknown ↦
          rw (found, unknown, refresh_book, wiring)
            (if-intro (λ (e' : Engine W D). wiring e' ≡ wiring e) _ _ _ (λ _. refl) (λ _. refl))
      | inr (cid, known) ↦
          rw (found, known, refresh_book, wiring)
            (if-intro (λ (e' : Engine W D). wiring e' ≡ wiring e) _ _ _ (λ _. wake_cid-wiring cid e)
              (λ _. refl))
    ]
  ]

  module _ (cfg : Settings W) (timestamp : String → Option W) where
    recompute-wiring :
        (links : Links W) (answers : Answers W) (now : W) (cid : String) (e : Engine W D)
        → wiring (recompute cfg timestamp links answers now cid e).1 ≡ wiring e
    unfolding recompute plan_market plan_from
    recompute-wiring links answers now cid e = elim (Option-cases (quotable_market cid e)) [
      | inl skipped ↦ rw (skipped, recompute, plan_market, wiring) refl
      | inr (q, found) ↦
          let planned = plan_from cfg timestamp links now cid q.0 q.1 q.2 e in
          rw (found, recompute, plan_market, wiring)
            (carry_out-wiring cfg links answers now cid planned.0 planned.1
              ∙ on_market-wiring cid _ e (λ m. refl))
    ]

    EngineStep-wiring :
        {e e' : Engine W D} {asked : List (Request W)}
        → EngineStep cfg timestamp e asked e'
        → wiring e' ≡ wiring e
    unfolding merge_task end_merge
    EngineStep-wiring {e} (requotes links answers now cid) =
        recompute-wiring links answers now cid e
    EngineStep-wiring {e} (trades a t p z ts) = on_trade-wiring a t p z ts e
    EngineStep-wiring {e} (fills fill) = on_fill-wiring fill e
    EngineStep-wiring (feeds state books) = refl
    EngineStep-wiring {e} (beats now ok n reported) = heartbeat_step-wiring cfg now ok n reported e
    EngineStep-wiring {e} (reconciles now positions live) =
        reconcile_round-wiring cfg now positions live e
    EngineStep-wiring {e} (corrects balances asked_at) = check_divergence-wiring balances asked_at e
    EngineStep-wiring {e} (refreshes reports) = apply_reports-wiring reports e
    EngineStep-wiring {e} (rereads now t rest) = refresh_book-wiring now t rest e
    EngineStep-wiring {e} (merged cid meta asked bals) = on_market-wiring cid _ e (λ m. refl)
    EngineStep-wiring resets = refl
    EngineStep-wiring kills = refl

    EngineRun-wiring :
        {e e' : Engine W D} {asked : List (Request W)}
        → EngineRun cfg timestamp e asked e'
        → wiring e' ≡ wiring e
    EngineRun-wiring starts = refl
    EngineRun-wiring (steps run step) = EngineStep-wiring step ∙ EngineRun-wiring run

    -- From the trade list on: if the start resolves it, then after any steps of the engine's tasks, in
    -- any order, every token still leads to a market that the engine has, and every market stands
    -- under its own condition id with both its tokens.
    pub run-IsWired :
        ⦃w : Wire W⦄ ⦃c : Coerce W⦄ (profiles : Dict String (StrategyProfile W))
        (asks : MarketEntry W → Sources W) (rates : Option (Dict String W))
        (entries : List (MarketEntry W)) (s : CatalogStore W) (e : Engine W D) {s' : CatalogStore W}
        {e' e'' : Engine W D} {asked : List (Request W)}
        → resolve_markets profiles asks rates entries s e ≡ some (s', e')
        → IsWired e
        → EngineRun cfg timestamp e' asked e''
        → IsWired e''
    run-IsWired profiles asks rates entries s e resolved h run =
        IsWired-wiring _ _ (EngineRun-wiring run)
          (resolve_markets-IsWired profiles asks rates entries s e resolved h)
