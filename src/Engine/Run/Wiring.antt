-- ===== src/Engine/Run/Wiring.antt =====
-- engine.py: every step of the engine leaves the wiring of markets and tokens as it is.
use mathlib.Core.Option.{some-injective}
use poly_maker.Prelude.{
  Option, ◌≡◌, refl, ap, ◌∙◌, true, List, [], ◌∷◌, ◌++◌, String, inl, inr, not, false, ◌||◌,
  Bool-cases, Option-cases, if-intro, is_empty,
}
use mathlib.Core.Option
use poly_maker.Prelude.Eq.{◌==◌, string_eq}
use poly_maker.Float.{Float}
use poly_maker.Dict.{Dict, lookup}
use poly_maker.Domain.{TokenMeta}
use poly_maker.Engine.{
  Market, Engine, Settings, Links, change, wake_each, wake_all, wake_cid, on_market,
}
use poly_maker.Execution.Reconcile.{is_noop}
use poly_maker.Engine.Quoter.{Planned}
use poly_maker.Engine.Requests.{
  Request, cancels, remove_orders, Answers, carry_out, place_stage, place_quotes, maybe_merge,
  finish,
}
use poly_maker.Engine.Requests.Orders.{is_shed}
use poly_maker.Engine.Upkeep.{check_divergence, correct_token, correct_tokens, settled_tokens}
use poly_maker.Engine.Refresh.{MetaReport, apply_report, apply_meta_refresh, refreshed_meta}
use poly_maker.Engine.Metadata.{apply_reports}

module _ {W : Type 0} where
  -- What the wiring is about: each market's condition id and tokens
  abbrev pub ident : Market W → String × (TokenMeta × TokenMeta)
  ident m = (m.meta.condition_id, m.meta.tokens)

  abbrev pub shape : Dict String (Market W) → Dict String (String × (TokenMeta × TokenMeta))
  shape [] = []
  shape ((c, m) ∷ d) = (c, ident m) ∷ shape d

  shape-change :
      (cid : String) (g : Market W → Market W) (d : Dict String (Market W))
      → ((m : Market W) → ident (g m) ≡ ident m)
      → shape (change cid g d) ≡ shape d
  shape-change cid g [] h = refl
  shape-change cid g ((c, m) ∷ d) h = elim (Bool-cases (c == cid)) [
    | inl same ↦ rw same (ap (λ i. (c, i) ∷ shape d) (h m))
    | inr other ↦ rw other (ap (λ r. (c, ident m) ∷ r) (shape-change cid g d h))
  ]

  shape-wake_each : (d : Dict String (Market W)) → shape (wake_each d) ≡ shape d
  shape-wake_each [] = refl
  shape-wake_each ((c, m) ∷ d) = ap (λ r. (c, ident m) ∷ r) (shape-wake_each d)

  pub lookup-shape :
      (cid : String) (d : Dict String (Market W))
      → lookup cid (shape d) ≡ Option.map ident (lookup cid d)
  lookup-shape cid [] = refl
  lookup-shape cid ((c, m) ∷ d) = elim (Bool-cases (c == cid)) [
    | inl same ↦ rw same refl
    | inr other ↦ rw other (lookup-shape cid d)
  ]

module _ {W D : Type 0} where
  abbrev pub wiring :
      Engine W D → Dict String (String × (TokenMeta × TokenMeta)) × Dict String String
  wiring e = (shape e.markets, e.token_cid)

  pub on_market-wiring :
      (cid : String) (g : Market W → Market W) (e : Engine W D)
      → ((m : Market W) → ident (g m) ≡ ident m)
      → wiring (on_market cid g e) ≡ wiring e
  on_market-wiring cid g e h = ap (λ s. (s, e.token_cid)) (shape-change cid g e.markets h)

  pub wake_cid-wiring : (cid : String) (e : Engine W D) → wiring (wake_cid cid e) ≡ wiring e
  wake_cid-wiring cid e = on_market-wiring cid _ e (λ m. refl)

  pub wake_all-wiring : (e : Engine W D) → wiring (wake_all e) ≡ wiring e
  wake_all-wiring e = ap (λ s. (s, e.token_cid)) (shape-wake_each e.markets)

module _ {W D : Type 0} ⦃f : Float W⦄ where
  maybe_merge-wiring :
      (cfg : Settings W) (cid : String) (p : Planned W) (e : Engine W D)
      → wiring (maybe_merge cfg cid p e).1 ≡ wiring e
  unfolding maybe_merge
  maybe_merge-wiring cfg cid p e =
      if-intro (λ (r : List (Request W) × Engine W D). wiring r.1 ≡ wiring e) _ _ _ (λ _. refl)
        (λ _. on_market-wiring cid _ e (λ m. refl))

  finish-wiring :
      (cfg : Settings W) (links : Links W) (answers : Answers W) (now : W) (cid : String)
      (p : Planned W) (asked : List (Request W)) (e : Engine W D)
      → wiring (finish cfg links answers now cid p asked e).1 ≡ wiring e
  finish-wiring cfg links answers now cid p asked e =
      maybe_merge-wiring cfg cid p _ ∙ on_market-wiring cid _ e (λ m. refl)

  place_stage-wiring :
      (cfg : Settings W) (links : Links W) (answers : Answers W) (now : W) (cid : String)
      (p : Planned W) (asked : List (Request W)) (e : Engine W D)
      → wiring (place_stage cfg links answers now cid p asked e).1 ≡ wiring e
  unfolding place_stage
  place_stage-wiring cfg links answers now cid p asked e =
      if-intro Keeps (is_empty p.plan.to_place) _ _
        (λ _. finish-wiring cfg links answers now cid p asked e)
        (λ _.
          if-intro Keeps (is_shed cfg links p) _ _
            (λ _.
              finish-wiring cfg links answers now cid p asked (wake_cid cid e)
              ∙ wake_cid-wiring cid e)
            (λ _.
              finish-wiring cfg links answers now cid p
                (asked ++ (place_quotes answers now p e.state e.risk).0)
                (record e {
                  state = (place_quotes answers now p e.state e.risk).1;
                  risk = (place_quotes answers now p e.state e.risk).2;
                })))
    where
      Keeps : List (Request W) × Engine W D → Type 0
      Keeps r = wiring r.1 ≡ wiring e

  pub carry_out-wiring :
      (cfg : Settings W) (links : Links W) (answers : Answers W) (now : W) (cid : String)
      (p : Planned W) (e : Engine W D)
      → wiring (carry_out cfg links answers now cid p e).1 ≡ wiring e
  unfolding carry_out
  carry_out-wiring cfg links answers now cid p e =
      if-intro Keeps (is_noop p.plan) _ _ (λ _. maybe_merge-wiring cfg cid p e)
        (λ _.
          if-intro Keeps (is_empty p.plan.to_cancel) _ _
            (λ _. place_stage-wiring cfg links answers now cid p [] e)
            (λ _.
              if-intro Keeps answers.cancel_ok _ _
                (λ _.
                  place_stage-wiring cfg links answers now cid p (cancels p.plan.to_cancel ∷ [])
                    (record e { state = remove_orders p.plan.to_cancel e.state }))
                (λ _. wake_cid-wiring cid e)))
    where
      Keeps : List (Request W) × Engine W D → Type 0
      Keeps r = wiring r.1 ≡ wiring e

  apply_meta_refresh-wiring :
      (cid : String) (r : MetaReport W) (e : Engine W D)
      → wiring (apply_meta_refresh cid r e) ≡ wiring e
  unfolding apply_meta_refresh refreshed_meta
  apply_meta_refresh-wiring cid r e =
      on_market-wiring cid _ e
        (λ m. if-intro (λ (n : Market W). ident n ≡ ident m) _ _ _ (λ _. refl) (λ _. refl))

  apply_report-wiring :
      (cid : String) (r : MetaReport W) (e : Engine W D)
      → wiring (apply_report cid r e).1 ≡ wiring e
  unfolding apply_report
  apply_report-wiring cid r e = elim (Option-cases (lookup cid e.markets)) [
    | inl absent ↦ rw (absent, apply_report, wiring) refl
    | inr (m, found) ↦
        rw (found, apply_report, wiring)
          (if-intro Keeps (r.closed || not r.accepting) _ _
            (λ _.
              if-intro Keeps m.halted _ _ (λ _. refl)
                (λ _.
                  wake_cid-wiring cid (on_market cid (λ n. record n { halted = true }) e)
                  ∙ on_market-wiring cid _ e (λ n. refl)))
            (λ _.
              apply_meta_refresh-wiring cid r (on_market cid (λ n. record n { halted = false }) e)
              ∙ on_market-wiring cid _ e (λ n. refl)))
  ]
    where
      Keeps : List (Request W) × Engine W D → Type 0
      Keeps q = wiring q.1 ≡ wiring e

  pub apply_reports-wiring :
      (reports : Dict String (MetaReport W)) (e : Engine W D)
      → wiring (apply_reports reports e).1 ≡ wiring e
  unfolding apply_reports
  apply_reports-wiring [] e = refl
  apply_reports-wiring ((cid, r) ∷ reports) e =
      apply_reports-wiring reports (apply_report cid r e).1 ∙ apply_report-wiring cid r e

  correct_token-wiring :
      (t : String) (size : W) (e : Engine W D) → wiring (correct_token t size e) ≡ wiring e
  unfolding correct_token
  correct_token-wiring t size e = elim (Option-cases (lookup t e.token_cid)) [
    | inl unknown ↦
        rw (unknown, correct_token, wiring)
          (if-intro (λ (e' : Engine W D). wiring e' ≡ wiring e) _ _ _ (λ _. refl) (λ _. refl))
    | inr (cid, known) ↦
        rw (known, correct_token, wiring)
          (if-intro (λ (e' : Engine W D). wiring e' ≡ wiring e) _ _ _ (λ _. wake_cid-wiring cid e)
            (λ _. refl))
  ]

  correct_tokens-wiring :
      (onchain : Dict String W) (e : Engine W D) → wiring (correct_tokens onchain e) ≡ wiring e
  unfolding correct_tokens
  correct_tokens-wiring [] e = refl
  correct_tokens-wiring ((t, size) ∷ onchain) e =
      correct_tokens-wiring onchain (correct_token t size e) ∙ correct_token-wiring t size e

  pub check_divergence-wiring :
      (balances : List String → Option (Dict String W)) (asked_at e : Engine W D)
      → wiring (check_divergence balances asked_at e) ≡ wiring e
  unfolding check_divergence
  check_divergence-wiring balances asked_at e =
      elim (Option-cases (balances (settled_tokens asked_at))) [
        | inl silent ↦ rw (silent, check_divergence) refl
        | inr (onchain, said) ↦ rw (said, check_divergence) (correct_tokens-wiring onchain e)
      ]
