-- ===== src/Engine/Requests/Postable.antt =====
-- engine.py: from the quotes to the exchange, what a requote asks to place can be posted.
use mathlib.Core.Option.{some-injective}
use poly_maker.Prelude.{
  ◌≡◌, sym, ap, Option, some, List, [], ◌∷◌, String, All, All-map, Option-cases, inl, inr,
}
use mathlib.Core.Path.{subst}
use poly_maker.Prelude.Eq.{string_eq}
use poly_maker.Float.{Float}
use poly_maker.Float.Laws.{IsOrdered}
use poly_maker.Dict.{lookup}
use poly_maker.SortedDict.{SortedDict}
use poly_maker.Domain.{Quote, OpenOrder, TargetQuotes, yes_token}
use poly_maker.Book.{OrderBook}
use poly_maker.Strategy.Regime.{decide}
use poly_maker.Strategy.Quoting.Quotes.{IsPostable, construct_quotes-IsPostable}
use poly_maker.Execution.Reconcile.{Tolerances, candidates, find_match, match_quotes, reconcile}
use poly_maker.Engine.{Market, Engine, Settings, Links}
use poly_maker.Engine.Quoter.{
  quotable_market, usable_microprice, assess, regime_inputs, quote_inputs, live_orders,
  tolerances_of, plan_from, plan_market,
}
use poly_maker.Engine.Requests.{Request, Answers, recompute}
use poly_maker.Engine.Requests.Orders.{placed_by, placements_follow_cancels}

module _ {W : Type 0} ⦃f : Float W⦄ where
  match_quotes-All :
      (P : Quote W → Type 0) (t : Tolerances W) (live : List (OpenOrder W)) (keep : List String)
      (qs : List (Quote W))
      → All P qs
      → All P (match_quotes t live keep qs).1
  unfolding match_quotes
  match_quotes-All P t live keep [] a = tt
  match_quotes-All P t live keep (q ∷ qs) a =
      elim (Option-cases (find_match t keep q (candidates q live))) [
        | inl unmatched ↦ rw (unmatched, match_quotes) (a.0, match_quotes-All P t live keep qs a.1)
        | inr (o, matched) ↦
            rw (matched, match_quotes) (match_quotes-All P t live (o.order_id ∷ keep) qs a.1)
      ]

  reconcile-All :
      (P : Quote W → Type 0) (targets : TargetQuotes W) (live : List (OpenOrder W))
      (t : Tolerances W)
      → All P targets.quotes
      → All P (reconcile targets live t).to_place
  unfolding reconcile
  reconcile-All P targets live t a = match_quotes-All P t live [] targets.quotes a

module _ {W D : Type 0} ⦃f : Float W⦄ ⦃d : SortedDict W D⦄ where
  quotable_market-same :
      (cid : String) (m : Market W) (e : Engine W D) (q : Market W × OrderBook W D × W)
      → lookup cid e.markets ≡ some m
      → quotable_market cid e ≡ some q
      → m ≡ q.0
  unfolding quotable_market
  quotable_market-same cid m e q known found =
      let k = rw known at found in
      elim (Option-cases (lookup (yes_token m.meta) e.books)) [
        | inl absent ↦ cc (rw absent at k)
        | inr (book, there) ↦ elim (Option-cases (usable_microprice m.profile.micro_levels book)) [
          | inl unusable ↦ cc (rw (there, unusable) at k)
          | inr (micro, usable) ↦ ap (λ x. x.0) (some-injective _ _ (rw (there, usable) at k))
        ]
      ]

  module _ (o : IsOrdered W) (cfg : Settings W) (timestamp : String → Option W) (links : Links W)
      (answers : Answers W) (now : W) where
    plan_from-IsPostable :
        (cid : String) (m : Market W) (book : OrderBook W D) (micro : W) (e : Engine W D)
        → All
            (IsPostable m.meta)
            (plan_from cfg timestamp links now cid m book micro e).0.plan.to_place
    unfolding plan_from quote_inputs
    plan_from-IsPostable cid m book micro e =
        let a = assess cfg links now m micro e in
        let decided = decide (regime_inputs timestamp now m e a) m.profile m.regime_m in
        reconcile-All (IsPostable m.meta) _ (live_orders m e) (tolerances_of m)
          (construct_quotes-IsPostable (quote_inputs now m book e a decided.0) o)

    -- Whatever a requote asks the exchange to place can be posted on its market: each order is for one
    -- of the market's two tokens, at a price strictly between 0 and 1, for at least the exchange
    -- minimum. Nothing is assumed of the books, the positions, the settings or the answers.
    pub requote_posts_valid :
        (cid : String) (m : Market W) (e : Engine W D)
        → lookup cid e.markets ≡ some m
        → All
            (λ (r : Request W). All (IsPostable m.meta) (placed_by r))
            (recompute cfg timestamp links answers now cid e).0
    unfolding recompute plan_market
    requote_posts_valid cid m e known = elim (Option-cases (quotable_market cid e)) [
      | inl skipped ↦ rw (skipped, recompute, plan_market) tt
      | inr (q, found) ↦
          let planned = plan_from cfg timestamp links now cid q.0 q.1 q.2 e in
          let valid =
            subst (λ (n : Market W). All (IsPostable n.meta) planned.0.plan.to_place)
              (sym (quotable_market-same cid m e q known found))
              (plan_from-IsPostable cid q.0 q.1 q.2 e) in
          rw (found, recompute, plan_market)
            (All-map _ (λ (r : Request W). All (IsPostable m.meta) (placed_by r)) _
              (λ r c. elim c as (λ _. All (IsPostable m.meta) (placed_by r)) [
                | inl nothing ↦ subst (All (IsPostable m.meta)) (sym nothing) tt
                | inr wanted ↦ subst (All (IsPostable m.meta)) (sym wanted.0) valid
              ])
              (placements_follow_cancels cfg links answers now cid planned.0 planned.1))
    ]
