-- ===== src/Execution/Gateway/Touch.antt =====
-- execution/gateway.py: the touch of a book over REST, and orders that take. Only the self-test with
-- money calls them.
use poly_maker.Prelude.{
  Bool, true, not, ◌||◌, Option, none, some, List, [], ◌∷◌, String, if◌then◌else◌,
}
use poly_maker.Float.{Float, num, dec, ◌⊕◌, ◌⊖◌, ◌≤?◌, fmin, fmax}
use poly_maker.Attempt.{Attempt, got, ◌>>=◌}
use poly_maker.Json.{Json, truth, text, object, Fields, end, field, Wire}
use poly_maker.Execution.Gateway.{Gateway}
use poly_maker.Execution.Gateway.Rest.{get_full_book}

pub record RestTouch (W : Type 0) : Type 0 where
  pub best_bid : W
  pub best_ask : W
  pub ask_depth : W
  pub bid_depth : W

module _ {W : Type 0} ⦃f : Float W⦄ where
  -- `max(levels)[0] if levels else default`, and with `min`
  abbrev extreme : (W → W → W) → W → List (W × W) → W
  extreme pick default [] = default
  extreme pick default ((p, s) ∷ []) = p
  extreme pick default ((p, s) ∷ l ∷ ls) = pick p (extreme pick default (l ∷ ls))

  -- `sum(s for p, s in levels if ...)`, from a running sum
  abbrev sum_where : (W → Bool) → List (W × W) → W → W
  sum_where test [] total = total
  sum_where test ((p, s) ∷ ls) total = sum_where test ls (if test p then total ⊕ s else total)

  abbrev touch_of : List (W × W) → List (W × W) → RestTouch W
  touch_of bids asks =
      let bid = extreme fmax (num 0) bids in
      let ask = extreme fmin (num 1) asks in
      record {
        best_bid = bid;
        best_ask = ask;
        ask_depth = sum_where (λ p. p ≤? (ask ⊕ dec 1 9)) asks (num 0);
        bid_depth = sum_where (λ p. (bid ⊖ dec 1 9) ≤? p) bids (num 0);
      }

module _ {W : Type 0} ⦃f : Float W⦄ ⦃w : Wire W⦄ where
  -- `get_book`, of the answer to the request; `caught` stands for the empty dictionary.
  unfoldable pub get_book : Json W → Attempt (RestTouch W)
  unfolding get_full_book
  get_book answer = get_full_book answer >>= λ book. got (touch_of book.0 book.1)

  -- `market_order`, from the client's answer; `none` is an exception, with its text.
  unfoldable pub market_order : String → Option (Json W) → Gateway W → Fields W
  market_order err answer g =
      let reported = elim answer as (λ _. Fields W) [
        | none ↦ field "status" (text "failed") (field "error" (text err) end)
        | some (object d) ↦ d
        | some v ↦ field "resp" v end
      ] in
      if g.paper || not g.ready then field "paper" (truth true) end else reported
