-- ===== src/Execution/Gateway.antt =====
-- execution/gateway.py: what the gateway makes of the exchange's answers. A call of the client is an
-- argument, `none` (or `false`) where it raised; `show` is the decimal text of a number.
pub mod Answers
pub mod Rows
pub mod Rest
pub mod Touch
pub mod Balances
use mathlib.Core.Option
use Prim.Native.String.{◌++◌ as text_append}
use poly_maker.Prelude.{
  ℕ, ◌+◌, Bool, true, false, ◌||◌, Option, none, some, List, [], ◌∷◌, String, if◌then◌else◌,
  is_empty, length, ltb,
}
use poly_maker.Prelude.Int.{pos}
use poly_maker.Prelude.Eq.{◌==◌, string_eq}
use poly_maker.Float.{Float}
use poly_maker.Dict.{Dict, lookup}
use poly_maker.Domain.{OpenOrder, live, Quote}
use poly_maker.Execution.RateLimit.{TokenBucket, acquire}

-- `ready` is whether the client is built.
pub record Gateway (W : Type 0) : Type 0 where
  pub paper : Bool
  pub ready : Bool
  pub paper_ids : ℕ
  pub hb_id : String
  pub hb_failures : ℕ
  pub order_bucket : TokenBucket W
  pub cancel_bucket : TokenBucket W

-- An entry of an answer, by its fields; a field that is not there or is empty is skipped.
abbrev pub Item : Type 0
Item = Dict String String

-- The answer to a batch: a list, or an object that may hold one under `orders` or `data`
pub data Response : Type 0 where
  as_list : List Item → Response
  as_object : Option (List Item) → Option (List Item) → Response

abbrev pub items_of : Response → List Item
items_of (as_list items) = items
items_of (as_object (some orders) data_items) = orders
items_of (as_object none (some items)) = items
items_of (as_object none none) = []

-- `_first`
unfoldable pub first_of : List String → Item → Option String
first_of [] d = none
first_of (k ∷ ks) d =
    let rest = first_of ks d in
    elim (lookup k d) [ none ↦ rest | some v ↦ if v == "" then rest else some v ]

abbrev pub id_keys : List String
id_keys = "orderID" ∷ "orderId" ∷ "order_id" ∷ "id" ∷ "hash" ∷ []

abbrev pub heartbeat_keys : List String
heartbeat_keys = "heartbeat_id" ∷ "heartbeatId" ∷ "id" ∷ []

module _ {W : Type 0} ⦃f : Float W⦄ where
  -- A resting order of a quote; `now` is its `created_ts`.
  abbrev pub order_of : W → String → Quote W → OpenOrder W
  order_of now i q = record {
    order_id = i;
    token_id = q.token_id;
    side = q.side;
    price = q.price;
    size = q.size;
    state = live;
    created_ts = now;
  }

  -- The loop of `_parse_place_response`, over the quotes and the items side by side
  unfoldable pub placed_orders : W → List (Quote W) → List Item → List (OpenOrder W)
  unfolding first_of
  placed_orders now [] items = []
  placed_orders now (q ∷ qs) [] = []
  placed_orders now (q ∷ qs) (x ∷ xs) =
      let rest = placed_orders now qs xs in
      elim (first_of id_keys x) [ none ↦ rest | some i ↦ order_of now i q ∷ rest ]

  -- The orders of paper mode, numbered from `n`
  unfoldable pub paper_orders : (ℕ → String) → W → ℕ → List (Quote W) → List (OpenOrder W)
  paper_orders show now n [] = []
  paper_orders show now n (q ∷ qs) =
      order_of now (text_append "paper-" (show n)) q ∷ paper_orders show now (n + 1) qs

  -- The orders that live mode reports for an answer
  abbrev pub answered_orders : W → List (Quote W) → Option Response → List (OpenOrder W)
  answered_orders now quotes none = []
  answered_orders now quotes (some response) = placed_orders now quotes (items_of response)

  -- `place`, once the budget is there
  unfoldable pub post :
      (ℕ → String)
      → W
      → List (Quote W)
      → Option Response
      → Gateway W
      → List (OpenOrder W) × Gateway W
  unfolding placed_orders paper_orders
  post show now quotes answer g =
      if g.paper
      then (
        paper_orders show now g.paper_ids quotes,
        record g { paper_ids = g.paper_ids + length quotes },
      )
      else (answered_orders now quotes answer, g)

  -- `place`, with the clock's readings while it waits for the budget; `none` while it still waits.
  unfoldable pub place :
      (ℕ → String)
      → List W
      → W
      → List (Quote W)
      → Option Response
      → Gateway W
      → Option (List (OpenOrder W) × Gateway W)
  unfolding post
  place show nows now [] answer g = some ([], g)
  place show nows now (q ∷ qs) answer g =
      Option.map (λ bucket. post show now (q ∷ qs) answer (record g { order_bucket = bucket }))
        (acquire nows (f.of_int (pos (length (q ∷ qs)))) g.order_bucket)

  module _ (nows : List W) where
    -- `cancel`: whether it succeeded; `none` while it still waits.
    unfoldable pub cancel : List String → Bool → Gateway W → Option (Bool × Gateway W)
    cancel ids answered g =
        let sent =
          elim (acquire nows (f.of_int (pos 1)) g.cancel_bucket)
            as (λ _. Option (Bool × Gateway W)) [
              | none ↦ none
              | some bucket ↦ some (answered, record g { cancel_bucket = bucket })
            ] in
        if is_empty ids || g.paper then some (true, g) else sent

  -- `cancel_asset`
  abbrev pub cancel_asset : Bool → Gateway W → Bool
  cancel_asset answered g = g.paper || answered

  -- `heartbeat`
  unfoldable pub heartbeat : Option Item → Gateway W → Bool × Gateway W
  unfolding first_of
  heartbeat answer g =
      let beaten = elim answer as (λ _. Bool × Gateway W) [
        | none ↦ (false, record g { hb_failures = g.hb_failures + 1; hb_id = "" })
        | some x ↦ (
          true,
          record g {
            hb_id = elim (first_of heartbeat_keys x) [ none ↦ "" | some i ↦ i ];
            hb_failures = 0;
          },
        )
      ] in
      if g.paper then (true, g) else if g.ready then beaten else (true, g)

  -- The rows of `open_orders` that parse; a row that does not is `none`.
  abbrev pub parsed_rows : List (Option (OpenOrder W)) → List (OpenOrder W)
  parsed_rows [] = []
  parsed_rows (none ∷ rows) = parsed_rows rows
  parsed_rows (some o ∷ rows) = o ∷ parsed_rows rows

  -- `open_orders`: a call that raised gives the same as one that lists nothing.
  unfoldable pub open_orders : Option (List (Option (OpenOrder W))) → Gateway W → List (OpenOrder W)
  open_orders answer g =
      let rows = elim answer as (λ _. List (OpenOrder W)) [
        | none ↦ []
        | some rows ↦ parsed_rows rows
      ] in
      if g.paper then [] else if g.ready then rows else []
