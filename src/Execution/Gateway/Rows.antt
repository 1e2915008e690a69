-- ===== src/Execution/Gateway/Rows.antt =====
-- execution/gateway.py: the rows of the open orders, as they come from the exchange.
use poly_maker.Prelude.{Option, none, some, List, [], ◌∷◌, String, if◌then◌else◌, ◌>>=◌}
use poly_maker.Prelude.Eq.{string_eq, nat_eq}
use poly_maker.Float.{Float, num, ◌⊖◌}
use poly_maker.Json.{
  Json, null, number, array, object, Fields, Wire, get, at, get_else, elements, float_of, str_of,
  is_true, side_value,
}
use poly_maker.Domain.{OpenOrder, live}
use poly_maker.Execution.Gateway.{Gateway}

module _ {W : Type 0} ⦃f : Float W⦄ ⦃w : Wire W⦄ where
  -- `_first`, of any value
  abbrev pub first_value : List String → Json W → Option (Json W)
  first_value [] v = none
  first_value (k ∷ ks) v =
      let rest = first_value ks v in
      elim (at k v) as (λ _. Option (Json W)) [
        | none ↦ rest
        | some x ↦ if is_true x then some x else rest
      ]

  -- `str` of a value that may be missing
  abbrev str_or_none : Option (Json W) → String
  str_or_none none = "None"
  str_or_none (some v) = str_of v

  abbrev fields_of : Json W → Option (Fields W)
  fields_of (object d) = some d
  fields_of _ = none

  -- A row of `open_orders`, read at the time `now`; `none` where it is skipped.
  unfoldable pub order_row : W → Json W → Option (OpenOrder W)
  order_row now r = do
    side_text ← at "side" r
    side ← side_value side_text
    d ← fields_of r
    original ← float_of (get_else "original_size" (get_else "size" (number (num 0)) d) d)
    matched ← float_of (get_else "size_matched" (number (num 0)) d)
    asset ← get "asset_id" d
    price_text ← get "price" d
    price ← float_of price_text
    some (record {
      order_id = str_or_none (first_value ("id" ∷ "orderID" ∷ "order_id" ∷ []) r);
      token_id = str_of asset;
      side = side;
      price = price;
      size = original ⊖ matched;
      state = live;
      created_ts = now;
    })

  abbrev pub order_rows_of : W → List (Json W) → List (OpenOrder W)
  order_rows_of now [] = []
  order_rows_of now (r ∷ rs) =
      let rest = order_rows_of now rs in
      elim (order_row now r) as (λ _. List (OpenOrder W)) [ none ↦ rest | some o ↦ o ∷ rest ]

  -- The rows of an answer: a list, or an object that holds one; anything else raises, and is caught.
  abbrev pub rows_of : Json W → List (Json W)
  rows_of (array xs) = elements xs
  rows_of (object d) = elim (get_else "data" (get_else "orders" null d) d) as (λ _. List (Json W)) [
    | array xs ↦ elements xs
    | _ ↦ []
  ]
  rows_of _ = []

  -- `open_orders`, from the answer as it comes
  unfoldable pub read_open_orders : W → Option (Json W) → Gateway W → List (OpenOrder W)
  unfolding order_row
  read_open_orders now answer g =
      let rows = elim answer as (λ _. List (OpenOrder W)) [
        | none ↦ []
        | some v ↦ order_rows_of now (rows_of v)
      ] in
      if g.paper then [] else if g.ready then rows else []
