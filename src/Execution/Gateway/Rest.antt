-- ===== src/Execution/Gateway/Rest.antt =====
-- execution/gateway.py: what is read over REST. An answer is an argument, `none` where the call raised;
-- `raised` is an exception that the gateway does not catch.
use poly_maker.Prelude.{
  Bool, false, not, ◌&&◌, ◌||◌, Option, none, some, List, [], ◌∷◌, String, if◌then◌else◌,
}
use poly_maker.Prelude.Eq.{◌==◌, string_eq, nat_eq}
use poly_maker.Float.{Float, num, ◌⊘◌, ◌<?◌}
use poly_maker.Attempt.{Attempt, got, caught, raised, ◌>>=◌}
use poly_maker.Text.{codes}
use poly_maker.Json.{
  Json, truth, number, text, array, object, Fields, Items, Wire, get, get_else, elements, float_of,
  str_of, letters, keys_of,
}
use poly_maker.Dict.{Dict, insert}

abbrev starts_0x : String → Bool
starts_0x s = elim (codes s) [
  | [] ↦ false
  | a ∷ t ↦ elim t [ [] ↦ false | b ∷ r ↦ (a == b'0') && (b == b'x') ]
]

module _ {W : Type 0} ⦃f : Float W⦄ ⦃w : Wire W⦄ where
  -- `float(x)`, where a `ValueError` is caught and a `TypeError` is not
  abbrev pub float_or_raise : Json W → Attempt W
  float_or_raise (text s) = elim (w.read_float s) as (λ _. Attempt W) [
    | none ↦ caught
    | some x ↦ got x
  ]
  float_or_raise (number x) = got x
  float_or_raise (truth b) = got (if b then num 1 else num 0)
  float_or_raise _ = raised

  -- `d[k]`, where a `KeyError` is caught and a `TypeError` is not
  abbrev pub at_or_raise : String → Json W → Attempt (Json W)
  at_or_raise k (object d) = elim (get k d) as (λ _. Attempt (Json W)) [
    | none ↦ caught
    | some v ↦ got v
  ]
  at_or_raise k _ = raised

  abbrev pub each_or_raise : Json W → Attempt (List (Json W))
  each_or_raise (array xs) = got (elements xs)
  each_or_raise (text s) = got (letters s)
  each_or_raise (object d) = got (keys_of d)
  each_or_raise _ = raised

  -- The comprehension over the levels of a side
  abbrev pub levels_or_raise : List (Json W) → Attempt (List (W × W))
  levels_or_raise [] = got []
  levels_or_raise (x ∷ xs) = do
    price_text ← at_or_raise "price" x
    price ← float_or_raise price_text
    size_text ← at_or_raise "size" x
    size ← float_or_raise size_text
    rest ← levels_or_raise xs
    got ((price, size) ∷ rest)

  abbrev side_levels : String → Fields W → Attempt (List (W × W))
  side_levels k d = do xs ← each_or_raise (get_else k (array (Items.nil)) d); levels_or_raise xs

  abbrev hash_or_none : Option (Json W) → Option String
  hash_or_none (some (text s)) = some s
  hash_or_none _ = none

  -- `get_full_book`, of the answer to the request
  unfoldable pub get_full_book : Json W → Attempt (List (W × W) × List (W × W) × Option String)
  get_full_book (object d) = do
    bids ← side_levels "bids" d
    asks ← side_levels "asks" d
    got (bids, asks, hash_or_none (get "hash" d))
  get_full_book _ = raised

  -- The comprehension of `positions`: the entries of a positive size
  abbrev pub position_entries : List (Json W) → Dict String (W × W) → Attempt (Dict String (W × W))
  position_entries [] d = got d
  position_entries (object p ∷ ps) d = do
    tested ← float_or_raise (get_else "size" (number (num 0)) p)
    entry ←
        (if num 0 <? tested
          then (do
            asset ← at_or_raise "asset" (object p)
            size_text ← at_or_raise "size" (object p)
            size ← float_or_raise size_text
            avg ← float_or_raise (get_else "avgPrice" (number (num 0)) p)
            got (insert (str_of asset) (size, avg) d))
          else got d)
    position_entries ps entry
  position_entries (_ ∷ ps) d = raised

  -- An exception that `positions` catches gives no position.
  abbrev caught_empty : Attempt (Dict String (W × W)) → Attempt (Dict String (W × W))
  caught_empty (got d) = got d
  caught_empty caught = got []
  caught_empty raised = raised

  -- `positions` of a funder; `none` is a request that failed.
  unfoldable pub read_positions : String → Option (Json W) → Attempt (Dict String (W × W))
  read_positions funder answer =
      let read = elim answer as (λ _. Attempt (Dict String (W × W))) [
        | none ↦ got []
        | some v ↦ caught_empty (each_or_raise v >>= λ ps. position_entries ps [])
      ] in
      if not (starts_0x funder) || (funder == "0xPAPER") then got [] else read

  -- `collateral_balance`, from the fields of `balance_allowance`
  unfoldable pub collateral_balance : Fields W → W
  collateral_balance d =
      let scaled : Json W → W = λ v. elim (float_of v) as (λ _. W) [
        | none ↦ num 0
        | some x ↦ if num 1_000_000 <? x then x ⊘ num 1_000_000 else x
      ] in
      elim (get "balance" d) as (λ _. W) [
        | some v ↦ scaled v
        | none ↦ elim (get "collateral" d) as (λ _. W) [
          | some v ↦ scaled v
          | none ↦ elim (get "amount" d) as (λ _. W) [ some v ↦ scaled v | none ↦ num 0 ]
        ]
      ]
