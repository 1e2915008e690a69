-- ===== src/Json.antt =====
-- What `json.loads` gives, and what the parsers do with it: `get`, `[]`, `float`, `str`, the test for
-- truth and iteration. `none` is an exception that the caller catches or lets through.
use Prim.Native.String.{String}
use poly_maker.Prelude.{Bool, true, false, not, Option, none, some, List, [], ◌∷◌, if◌then◌else◌}
use poly_maker.Prelude.Eq.{◌==◌, string_eq}
use poly_maker.Float.{Float, num, ◌⊘◌, ◌<?◌, ◌=?◌}
use poly_maker.Text.{same_text}
use poly_maker.Domain.{Side, buy, sell}

mutual
  pub data Json (W : Type 0) : Type 0 where
    null : Json W
    truth : Bool → Json W
    number : W → Json W
    text : String → Json W
    array : Items W → Json W
    object : Fields W → Json W

  pub data Items (W : Type 0) : Type 0 where
    nil : Items W
    cons : Json W → Items W → Items W

  -- The last entry of a key counts: a parser of JSON keeps one entry for each key.
  pub data Fields (W : Type 0) : Type 0 where
    end : Fields W
    field : String → Json W → Fields W → Fields W

-- Python's conversions between texts and values: `float(s)` and `json.loads(s)`, which may
-- raise, and `str(x)` of a number, a
-- list or an object
pub record Wire (W : Type 0) : Type 0 where
  pub read_float : String → Option W
  pub loads : String → Option (Json W)
  pub repr : Json W → String

module _ {W : Type 0} where
  abbrev pub elements : Items W → List (Json W)
  elements nil = []
  elements (cons x xs) = x ∷ elements xs

  abbrev pub items_from : List (Json W) → Items W
  items_from [] = nil
  items_from (x ∷ xs) = cons x (items_from xs)

  -- `d.get(k)`
  abbrev pub get : String → Fields W → Option (Json W)
  get k end = none
  get k (field j v d) = if j == k then some v else get k d

  -- `d[k]` of any value: raises unless it is an object with the key
  abbrev pub at : String → Json W → Option (Json W)
  at k (object d) = get k d
  at k _ = none

  -- `d.get(k, default)`
  abbrev pub get_else : String → Json W → Fields W → Json W
  get_else k v d = elim (get k d) [ none ↦ v | some x ↦ x ]

  abbrev pub is_text : String → Option (Json W) → Bool
  is_text s (some (text t)) = t == s
  is_text s _ = false

  -- A text is walked letter by letter.
  abbrev pub letters : String → List (Json W)
  letters String.[] = []
  letters (String.◌∷◌ c s) = text (String.◌∷◌ c String.[]) ∷ letters s

  abbrev pub keys_of : Fields W → List (Json W)
  keys_of end = []
  keys_of (field k v d) = text k ∷ keys_of d

module _ {W : Type 0} ⦃f : Float W⦄ ⦃w : Wire W⦄ where
  -- `float(x)`
  abbrev pub float_of : Json W → Option W
  float_of null = none
  float_of (truth b) = some (if b then num 1 else num 0)
  float_of (number x) = some x
  float_of (text s) = w.read_float s
  float_of (array xs) = none
  float_of (object d) = none

  -- `str(x)`
  abbrev pub str_of : Json W → String
  str_of (text s) = s
  str_of null = "None"
  str_of (truth b) = if b then "True" else "False"
  str_of v = w.repr v

  -- `bool(x)`
  abbrev pub is_true : Json W → Bool
  is_true null = false
  is_true (truth b) = b
  is_true (number x) = not (x =? num 0)
  is_true (text s) = not (s == "")
  is_true (array nil) = false
  is_true (array (cons x xs)) = true
  is_true (object end) = false
  is_true (object (field k v d)) = true

  -- `for x in v or []`: the values that the loop sees, or `TypeError`
  abbrev pub each_of : Option (Json W) → Option (List (Json W))
  each_of none = some []
  each_of (some null) = some []
  each_of (some (truth b)) = if b then none else some []
  each_of (some (number x)) = if x =? num 0 then some [] else none
  each_of (some (text s)) = some (letters s)
  each_of (some (array xs)) = some (elements xs)
  each_of (some (object d)) = some (keys_of d)

  -- `_ts` of the feeds: milliseconds are told from seconds by their size.
  unfoldable pub timestamp_of : Fields W → W
  timestamp_of msg = elim (get "timestamp" msg) [
    | none ↦ num 0
    | some raw ↦ elim (float_of raw) [
      | none ↦ num 0
      | some v ↦ if num 1_000_000_000_000 <? v then v ⊘ num 1000 else v
    ]
  ]

  -- `Side(str(x).upper())`
  abbrev pub side_value : Json W → Option Side
  side_value v =
      if same_text (str_of v) "BUY"
      then some buy
      else if same_text (str_of v) "SELL"
      then some sell
      else none
