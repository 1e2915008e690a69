-- ===== src/Catalog/Gamma.antt =====
-- catalog/gamma.py: the pages of markets, and the reading of a market. An answer of the server is an
-- argument. Where the source keeps a value as it is, a text is expected, and `str` of anything else.
pub mod Pages
use poly_maker.Prelude.{
  ℕ, zero, suc, ◌+◌, Bool, true, false, not, ◌&&◌, ◌||◌, Option, none, some, List, [], ◌∷◌, ◌++◌,
  String, if◌then◌else◌, get_or, length, ltb,
}
use poly_maker.Prelude.Int.{ℤ, pos}
use poly_maker.Prelude.Eq.{◌==◌, nat_eq, string_eq}
use poly_maker.Float.{Float, num, dec, ◌⊗◌}
use poly_maker.Text.{same_text}
use poly_maker.Dict.{Dict, lookup, insert}
use poly_maker.Domain.{TokenMeta, MarketMeta}
use poly_maker.Attempt.{Attempt, got, caught, raised, ◌>>=◌, ◌>>◌, catching}
use poly_maker.Json.{
  Json, null, truth, number, text, array, object, Fields, end, Items, nil, cons, Wire, get, at,
  get_else, elements, float_of, str_of, is_true, each_of,
}

-- An answer to a request for a page: a status 400 or 422, any other error, or the markets
pub data Page (A : Type 0) : Type 0 where
  past_end : Page A
  fails : Page A
  lists : List A → Page A

-- What follows a page: nothing if it is empty or short, else the rest of the loop
abbrev pub after_page : {A : Type 0} → ℕ → List A → List A × Bool → List A × Bool
after_page limit [] rest = ([], true)
after_page limit (x ∷ xs) rest =
    if ltb (length (x ∷ xs)) limit then (x ∷ xs, true) else ((x ∷ xs) ++ rest.0, rest.1)

-- The loop of `iter_markets`, over the pages left: what it yields, and whether it ends without an
-- exception. `answer` is the server, by the offset.
unfoldable pub iter_pages : {A : Type 0} → (ℕ → Page A) → ℕ → ℕ → ℕ → List A × Bool
iter_pages answer limit zero offset = ([], true)
iter_pages answer limit (suc pages) offset = elim (answer offset) [
  | past_end ↦ ([], true)
  | fails ↦ ([], false)
  | lists xs ↦ after_page limit xs (iter_pages answer limit pages (offset + limit))
]

-- `iter_markets`
unfoldable pub iter_markets : {A : Type 0} → (ℕ → Page A) → ℕ → ℕ → List A × Bool
unfolding iter_pages
iter_markets answer limit max_pages = iter_pages answer limit max_pages 0

abbrev pub require : Bool → Attempt (Unit {0})
require true = got tt
require false = caught

module _ {W : Type 0} ⦃f : Float W⦄ ⦃w : Wire W⦄ where
  -- A parsed value of `_json_list`
  abbrev list_of : Option (Json W) → List (Json W)
  list_of (some (array xs)) = elements xs
  list_of _ = []

  -- `_json_list`
  abbrev pub json_list : Option (Json W) → List (Json W)
  json_list (some (array xs)) = elements xs
  json_list (some (text s)) = list_of (w.loads s)
  json_list _ = []

  -- `x or {}`, of which `get` is called; `raised` is an `AttributeError`.
  abbrev pub fields_or_none : Option (Json W) → Attempt (Fields W)
  fields_or_none (some (object d)) = got d
  fields_or_none none = got end
  fields_or_none (some v) = if is_true v then raised else got end

  -- `x or d`, as a number
  abbrev pub number_or : W → Option (Json W) → Attempt W
  number_or d none = got d
  number_or d (some v) = if is_true v then catching (float_of v) else got d

  -- `get("id")` of the first event
  abbrev event_text : Json W → Attempt (Option String)
  event_text (object d) = elim (get "id" d) as (λ _. Attempt (Option String)) [
    | none ↦ got none
    | some null ↦ got none
    | some v ↦ got (some (str_of v))
  ]
  event_text _ = raised

  -- The event of a market, from `events or []`
  abbrev pub event_id_of : Option (Json W) → Attempt (Option String)
  event_id_of none = got none
  event_id_of (some (array nil)) = got none
  event_id_of (some (array (cons e es))) = event_text e
  event_id_of (some (text s)) = if s == "" then got none else raised
  event_id_of (some v) = if is_true v then caught else got none

  abbrev pub two_of : List (Json W) → Attempt (String × String)
  two_of (a ∷ b ∷ []) = got (str_of a, str_of b)
  two_of _ = caught

  abbrev text_or_none : Option (Json W) → Option String
  text_or_none none = none
  text_or_none (some null) = none
  text_or_none (some v) = some (str_of v)

  -- `a or b`, of two entries
  abbrev pub first_true : Option (Json W) → Option (Json W) → Option (Json W)
  first_true none b = b
  first_true (some v) b = if is_true v then some v else b

  -- `parse_market`
  unfoldable pub parse_market : Fields W → Dict String W → Attempt (MarketMeta W)
  parse_market raw rates = do
    require (is_true (get_else "acceptingOrders" (truth false) raw))
    ids ← two_of (json_list (get "clobTokenIds" raw))
    outcomes ← two_of (json_list (get "outcomes" raw))
    condition ← catching (get "conditionId" raw)
    fee ← fields_or_none (get "feeSchedule" raw)
    taker_rate ← number_or (num 0) (get "rate" fee)
    event ← event_id_of (get "events" raw)
    tick ← number_or (dec 1 3) (get "orderPriceMinTickSize" raw)
    min_size ← number_or (num 5) (get "orderMinSize" raw)
    rewards_min ← number_or (num 0) (get "rewardsMinSize" raw)
    rewards_spread ← number_or (num 0) (get "rewardsMaxSpread" raw)
    rebate ← number_or (num 0) (get "rebateRate" fee)
    bid ← number_or (num 0) (get "bestBid" raw)
    ask ← number_or (num 0) (get "bestAsk" raw)
    liquidity ← number_or (num 0) (get "liquidityNum" raw)
    volume ← number_or (num 0) (get "volumeNum" raw)
    day_volume ← number_or (num 0) (first_true (get "volume24hrClob" raw) (get "volume24hr" raw))
    got (record {
      condition_id = str_of condition;
      question = str_of (get_else "question" (text "") raw);
      slug = str_of (get_else "slug" (text "") raw);
      tokens = (
        record { token_id = ids.0; outcome = outcomes.0 },
        record { token_id = ids.1; outcome = outcomes.1 },
      );
      tick_size = tick;
      neg_risk = is_true (get_else "negRisk" (truth false) raw);
      min_order_size = min_size;
      rewards_min_size = rewards_min;
      rewards_max_spread = rewards_spread;
      rewards_daily_rate = get_or (lookup (str_of condition) rates) (num 0);
      maker_fee_bps = pos 0;
      taker_fee_bps = f.floor (f.round (taker_rate ⊗ num 10000) 0);
      fees_enabled = is_true (get_else "feesEnabled" (truth false) raw);
      end_date_iso = text_or_none (get "endDate" raw);
      event_id = event;
      rebate_rate = rebate;
      best_bid = bid;
      best_ask = ask;
      liquidity_num = liquidity;
      volume_num = volume;
      volume_24hr = day_volume;
    })
