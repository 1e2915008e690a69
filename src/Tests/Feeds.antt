-- ===== src/Tests/Feeds.antt =====
-- The theorems on the market data service and the gateway, at concrete inputs.
use poly_maker.Prelude.{
  ◌⊎◌, Option, ℕ, ◌≤◌, ◌≡◌, refl, true, false, none, some, List, [], ◌∷◌, String, All, Any, inl,
}
use poly_maker.Float.Fixed.{Fixed, fixed_float}
use poly_maker.SortedDict.Assoc.{assoc_dict}
use poly_maker.Prelude.Eq.{string_eq}
use poly_maker.Dict.{lookup}
use poly_maker.Domain.{TradeState, OpenOrder, buy, sell}
use poly_maker.MarketData.{MarketData, PriceChange, Signal, wakes, on_price_change}
use poly_maker.MarketData.Frames.{price_change_wakes}
use poly_maker.Execution.RateLimit.{TokenBucket, acquire, refill}
use poly_maker.Execution.Gateway.{
  Gateway, Response, as_list, place, post, placed_orders, first_of, order_of, open_orders,
}
use poly_maker.Execution.Gateway.Answers.{IsOrderOf, failed_read_forgets, place_lem}
use poly_maker.UserStream.{MakerOrder, TradeMessage, status_of, normalize_trade}
use poly_maker.UserStream.Trades.{Gives, normalize_trade_lem}
use poly_maker.State.Store.{replace_open_orders}
use poly_maker.Tests.{cents, whole, a_book, an_order, a_quote, a_store}

abbrev pub a_service : MarketData Fixed (List (Fixed × Fixed))
a_service = record {
  books = ("yes", a_book) ∷ [];
  token_condition = ("yes", "c1") ∷ [];
  subs = "yes" ∷ [];
  connected = true;
  disconnected_since = whole 0;
}

-- The best bid goes, and a level of a token without a book is set.
abbrev some_changes : List (PriceChange Fixed)
some_changes =
    record {
      asset_id = "yes";
      condition_id = "c1";
      side = buy;
      price = cents 48;
      size = whole 0;
      ts = whole 5;
    }
    ∷ record {
      asset_id = "other";
      condition_id = "c2";
      side = sell;
      price = cents 60;
      size = whole 3;
      ts = whole 5;
    }
    ∷ []

price_change_wakes_example :
    Any
      (λ (g : Signal Fixed). g ≡ wakes "c1" "yes")
      (on_price_change (whole 5) some_changes a_service).0
price_change_wakes_example =
    price_change_wakes (whole 5) some_changes a_service "yes" "c1" refl refl refl (inl refl)

abbrev a_bucket : TokenBucket Fixed
a_bucket = record { rate = whole 10; capacity = whole 20; tokens = whole 3; last = whole 1 }

abbrev a_gateway : Gateway Fixed
a_gateway = record {
  paper = false;
  ready = true;
  paper_ids = 1;
  hb_id = "";
  hb_failures = 0;
  order_bucket = a_bucket;
  cancel_bucket = a_bucket;
}

-- At time 100 the order of time 50 is past the ten seconds of grace.
failed_read_forgets_example :
    lookup "o1"
      (replace_open_orders (whole 100) "yes" (open_orders none a_gateway) (whole 10) a_store).orders
    ≡ none
failed_read_forgets_example =
    failed_read_forgets (whole 100) "yes" (whole 10) a_gateway a_store "o1" an_order
      (refl, refl, tt) refl refl refl

abbrev some_text : ℕ → String
some_text n = "n"

-- The exchange names an id for the first quote only.
abbrev an_answer : Response
an_answer = as_list ((("orderID", "x1") ∷ []) ∷ (("error", "e") ∷ []) ∷ [])

place_lem_example :
    All
      (λ (o : OpenOrder Fixed). Any (IsOrderOf o) (a_quote ∷ a_quote ∷ []))
      (order_of (whole 2) "x1" a_quote ∷ [])
    × (1 ≤ 2)
unfolding place post placed_orders first_of acquire refill
place_lem_example =
    place_lem some_text (whole 2 ∷ []) (whole 2) (a_quote ∷ a_quote ∷ []) (some an_answer) a_gateway
      (order_of (whole 2) "x1" a_quote ∷ [])
      (record a_gateway { order_bucket = record a_bucket { tokens = whole 11; last = whole 2 } })
      refl

abbrev a_maker_order : MakerOrder Fixed
a_maker_order = record {
  maker_address = "0xAb";
  matched_amount = some (whole 7);
  price = some (cents 40);
  outcome = some "Yes";
}

-- A taker buys YES from us and from someone else.
abbrev a_message : TradeMessage Fixed
a_message = record {
  status = "matched";
  asset_id = "yes";
  side = "BUY";
  outcome = some "Yes";
  ts = whole 9;
  trade_id = "t9";
  maker_orders = record a_maker_order { maker_address = "0xcd" } ∷ a_maker_order ∷ [];
}

abbrev no_other : String → Option String
no_other t = none

normalize_trade_lem_example :
    let evs = normalize_trade some_text no_other a_message "0xaB" in
    (status_of "matched" ≡ none) × (evs ≡ [])
    ⊎ (status : TradeState) × (status_of "matched" ≡ some status)
      × Gives some_text no_other a_message "0xaB" status 0 a_message.maker_orders evs
normalize_trade_lem_example = normalize_trade_lem some_text no_other a_message "0xaB"
