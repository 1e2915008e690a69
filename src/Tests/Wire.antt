-- ===== src/Tests/Wire.antt =====
-- The theorems on the parsers of the sockets, at concrete inputs.
use poly_maker.Prelude.{
  ℕ, ◌≡◌, ◌&&◌, refl, true, false, Option, none, some, List, [], ◌∷◌, String, All, map,
}
use poly_maker.Prelude.Eq.{string_eq}
use poly_maker.Float.Fixed.{Fixed, fixed_float, Fixed-IsOrdered}
use poly_maker.SortedDict.Assoc.{assoc_dict, Assoc-IsSortedDict}
use poly_maker.Dict.{values, contains, member, AllDistinct}
use poly_maker.Domain.{Side, buy, sell}
use poly_maker.Json.{Json, number, text, array, object, end, field, nil, cons, Wire}
use poly_maker.Book.Levels.{IsLive}
use poly_maker.MarketData.{
  BookUpdate, TradePrint, TickSizeChange, book_frame, price_frame, trade_frame, tick_frame,
}
use poly_maker.MarketData.Parse.{frame_of}
use poly_maker.MarketData.Parse.RoundTrip.{
  book_message, price_message, trade_message, tick_message, stamped, frame_of-messages,
}
use poly_maker.MarketData.Parse.Live.{run_socket, run_socket-AllLive}
use poly_maker.State.Tracker.Once.{filled_ids}
use poly_maker.UserStream.Client.Once.{run_stream, stream_booked_once}
use poly_maker.Tests.{cents, whole}
use poly_maker.Tests.Feeds.{a_service}
use poly_maker.Tests.Stores.{fresh_tracker}

-- Numbers are written as numbers, so no text is one.
instance abbrev pub plain_wire : Wire Fixed
plain_wire = record { read_float = λ s. none; loads = λ s. none; repr = λ v. "" }

abbrev an_update : BookUpdate Fixed
an_update = record {
  asset_id = "yes";
  condition_id = "c1";
  bids = (cents 48, whole 10) ∷ [];
  asks = (cents 52, whole 15) ∷ [];
  ts = whole 1_700_000_000;
  book_hash = some "h";
  tick_size = none;
}

abbrev a_print : TradePrint Fixed
a_print = record {
  asset_id = "yes";
  condition_id = "c1";
  price = cents 50;
  size = whole 3;
  aggressor = sell;
  ts = whole 1_700_000_000;
}

abbrev a_tick_change : TickSizeChange Fixed
a_tick_change = record { asset_id = "yes"; tick_size = cents 1 }

abbrev some_rows : List (String × Side × Fixed × Fixed)
some_rows = ("yes", buy, cents 47, whole 0) ∷ ("no", sell, cents 53, whole 7) ∷ []

frame_of-messages_example :
    (frame_of (book_message number an_update) ≡ some (book_frame (some an_update)))
    × (frame_of (price_message number "c1" (whole 1_700_000_000) some_rows)
        ≡ some (price_frame (map (stamped "c1" (whole 1_700_000_000)) some_rows)))
    × (frame_of (trade_message number a_print) ≡ some (trade_frame (some a_print)))
    × (frame_of (tick_message number (cents 10) a_tick_change)
        ≡ some (tick_frame (some a_tick_change)))
frame_of-messages_example =
    frame_of-messages number (λ x. refl) an_update "c1" (whole 1_700_000_000) some_rows a_print
      (cents 10) a_tick_change refl refl refl

-- A change that empties a level, a text that is no JSON, and a change without its price
abbrev some_texts : List (Fixed × Option (Json Fixed))
some_texts =
    (whole 5, some (object (price_message number "c1" (whole 5) some_rows)))
    ∷ (whole 6, none)
    ∷ (whole 7, some (array nil))
    ∷ (whole 8, some (object (field "event_type" (text "price_change") end)))
    ∷ []

run_socket-AllLive_example : All IsLive (values (run_socket some_texts a_service).books)
run_socket-AllLive_example =
    run_socket-AllLive Fixed-IsOrdered (Assoc-IsSortedDict Fixed-IsOrdered) some_texts a_service
      (record { bids_live = (refl, (refl, tt)); asks_live = (refl, (refl, tt)) }, tt)

abbrev our_order : Json Fixed
our_order = object (
    field "maker_address" (text "0xME") (
      field "matched_amount" (number (whole 4))
        (field "price" (number (cents 48)) (field "outcome" (text "Yes") end))))

abbrev a_trade_text : Json Fixed
a_trade_text = object (
    field "event_type" (text "trade") (
      field "id" (text "t7") (
        field "asset_id" (text "yes") (
          field "market" (text "c1") (
            field "side" (text "SELL") (
              field "status" (text "MATCHED") (
                field "outcome" (text "Yes")
                  (field "maker_orders" (array (cons our_order nil)) end))))))))

-- The same trade twice, between them a text that is no JSON
abbrev some_answers : List (Fixed × Option (Json Fixed))
some_answers = (whole 5, some a_trade_text) ∷ (whole 6, none) ∷ (whole 7, some a_trade_text) ∷ []

abbrev digits : ℕ → String
digits n = "0"

abbrev no_token : String → Option String
no_token t = none

stream_booked_once_example :
    let r = run_stream digits no_token no_token "0xme" some_answers fresh_tracker in
    AllDistinct (filled_ids r.0)
    × ((i : String) → (contains i fresh_tracker.store.fills && member i (filled_ids r.0)) ≡ false)
    × ((i : String) → member i (filled_ids r.0) ≡ true → contains i r.1.store.fills ≡ true)
stream_booked_once_example =
    stream_booked_once digits no_token no_token "0xme" some_answers fresh_tracker
