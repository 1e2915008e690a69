-- ===== src/MarketData/Parse.antt =====
-- marketdata/parse.py, and `_handle` of marketdata/service.py: from what `json.loads` gives to the books.
-- A hash that is not a text is left out of the book.
pub mod RoundTrip
pub mod Live
use poly_maker.Prelude.{
  Bool, true, false, Option, none, some, List, [], ◌∷◌, ◌++◌, String, if◌then◌else◌, ◌>>=◌,
}
use poly_maker.Float.{Float}
use poly_maker.SortedDict.{SortedDict}
use poly_maker.Json.{
  Json, null, text, array, object, Fields, Wire, get, at, get_else, is_text, elements, float_of,
  str_of, each_of, timestamp_of, side_value,
}
use poly_maker.MarketData.{
  BookUpdate, PriceChange, TradePrint, TickSizeChange, Frame, book_frame, price_frame, trade_frame,
  tick_frame, other_frame, Signal, MarketData, dispatch,
}

module _ {W : Type 0} ⦃f : Float W⦄ ⦃w : Wire W⦄ where
  -- One step of `_levels`
  abbrev pub level_of : Json W → Option (W × W)
  level_of it = do
    price ← at "price" it
    size ← at "size" it
    p ← float_of price
    s ← float_of size
    some (p, s)

  -- The loop of `_levels`: an entry that does not parse is skipped.
  unfoldable pub levels_of : List (Json W) → List (W × W)
  levels_of [] = []
  levels_of (it ∷ items) =
      let rest = levels_of items in elim (level_of it) [ none ↦ rest | some l ↦ l ∷ rest ]

  -- `float(tick) if tick is not None else None`, which may raise
  abbrev pub optional_float : Option (Json W) → Option (Option W)
  optional_float none = some none
  optional_float (some null) = some none
  optional_float (some v) = do x ← float_of v; some (some x)

  abbrev pub hash_of : Option (Json W) → Option String
  hash_of (some (text s)) = some s
  hash_of _ = none

  unfoldable pub parse_book : Fields W → Option (BookUpdate W)
  unfolding levels_of
  parse_book msg = do
    tick ← optional_float (get "tick_size" msg)
    asset ← get "asset_id" msg
    bids ← each_of (get "bids" msg)
    asks ← each_of (get "asks" msg)
    some (record {
      asset_id = str_of asset;
      condition_id = str_of (get_else "market" (text "") msg);
      bids = levels_of bids;
      asks = levels_of asks;
      ts = timestamp_of msg;
      book_hash = hash_of (get "hash" msg);
      tick_size = tick;
    })

  -- One step of the loop of `parse_price_changes`
  abbrev pub change_of : String → W → Json W → Option (PriceChange W)
  change_of cond ts ch = do
    asset ← at "asset_id" ch
    side_text ← at "side" ch
    side ← side_value side_text
    price_text ← at "price" ch
    price ← float_of price_text
    size_text ← at "size" ch
    size ← float_of size_text
    some (record {
      asset_id = str_of asset;
      condition_id = cond;
      side = side;
      price = price;
      size = size;
      ts = ts;
    })

  unfoldable pub changes_of : String → W → List (Json W) → List (PriceChange W)
  changes_of cond ts [] = []
  changes_of cond ts (ch ∷ chs) =
      let rest = changes_of cond ts chs in
      elim (change_of cond ts ch) [ none ↦ rest | some c ↦ c ∷ rest ]

  -- `none` is the `TypeError` of a field that cannot be walked, which no `try` catches.
  unfoldable pub parse_price_changes : Fields W → Option (List (PriceChange W))
  unfolding changes_of
  parse_price_changes msg = do
    chs ← each_of (get "price_changes" msg)
    some (changes_of (str_of (get_else "market" (text "") msg)) (timestamp_of msg) chs)

  unfoldable pub parse_last_trade : Fields W → Option (TradePrint W)
  parse_last_trade msg = do
    asset ← get "asset_id" msg
    side ← side_value (get_else "side" (text "BUY") msg)
    price_text ← get "price" msg
    price ← float_of price_text
    size_text ← get "size" msg
    size ← float_of size_text
    some (record {
      asset_id = str_of asset;
      condition_id = str_of (get_else "market" (text "") msg);
      aggressor = side;
      price = price;
      size = size;
      ts = timestamp_of msg;
    })

  -- `new_tick_size` counts if the key is there, even with null.
  abbrev pub new_tick : Fields W → Json W
  new_tick msg = get_else "new_tick_size" (get_else "tick_size" null msg) msg

  unfoldable pub parse_tick_size_change : Fields W → Option (TickSizeChange W)
  parse_tick_size_change msg = do
    tick ← float_of (new_tick msg)
    asset ← get "asset_id" msg
    some (record { asset_id = str_of asset; tick_size = tick })

  -- The parser that `_dispatch` chooses; `none` where it raises
  unfoldable pub frame_of : Fields W → Option (Frame W)
  unfolding parse_book parse_price_changes parse_last_trade parse_tick_size_change
  frame_of msg =
      let et = get "event_type" msg in
      if is_text "book" et
      then some (book_frame (parse_book msg))
      else if is_text "price_change" et
      then (parse_price_changes msg >>= λ cs. some (price_frame cs))
      else if is_text "last_trade_price" et
      then some (trade_frame (parse_last_trade msg))
      else if is_text "tick_size_change" et
      then some (tick_frame (parse_tick_size_change msg))
      else some other_frame

  -- The messages of a frame: a list, or a single one
  abbrev pub messages_of : Json W → List (Json W)
  messages_of (array xs) = elements xs
  messages_of v = v ∷ []

module _ {W D : Type 0} ⦃f : Float W⦄ ⦃w : Wire W⦄ ⦃d : SortedDict W D⦄ where
  -- The loop of `_handle`; the flag is whether it ended without an exception.
  unfoldable pub handle_messages :
      W → List (Json W) → MarketData W D → Bool × List (Signal W) × MarketData W D
  handle_messages now [] s = (true, [], s)
  handle_messages now (object msg ∷ msgs) s = elim (frame_of msg) [
    | none ↦ (false, [], s)
    | some fr ↦
        let (signals, s') = dispatch now fr s in
        let (ended, more, s'') = handle_messages now msgs s' in (ended, signals ++ more, s'')
  ]
  handle_messages now (v ∷ msgs) s = handle_messages now msgs s

  -- `_handle`, of what `json.loads` gives; `none` where the text is no JSON
  unfoldable pub handle :
      W → Option (Json W) → MarketData W D → Bool × List (Signal W) × MarketData W D
  unfolding handle_messages
  handle now none s = (true, [], s)
  handle now (some v) s = handle_messages now (messages_of v) s
