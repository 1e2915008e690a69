-- ===== src/MarketData/Parse/RoundTrip.antt =====
-- marketdata/parse.py: messages written in the shapes that the module's docstring lists are read back.
use poly_maker.Prelude.{
  ◌≡◌, refl, ap, false, Option, none, some, List, [], ◌∷◌, String, arith, map, ◌>>=◌,
}
use poly_maker.Float.{Float, num, ◌<?◌}
use poly_maker.Domain.{Side, buy, sell}
use poly_maker.Json.{
  Json, null, truth, number, text, array, object, Fields, end, field, Wire, elements, items_from,
  float_of, get, timestamp_of, side_value,
}
use poly_maker.MarketData.{
  BookUpdate, PriceChange, TradePrint, TickSizeChange, book_frame, price_frame, trade_frame,
  tick_frame,
}
use poly_maker.MarketData.Parse.{
  levels_of, hash_of, optional_float, changes_of, parse_book, parse_price_changes, parse_last_trade,
  parse_tick_size_change, frame_of,
}

abbrev pub side_name : Side → String
side_name buy = "BUY"
side_name sell = "SELL"

-- `write` is how the feed writes a number: as a number, or as a text.
module _ {W : Type 0} (write : W → Json W) where
  abbrev pub level_message : W × W → Json W
  level_message (p, s) = object (field "price" (write p) (field "size" (write s) end))

  abbrev pub optional : Option W → Json W
  optional none = null
  optional (some x) = write x

  abbrev pub hash_message : Option String → Json W
  hash_message none = null
  hash_message (some s) = text s

  abbrev pub book_message : BookUpdate W → Fields W
  book_message u = field "event_type" (text "book") (
      field "market" (text u.condition_id) (
        field "asset_id" (text u.asset_id) (
          field "bids" (array (items_from (map level_message u.bids))) (
            field "asks" (array (items_from (map level_message u.asks))) (
              field "timestamp" (write u.ts) (
                field "hash" (hash_message u.book_hash)
                  (field "tick_size" (optional u.tick_size) end)))))))

  abbrev pub change_message : String × Side × W × W → Json W
  change_message (asset, side, price, size) = object (
      field "asset_id" (text asset) (
        field "price" (write price)
          (field "size" (write size) (field "side" (text (side_name side)) end))))

  abbrev pub price_message : String → W → List (String × Side × W × W) → Fields W
  price_message cond ts rows = field "event_type" (text "price_change") (
      field "market" (text cond) (
        field "timestamp" (write ts)
          (field "price_changes" (array (items_from (map change_message rows))) end)))

  abbrev pub trade_message : TradePrint W → Fields W
  trade_message t = field "event_type" (text "last_trade_price") (
      field "market" (text t.condition_id) (
        field "asset_id" (text t.asset_id) (
          field "price" (write t.price) (
            field "size" (write t.size)
              (field "side" (text (side_name t.aggressor)) (field "timestamp" (write t.ts) end))))))

  abbrev pub tick_message : W → TickSizeChange W → Fields W
  tick_message old c = field "event_type" (text "tick_size_change") (
      field "asset_id" (text c.asset_id)
        (field "old_tick_size" (write old) (field "new_tick_size" (write c.tick_size) end)))

abbrev pub stamped : {W : Type 0} → String → W → String × Side × W × W → PriceChange W
stamped cond ts (asset, side, price, size) = record {
  asset_id = asset;
  condition_id = cond;
  side = side;
  price = price;
  size = size;
  ts = ts;
}

elements-items_from : {W : Type 0} (xs : List (Json W)) → elements (items_from xs) ≡ xs
elements-items_from [] = refl
elements-items_from (x ∷ xs) = ap (λ ys. x ∷ ys) (elements-items_from xs)

module _ {W : Type 0} ⦃f : Float W⦄ ⦃w : Wire W⦄ (write : W → Json W)
    (reads : (x : W) → float_of (write x) ≡ some x) where
  levels_of-message : (ls : List (W × W)) → levels_of (map (level_message write) ls) ≡ ls
  unfolding levels_of
  levels_of-message [] = refl
  levels_of-message ((p, s) ∷ ls) = ground (arith, reads p, reads s, levels_of-message ls)

  changes_of-message :
      (cond : String) (ts : W) (rows : List (String × Side × W × W))
      → changes_of cond ts (map (change_message write) rows) ≡ map (stamped cond ts) rows
  unfolding changes_of
  changes_of-message cond ts [] = refl
  changes_of-message cond ts ((asset, buy, p, s) ∷ rows) =
      ground (arith, reads p, reads s, changes_of-message cond ts rows)
  changes_of-message cond ts ((asset, sell, p, s) ∷ rows) =
      ground (arith, reads p, reads s, changes_of-message cond ts rows)

  optional_float-value :
      (v : Json W) (x : W) → float_of v ≡ some x → optional_float (some v) ≡ some (some x)
  optional_float-value null x h = cc h
  optional_float-value (truth b) x h = rw (h, ◌>>=◌) refl
  optional_float-value (number y) x h = rw (h, ◌>>=◌) refl
  optional_float-value (text s) x h = rw (h, ◌>>=◌) refl
  optional_float-value (array xs) x h = cc h
  optional_float-value (object d) x h = cc h

  optional_float-optional : (o : Option W) → optional_float (some (optional write o)) ≡ some o
  optional_float-optional none = refl
  optional_float-optional (some x) = optional_float-value (write x) x (reads x)

  timestamp_of-message :
      (msg : Fields W) (x : W)
      → get "timestamp" msg ≡ some (write x)
      → (num 1_000_000_000_000 <? x) ≡ false
      → timestamp_of msg ≡ x
  unfolding timestamp_of
  timestamp_of-message msg x h small = rw (h, timestamp_of) (rw (reads x) (rw small refl))

  hash_of-message : (h : Option String) → hash_of (some (hash_message write h)) ≡ h
  hash_of-message none = refl
  hash_of-message (some s) = refl

  side_value-name : (s : Side) → side_value {W = W} (text (side_name s)) ≡ some s
  side_value-name buy = refl
  side_value-name sell = refl

  parse_book-message :
      (u : BookUpdate W)
      → (num 1_000_000_000_000 <? u.ts) ≡ false
      → parse_book (book_message write u) ≡ some u
  unfolding parse_book
  parse_book-message u h =
      rw
        (
          optional_float-optional u.tick_size,
          elements-items_from (map (level_message write) u.bids),
          elements-items_from (map (level_message write) u.asks),
          levels_of-message u.bids,
          levels_of-message u.asks,
          timestamp_of-message (book_message write u) u.ts refl h,
        )
        (ap (λ k. some (record u { book_hash = k })) (hash_of-message u.book_hash))

  parse_last_trade-message :
      (t : TradePrint W)
      → (num 1_000_000_000_000 <? t.ts) ≡ false
      → parse_last_trade (trade_message write t) ≡ some t
  unfolding parse_last_trade
  parse_last_trade-message t h =
      rw
        (
          side_value-name t.aggressor,
          reads t.price,
          reads t.size,
          timestamp_of-message (trade_message write t) t.ts refl h,
        )
        refl

  parse_tick_size_change-message :
      (old : W) (c : TickSizeChange W) → parse_tick_size_change (tick_message write old c) ≡ some c
  unfolding parse_tick_size_change
  parse_tick_size_change-message old c = ground (arith, reads c.tick_size)

  -- Messages in the documented shapes are read back exactly: a snapshot, the price changes, the trade
  -- print and the tick change, where the timestamp is in seconds and `float` reads each number as it
  -- was written.
  pub frame_of-messages :
      (u : BookUpdate W) (cond : String) (ts : W) (rows : List (String × Side × W × W))
      (t : TradePrint W) (old : W) (c : TickSizeChange W)
      → (num 1_000_000_000_000 <? u.ts) ≡ false
      → (num 1_000_000_000_000 <? ts) ≡ false
      → (num 1_000_000_000_000 <? t.ts) ≡ false
      → (frame_of (book_message write u) ≡ some (book_frame (some u)))
        × (frame_of (price_message write cond ts rows)
            ≡ some (price_frame (map (stamped cond ts) rows)))
        × (frame_of (trade_message write t) ≡ some (trade_frame (some t)))
        × (frame_of (tick_message write old c) ≡ some (tick_frame (some c)))
  unfolding frame_of parse_price_changes
  frame_of-messages u cond ts rows t old c hu hts ht = (
    ap (λ o. some (book_frame o)) (parse_book-message u hu),
    ap (λ o. some (price_frame o))
        (rw
          (
            elements-items_from (map (change_message write) rows),
            timestamp_of-message (price_message write cond ts rows) ts refl hts,
          )
          (changes_of-message cond ts rows)),
    ap (λ o. some (trade_frame o)) (parse_last_trade-message t ht),
    ap (λ o. some (tick_frame o)) (parse_tick_size_change-message old c),
  )
