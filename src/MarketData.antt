-- ===== src/MarketData.antt =====
-- marketdata/service.py: the books by token, and what a parsed frame does to them. The frames are
-- those of marketdata/parse.py, once parsed.
pub mod Frames
pub mod Parse
use poly_maker.Prelude.{
  Bool, true, false, not, ◌||◌, Option, none, some, List, [], ◌∷◌, ◌++◌, String, if◌then◌else◌,
}
use poly_maker.Prelude.Eq.{◌==◌, string_eq}
use poly_maker.Float.{Float, num, ◌=?◌}
use poly_maker.Dict.{Dict, lookup, contains, insert, add}
use poly_maker.SortedDict.{SortedDict}
use poly_maker.Domain.{Side}
use poly_maker.Book.{OrderBook, empty_book, apply_snapshot, apply_delta, set_tick_size}

pub record BookUpdate (W : Type 0) : Type 0 where
  pub asset_id : String
  pub condition_id : String
  pub bids : List (W × W)
  pub asks : List (W × W)
  pub ts : W
  pub book_hash : Option String
  pub tick_size : Option W

pub record PriceChange (W : Type 0) : Type 0 where
  pub asset_id : String
  pub condition_id : String
  pub side : Side
  pub price : W
  pub size : W
  pub ts : W

pub record TradePrint (W : Type 0) : Type 0 where
  pub asset_id : String
  pub condition_id : String
  pub aggressor : Side
  pub price : W
  pub size : W
  pub ts : W

pub record TickSizeChange (W : Type 0) : Type 0 where
  pub asset_id : String
  pub tick_size : W

-- A frame by its `event_type`; `none` is one that its parser refuses.
pub data Frame (W : Type 0) : Type 0 where
  book_frame : Option (BookUpdate W) → Frame W
  price_frame : List (PriceChange W) → Frame W
  trade_frame : Option (TradePrint W) → Frame W
  tick_frame : Option (TickSizeChange W) → Frame W
  other_frame : Frame W

-- The calls of `on_dirty` and `on_trade`
pub data Signal (W : Type 0) : Type 0 where
  wakes : String → String → Signal W
  trades : TradePrint W → Signal W

pub record MarketData (W D : Type 0) : Type 0 where
  pub books : Dict String (OrderBook W D)
  pub token_condition : Dict String String
  pub subs : List String
  pub connected : Bool
  pub disconnected_since : W

module _ {W D : Type 0} where
  -- `_wake`
  abbrev pub wake : String → MarketData W D → List (Signal W)
  wake t s = elim (lookup t s.token_condition) [
    | none ↦ []
    | some cid ↦ if cid == "" then [] else wakes cid t ∷ []
  ]

  abbrev pub wake_tokens : List String → MarketData W D → List (Signal W)
  wake_tokens [] s = []
  wake_tokens (t ∷ ts) s = wake t s ++ wake_tokens ts s

  abbrev pub put_book : String → OrderBook W D → MarketData W D → MarketData W D
  put_book t b s = record s { books = insert t b s.books }

  -- The websocket is subscribed, or lost at the time `now`.
  abbrev pub on_connected : MarketData W D → MarketData W D
  on_connected s = record s { connected = true }

  abbrev pub on_disconnected : W → MarketData W D → MarketData W D
  on_disconnected now s = record s { connected = false; disconnected_since = now }

module _ {W D : Type 0} ⦃f : Float W⦄ ⦃d : SortedDict W D⦄ where
  -- The inner loop of `set_markets`, over the tokens of one market
  unfoldable pub add_tokens : String → List String → MarketData W D → MarketData W D
  add_tokens cid [] s = s
  add_tokens cid (t ∷ ts) s = add_tokens cid ts (record s {
    token_condition = insert t cid s.token_condition;
    books = if contains t s.books then s.books else insert t empty_book s.books;
    subs = s.subs ++ (t ∷ []);
  })

  abbrev pub add_markets : List (String × List String) → MarketData W D → MarketData W D
  add_markets [] s = s
  add_markets ((cid, ts) ∷ ms) s = add_markets ms (add_tokens cid ts s)

  unfoldable pub set_markets : List (String × List String) → MarketData W D → MarketData W D
  unfolding add_tokens
  set_markets markets s = add_markets markets (record s { subs = [] })

  -- The tick size of a snapshot, if it has one that is not zero
  abbrev pub retick : Option W → OrderBook W D → OrderBook W D
  retick none book = book
  retick (some t) book = if t =? num 0 then book else set_tick_size t book

  -- `_on_book`, from the book that the service has for the token
  abbrev pub on_book :
      W → BookUpdate W → Option (OrderBook W D) → MarketData W D → List (Signal W) × MarketData W D
  on_book now u none s = ([], s)
  on_book now u (some book) s =
      let snapped = apply_snapshot now u.bids u.asks u.ts u.book_hash (retick u.tick_size book) in
      (wake u.asset_id s, put_book u.asset_id snapped s)

  -- `_on_tick_change`, likewise
  abbrev pub on_tick_change :
      TickSizeChange W → Option (OrderBook W D) → MarketData W D → MarketData W D
  on_tick_change c none s = s
  on_tick_change c (some book) s = put_book c.asset_id (set_tick_size c.tick_size book) s

  -- The loop of `_on_price_change`, with the tokens touched so far
  unfoldable pub apply_changes :
      W → List (PriceChange W) → List String → MarketData W D → List String × MarketData W D
  apply_changes now [] touched s = (touched, s)
  apply_changes now (c ∷ cs) touched s = elim (lookup c.asset_id s.books) [
    | none ↦ apply_changes now cs touched s
    | some book ↦
        apply_changes now cs (add c.asset_id touched)
          (put_book c.asset_id (apply_delta now c.side c.price c.size c.ts book) s)
  ]

  -- `_on_price_change`; the set of the tokens touched is walked in the order of the frame.
  unfoldable pub on_price_change :
      W → List (PriceChange W) → MarketData W D → List (Signal W) × MarketData W D
  unfolding apply_changes
  on_price_change now cs s =
      let (touched, s') = apply_changes now cs [] s in (wake_tokens touched s', s')

  -- `_dispatch`
  unfoldable pub dispatch : W → Frame W → MarketData W D → List (Signal W) × MarketData W D
  unfolding on_price_change
  dispatch now (book_frame none) s = ([], s)
  dispatch now (book_frame (some u)) s = on_book now u (lookup u.asset_id s.books) s
  dispatch now (price_frame cs) s = on_price_change now cs s
  dispatch now (trade_frame none) s = ([], s)
  dispatch now (trade_frame (some t)) s =
      (if contains t.asset_id s.books then trades t ∷ [] else [], s)
  dispatch now (tick_frame none) s = ([], s)
  dispatch now (tick_frame (some c)) s = ([], on_tick_change c (lookup c.asset_id s.books) s)
  dispatch now other_frame s = ([], s)
