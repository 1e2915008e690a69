-- ===== src/Book.antt =====
-- marketdata/orderbook.py: the order book of one token and its analytics.
pub mod Order
pub mod Levels
pub mod Touch
use mathlib.Core.List.{reverse}
use poly_maker.Prelude.{
  ℕ, zero, suc, Bool, ◌&&◌, ◌||◌, Option, none, some, List, [], ◌∷◌, String, if◌then◌else◌,
  is_empty, take, drop, map,
}
use poly_maker.Prelude.Int.{ℤ, pos, negsuc}
use poly_maker.Float.{Float, num, dec, ◌⊕◌, ◌⊖◌, ◌⊗◌, ◌⊘◌, ◌≤?◌, ◌<?◌, fsum}
use poly_maker.SortedDict.{SortedDict}
use poly_maker.Domain.{Side, buy, sell}

pub record BookLevel (W : Type 0) : Type 0 where
  pub price : W
  pub size : W

pub record BookView (W : Type 0) : Type 0 where
  pub best_bid : Option W
  pub best_bid_size : W
  pub best_ask : Option W
  pub best_ask_size : W
  pub second_bid : Option W
  pub second_ask : Option W
  pub bid_depth : W
  pub ask_depth : W

pub record OrderBook (W D : Type 0) : Type 0 where
  pub bids : D
  pub asks : D
  pub tick_size : W
  pub last_update_ts : W
  pub local_ts : W
  pub book_hash : Option String

module _ {W : Type 0} ⦃f : Float W⦄ where
  -- `BookView.mid`
  unfoldable pub mid : BookView W → Option W
  mid v = elim v.best_bid [
    | none ↦ none
    | some b ↦ elim v.best_ask [ none ↦ none | some a ↦ some ((b ⊕ a) ⊘ num 2) ]
  ]

  -- `BookView.spread`
  unfoldable pub spread : BookView W → Option W
  spread v = elim v.best_bid [
    | none ↦ none
    | some b ↦ elim v.best_ask [ none ↦ none | some a ↦ some (a ⊖ b) ]
  ]

  -- `BookView.imbalance`
  unfoldable pub imbalance : BookView W → W
  imbalance v =
      let total = v.bid_depth ⊕ v.ask_depth in
      if num 0 <? total then (v.bid_depth ⊖ v.ask_depth) ⊘ total else num 0

  -- `_empty_view`
  abbrev pub empty_view : BookView W
  empty_view = record {
    best_bid = none;
    best_bid_size = num 0;
    best_ask = none;
    best_ask_size = num 0;
    second_bid = none;
    second_ask = none;
    bid_depth = num 0;
    ask_depth = num 0;
  }

  abbrev pub level_of : W × W → BookLevel W
  level_of (p, s) = record { price = p; size = s }

  abbrev pub first_level : List (W × W) → Option (BookLevel W)
  first_level [] = none
  first_level (x ∷ l) = some (level_of x)

  abbrev pub price_of : Option (BookLevel W) → Option W
  price_of none = none
  price_of (some l) = some l.price

  abbrev pub size_of : Option (BookLevel W) → W
  size_of none = num 0
  size_of (some l) = l.size

  -- The loop of `_nth_bid` and `_nth_ask`: the level that `n` others of more than `min_size` precede.
  abbrev pub nth_level : ℕ → W → List (W × W) → Option (BookLevel W)
  nth_level n min_size [] = none
  nth_level zero min_size ((p, s) ∷ l) =
      let rest = nth_level zero min_size l in if min_size <? s then some (level_of (p, s)) else rest
  nth_level (suc n) min_size ((p, s) ∷ l) =
      let found = nth_level n min_size l in
      let rest = nth_level (suc n) min_size l in if min_size <? s then found else rest

  -- The loop of `best_with_min_size`, once the touch `top` is known.
  abbrev pub first_above : W → Option W → List (W × W) → Option W × W × Option W
  first_above min_size top [] = (none, num 0, top)
  first_above min_size top ((p, s) ∷ l) =
      let rest = first_above min_size top l in if min_size <? s then (some p, s, top) else rest

  abbrev pub from_touch : W → List (W × W) → Option W × W × Option W
  from_touch min_size [] = (none, num 0, none)
  from_touch min_size ((p, s) ∷ l) = first_above min_size (some p) ((p, s) ∷ l)

  abbrev pub sizes_within : W → W → List (W × W) → List W
  sizes_within lo hi [] = []
  sizes_within lo hi ((p, s) ∷ l) =
      let rest = sizes_within lo hi l in if (lo ≤? p) && (p ≤? hi) then s ∷ rest else rest

  -- `sum(sizes[:levels])`; a negative count drops sizes from the end.
  abbrev pub sum_first : ℤ → List (W × W) → W
  sum_first (pos n) l = fsum (num 0) (map (λ (x : W × W). x.1) (take n l))
  sum_first (negsuc n) l =
      fsum (num 0) (map (λ (x : W × W). x.1) (reverse (drop (suc n) (reverse l))))

  unfoldable pub to_no_price : W → W
  to_no_price yes_price = num 1 ⊖ yes_price

module _ {W D : Type 0} ⦃f : Float W⦄ ⦃d : SortedDict W D⦄ where
  -- `OrderBook()`
  abbrev pub empty_book : OrderBook W D
  empty_book = record {
    bids = d.empty;
    asks = d.empty;
    tick_size = dec 1 3;
    last_update_ts = num 0;
    local_ts = num 0;
    book_hash = none;
  }

  -- `SortedDict({p: s for p, s in levels if s > 0})`, from the entries so far
  abbrev pub load_levels : D → List (W × W) → D
  load_levels b [] = b
  load_levels b ((p, s) ∷ l) = load_levels (if num 0 <? s then d.put p s b else b) l

  -- `now` is the local clock's time at the call.
  unfoldable pub apply_snapshot :
      W → List (W × W) → List (W × W) → W → Option String → OrderBook W D → OrderBook W D
  apply_snapshot now bids asks ts book_hash b = record b {
    bids = load_levels d.empty bids;
    asks = load_levels d.empty asks;
    last_update_ts = ts;
    local_ts = now;
    book_hash = book_hash;
  }

  -- One level set or, at a size of zero or less, dropped.
  abbrev pub set_level : W → W → D → D
  set_level price size b = if size ≤? num 0 then d.pop price b else d.put price size b

  unfoldable pub apply_delta : W → Side → W → W → W → OrderBook W D → OrderBook W D
  apply_delta now buy price size ts b = record b {
    bids = set_level price size b.bids;
    last_update_ts = ts;
    local_ts = now;
  }
  apply_delta now sell price size ts b = record b {
    asks = set_level price size b.asks;
    last_update_ts = ts;
    local_ts = now;
  }

  abbrev pub set_tick_size : W → OrderBook W D → OrderBook W D
  set_tick_size t b = record b { tick_size = t }

  -- From the touch: bids from the highest, asks from the lowest.
  abbrev pub bids_down : OrderBook W D → List (W × W)
  bids_down b = reverse (d.items b.bids)

  abbrev pub asks_up : OrderBook W D → List (W × W)
  asks_up b = d.items b.asks

  -- The property `is_empty`
  abbrev pub book_is_empty : OrderBook W D → Bool
  book_is_empty b = is_empty (d.items b.bids) || is_empty (d.items b.asks)

  unfoldable pub best_bid : OrderBook W D → Option (BookLevel W)
  best_bid b = first_level (bids_down b)

  unfoldable pub best_ask : OrderBook W D → Option (BookLevel W)
  best_ask b = first_level (asks_up b)

  unfoldable pub microprice : OrderBook W D → ℤ → Option W
  unfolding best_bid best_ask
  microprice b levels = elim (best_bid b) [
    | none ↦ none
    | some bb ↦ elim (best_ask b) [
      | none ↦ none
      | some ba ↦
          let bid_sz = sum_first levels (bids_down b) in
          let ask_sz = sum_first levels (asks_up b) in
          let total = bid_sz ⊕ ask_sz in
          some (
            if total ≤? num 0
            then (bb.price ⊕ ba.price) ⊘ num 2
            else (ba.price ⊗ bid_sz ⊕ bb.price ⊗ ask_sz) ⊘ total)
    ]
  ]

  unfoldable pub best_with_min_size : OrderBook W D → Side → W → Option W × W × Option W
  best_with_min_size b buy min_size = from_touch min_size (bids_down b)
  best_with_min_size b sell min_size = from_touch min_size (asks_up b)

  unfoldable pub depth_within : OrderBook W D → Side → W → W → W
  depth_within b buy lo hi = fsum (num 0) (sizes_within lo hi (d.items b.bids))
  depth_within b sell lo hi = fsum (num 0) (sizes_within lo hi (d.items b.asks))

  -- The bid and ask depth of `view`, from its best levels.
  unfoldable pub view_depths :
      OrderBook W D → W → Option (BookLevel W) → Option (BookLevel W) → W × W
  view_depths b band_frac (some bb) (some ba) =
      let m = (bb.price ⊕ ba.price) ⊘ num 2 in
      (
        depth_within b buy bb.price (m ⊗ (num 1 ⊕ band_frac)),
        depth_within b sell (m ⊗ (num 1 ⊖ band_frac)) ba.price,
      )
  view_depths b band_frac _ _ = (num 0, num 0)

  unfoldable pub view : OrderBook W D → W → W → BookView W
  unfolding view_depths
  view b band_frac min_size =
      let bb = nth_level 0 min_size (bids_down b) in
      let ba = nth_level 0 min_size (asks_up b) in
      let depths = view_depths b band_frac bb ba in
      record {
        best_bid = price_of bb;
        best_bid_size = size_of bb;
        best_ask = price_of ba;
        best_ask_size = size_of ba;
        second_bid = price_of (nth_level 1 min_size (bids_down b));
        second_ask = price_of (nth_level 1 min_size (asks_up b));
        bid_depth = depths.0;
        ask_depth = depths.1;
      }

  -- `book.view()`
  abbrev pub view_default : OrderBook W D → BookView W
  view_default b = view b (dec 5 2) (num 0)
