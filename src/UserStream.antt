-- ===== src/UserStream.antt =====
-- userstream/parse.py: a `trade` message of the user stream as fills of our maker orders. A field is
-- what the parser reads it as, with its default: `none` is a number that does not parse. Case is that of ASCII, which
-- addresses, sides and statuses are written in; `show` is the decimal text of a number.
pub mod Trades
pub mod Client
use Prim.Native.Char.{code}
use Prim.Native.String.{String, ◌++◌ as text_append}
use poly_maker.Prelude.{
  ℕ, ◌+◌, ◌-◌, Bool, true, false, not, ◌&&◌, ◌||◌, Option, none, some, List, [], ◌∷◌, if◌then◌else◌,
  leb, ltb, length, map, ◌>>=◌,
}
use poly_maker.Prelude.Eq.{◌==◌, string_eq, nat_eq}
use poly_maker.Float.{Float, num, ◌≤?◌}
use poly_maker.Text.{same_text}
use poly_maker.Domain.{
  Side, buy, sell, opposite, TradeState, matched, mined, confirmed, retrying, failed,
}
use poly_maker.State.Tracker.{TradeEvent}

pub record MakerOrder (W : Type 0) : Type 0 where
  pub maker_address : String
  pub matched_amount : Option W
  pub price : Option W
  pub outcome : Option String

pub record TradeMessage (W : Type 0) : Type 0 where
  pub status : String
  pub asset_id : String
  pub side : String
  pub outcome : Option String
  pub ts : W
  pub trade_id : String
  pub maker_orders : List (MakerOrder W)

-- `_STATUS.get`
abbrev pub status_of : String → Option TradeState
status_of s =
    if same_text s "MATCHED"
    then some matched
    else if same_text s "MINED"
    then some mined
    else if same_text s "CONFIRMED"
    then some confirmed
    else if same_text s "RETRYING"
    then some retrying
    else if same_text s "FAILED"
    then some failed
    else none

-- `_side`
abbrev pub side_of : String → Side
side_of s = if same_text s "SELL" then sell else buy

abbrev pub same_outcome : Option String → Option String → Bool
same_outcome none none = true
same_outcome (some a) (some b) = a == b
same_outcome _ _ = false

-- `other_token(taker_asset) or taker_asset`
abbrev pub other_or : Option String → String → String
other_or none t = t
other_or (some u) t = if u == "" then t else u

module _ {W : Type 0} ⦃f : Float W⦄ where
  -- The size and price of a maker order of ours, if they parse and the size is positive
  unfoldable pub our_match : String → MakerOrder W → Option (W × W)
  our_match address mo = do
    size ← mo.matched_amount
    price ← mo.price
    if not (same_text mo.maker_address address) || (size ≤? num 0) then none else some (size, price)

  module _ (show : ℕ → String) (other_token : String → Option String) (msg : TradeMessage W) where
    -- The token and side of a maker order: the taker's asset sold to the taker, or, across outcomes,
    -- the other token bought as the taker buys his
    abbrev pub token_and_side : MakerOrder W → String × Side
    token_and_side mo =
        if same_outcome mo.outcome msg.outcome
        then (msg.asset_id, opposite (side_of msg.side))
        else (other_or (other_token msg.asset_id) msg.asset_id, side_of msg.side)

    abbrev pub event_id : ℕ → String
    event_id i =
        if ltb 1 (length msg.maker_orders)
        then text_append msg.trade_id (text_append ":" (show i))
        else msg.trade_id

    abbrev pub event_of : TradeState → ℕ → MakerOrder W → W × W → TradeEvent W
    event_of status i mo (size, price) = record {
      token_id = (token_and_side mo).0;
      our_side = (token_and_side mo).1;
      price = price;
      size = size;
      trade_id = event_id i;
      status = status;
      ts = msg.ts;
    }

    -- The loop over the maker orders, from number `i`
    unfoldable pub maker_events :
        String → TradeState → ℕ → List (MakerOrder W) → List (TradeEvent W)
    unfolding our_match
    maker_events address status i [] = []
    maker_events address status i (mo ∷ mos) =
        let rest = maker_events address status (i + 1) mos in
        elim (our_match address mo) [ none ↦ rest | some m ↦ event_of status i mo m ∷ rest ]

    unfoldable pub normalize_trade : String → List (TradeEvent W)
    unfolding maker_events
    normalize_trade address = elim (status_of msg.status) [
      | none ↦ []
      | some status ↦ maker_events address status 0 msg.maker_orders
    ]
