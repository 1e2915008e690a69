-- ===== src/UserStream/Client.antt =====
-- userstream/client.py, with the reading of messages of userstream/parse.py: from what `json.loads`
-- gives to the store. An outcome that is not a text is read as none.
pub mod Once
use poly_maker.Prelude.{
  ℕ, Bool, true, false, ◌||◌, Option, none, some, List, [], ◌∷◌, ◌++◌, String, if◌then◌else◌, ◌>>=◌,
}
use poly_maker.Float.{Float, num, ◌⊖◌, ◌⊗◌, fmin}
use poly_maker.Text.{same_text}
use poly_maker.Json.{
  Json, null, number, text, array, object, Fields, Wire, get, get_else, is_text, elements, float_of,
  str_of, each_of, timestamp_of,
}
use poly_maker.State.Tracker.{TradeEvent, OrderEvent, Effect, Tracker, on_trade, on_order}
use poly_maker.UserStream.{MakerOrder, TradeMessage, status_of, side_of, other_or, normalize_trade}

module _ {W : Type 0} ⦃f : Float W⦄ ⦃w : Wire W⦄ where
  abbrev pub outcome_of : Option (Json W) → Option String
  outcome_of (some (text s)) = some s
  outcome_of _ = none

  -- The fields of a maker order that the loop reads
  abbrev pub maker_order_of : Fields W → MakerOrder W
  maker_order_of mo = record {
    maker_address = str_of (get_else "maker_address" (text "") mo);
    matched_amount = float_of (get_else "matched_amount" (number (num 0)) mo);
    price = float_of (get_else "price" (number (num 0)) mo);
    outcome = outcome_of (get "outcome" mo);
  }

  -- `none` where an entry is no object: `mo.get` raises.
  abbrev pub maker_orders_of : List (Json W) → Option (List (MakerOrder W))
  maker_orders_of [] = some []
  maker_orders_of (object mo ∷ mos) = do rest ← maker_orders_of mos; some (maker_order_of mo ∷ rest)
  maker_orders_of (_ ∷ mos) = none

  abbrev pub trade_message_of : Fields W → List (MakerOrder W) → TradeMessage W
  trade_message_of msg mos = record {
    status = str_of (get_else "status" (text "") msg);
    asset_id = str_of (get_else "asset_id" (text "") msg);
    side = str_of (get_else "side" null msg);
    outcome = outcome_of (get "outcome" msg);
    ts = timestamp_of msg;
    trade_id = str_of (get_else "id" (text "") msg);
    maker_orders = mos;
  }

  -- `normalize_order`
  unfoldable pub normalize_order : Fields W → Option (OrderEvent W)
  normalize_order msg = do
    asset ← get "asset_id" msg
    original ← float_of (get_else "original_size" (get_else "size" (number (num 0)) msg) msg)
    matched ← float_of (get_else "size_matched" (number (num 0)) msg)
    price ← float_of (get_else "price" (number (num 0)) msg)
    let status = str_of (get_else "status" (text "") msg)
    some (record {
      order_id = str_of (get_else "id" (text "") msg);
      token_id = str_of asset;
      side = side_of (str_of (get_else "side" null msg));
      price = price;
      remaining_size = original ⊖ matched;
      is_cancel =
          same_text status "CANCELED"
          || (same_text status "CANCELLED" || is_text "CANCELLATION" (get "type" msg));
    })

  -- The wait before the next attempt to connect
  abbrev pub next_backoff : W → W
  next_backoff backoff = fmin (backoff ⊗ num 2) (num 30)

  -- What the client calls: `str` of a number, `other_token`, `condition_of_token`, and the address
  module _ (show : ℕ → String) (other_token cid_of_token : String → Option String)
      (address : String) where
    -- `normalize_trade`; `none` where it raises
    unfoldable pub read_trade : Fields W → Option (List (TradeEvent W))
    unfolding normalize_trade
    read_trade msg = elim (status_of (str_of (get_else "status" (text "") msg))) [
      | none ↦ some []
      | some status ↦ do
        values ← each_of (get "maker_orders" msg)
        mos ← maker_orders_of values
        some (normalize_trade show other_token (trade_message_of msg mos) address)
    ]

    -- The market of an event: that of its token, or the one that the message names
    abbrev pub market_of : Fields W → String → String
    market_of msg t = other_or (cid_of_token t) (str_of (get_else "market" (text "") msg))

    -- The loop of `_on_trade`
    unfoldable pub apply_trades :
        W → Fields W → List (TradeEvent W) → Tracker W → List (Effect W) × Tracker W
    apply_trades now msg [] t = ([], t)
    apply_trades now msg (ev ∷ evs) t =
        let (es, t') = on_trade now ev (market_of msg ev.token_id) t in
        let (rest, last) = apply_trades now msg evs t' in (es ++ rest, last)

    abbrev pub apply_order :
        W → Fields W → Option (OrderEvent W) → Tracker W → List (Effect W) × Tracker W
    apply_order now msg none t = ([], t)
    apply_order now msg (some ev) t = on_order now ev (market_of msg ev.token_id) t

    -- One step of the loop of `_handle`; `none` where it raises, before anything is changed.
    unfoldable pub on_message : W → Fields W → Tracker W → Option (List (Effect W) × Tracker W)
    unfolding read_trade apply_trades normalize_order
    on_message now msg t =
        let et = get "event_type" msg in
        let traded = read_trade msg >>= λ evs. some (apply_trades now msg evs t) in
        if is_text "trade" et
        then traded
        else if is_text "order" et
        then some (apply_order now msg (normalize_order msg) t)
        else some ([], t)

    -- The loop of `_handle`: an exception ends it.
    unfoldable pub on_messages : W → List (Json W) → Tracker W → List (Effect W) × Tracker W
    unfolding on_message
    on_messages now [] t = ([], t)
    on_messages now (object msg ∷ msgs) t = elim (on_message now msg t) [
      | none ↦ ([], t)
      | some (es, t') ↦ let (rest, last) = on_messages now msgs t' in (es ++ rest, last)
    ]
    on_messages now (_ ∷ msgs) t = on_messages now msgs t

    -- `_handle`, of what `json.loads` gives; `none` where the text is no JSON
    abbrev pub on_text : W → Option (Json W) → Tracker W → List (Effect W) × Tracker W
    on_text now none t = ([], t)
    on_text now (some (array xs)) t = on_messages now (elements xs) t
    on_text now (some v) t = on_messages now (v ∷ []) t
