-- ===== src/State/Tracker.antt =====
-- state/tracker.py: normalized user events applied to the store.
pub mod Once
use poly_maker.Prelude.{
  Bool, true, false, ◌||◌, Option, none, some, List, [], ◌∷◌, ◌++◌, String, if◌then◌else◌,
}
use Prim.Native.String.{◌++◌ as text_append}
use poly_maker.Prelude.Eq.{string_eq}
use poly_maker.Float.{Float, num, ◌≤?◌}
use poly_maker.Dict.{Dict, lookup, contains, insert, remove}
use poly_maker.Domain.{
  Side, opposite, Fill, OpenOrder, TradeState, matched, mined, confirmed, retrying, failed, live,
}
use poly_maker.State.Store.{
  StateStore, apply_fill, mark_inflight, clear_inflight, remove_order, upsert_order,
}

pub record TradeEvent (W : Type 0) : Type 0 where
  pub token_id : String
  pub our_side : Side
  pub price : W
  pub size : W
  pub trade_id : String
  pub status : TradeState
  pub ts : W

pub record OrderEvent (W : Type 0) : Type 0 where
  pub order_id : String
  pub token_id : String
  pub side : Side
  pub price : W
  pub remaining_size : W
  pub is_cancel : Bool

-- The calls of `on_fill` and `on_change`
pub data Effect (W : Type 0) : Type 0 where
  filled : Fill W → Effect W
  changed : String → Effect W

-- The processor's `_applied`, with the store that it works on
pub record Tracker (W : Type 0) : Type 0 where
  pub store : StateStore W
  pub applied : Dict String (Fill W)

module _ {W : Type 0} ⦃f : Float W⦄ where
  abbrev pub fill_of : TradeEvent W → Fill W
  fill_of ev = record {
    token_id = ev.token_id;
    side = ev.our_side;
    price = ev.price;
    size = ev.size;
    trade_id = ev.trade_id;
    ts = ev.ts;
    is_maker = true;
  }

  abbrev pub reverse_of : Fill W → Fill W
  reverse_of prior = record prior {
    side = opposite prior.side;
    trade_id = text_append prior.trade_id ":reverse";
    is_maker = true;
  }

  -- `now` is the clock's reading in `mark_inflight`.
  unfoldable pub on_matched : W → TradeEvent W → String → Tracker W → List (Effect W) × Tracker W
  on_matched now ev cid t =
      let fill = fill_of ev in
      if contains ev.trade_id t.applied
      then ([], t)
      else let (fresh, s) = apply_fill fill t.store in
        if fresh
        then (
          filled fill ∷ changed cid ∷ [],
          record {
            store = mark_inflight now ev.token_id s;
            applied = insert ev.trade_id fill t.applied;
          },
        )
        else ([], record t { store = s })

  unfoldable pub on_confirmed : TradeEvent W → String → Tracker W → List (Effect W) × Tracker W
  on_confirmed ev cid t =
      if contains ev.trade_id t.applied
      then (
        changed cid ∷ [],
        record {
          store = clear_inflight ev.token_id t.store;
          applied = remove ev.trade_id t.applied;
        },
      )
      else ([], t)

  unfoldable pub on_failed : TradeEvent W → String → Tracker W → List (Effect W) × Tracker W
  on_failed ev cid t = elim (lookup ev.trade_id t.applied) [
    | none ↦ ([], t)
    | some prior ↦ (
      changed cid ∷ [],
      record {
        store = clear_inflight ev.token_id (apply_fill (reverse_of prior) t.store).1;
        applied = remove ev.trade_id t.applied;
      },
    )
  ]

  dispatch_trade : TradeState → W → TradeEvent W → String → Tracker W → List (Effect W) × Tracker W
  dispatch_trade matched now ev cid t = on_matched now ev cid t
  dispatch_trade mined now ev cid t = ([], t)
  dispatch_trade confirmed now ev cid t = on_confirmed ev cid t
  dispatch_trade retrying now ev cid t = ([], t)
  dispatch_trade failed now ev cid t = on_failed ev cid t

  unfoldable pub on_trade : W → TradeEvent W → String → Tracker W → List (Effect W) × Tracker W
  unfolding dispatch_trade
  on_trade now ev cid t = dispatch_trade ev.status now ev cid t

  unfoldable pub on_order : W → OrderEvent W → String → Tracker W → List (Effect W) × Tracker W
  on_order now ev cid t =
      let s =
        if ev.is_cancel || (ev.remaining_size ≤? num 0)
        then remove_order ev.order_id t.store
        else upsert_order
            (record {
              order_id = ev.order_id;
              token_id = ev.token_id;
              side = ev.side;
              price = ev.price;
              size = ev.remaining_size;
              state = live;
              created_ts = now;
            })
            t.store in
      (changed cid ∷ [], record t { store = s })
