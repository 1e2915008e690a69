-- ===== src/Catalog/Blob.antt =====
-- catalog/store.py: the blob of a market. It is kept as the value that `json.loads` gives back.
use poly_maker.Prelude.{Bool, Option, none, some, String, ◌>>=◌}
use poly_maker.Prelude.Int.{ℤ}
use poly_maker.Prelude.Eq.{string_eq}
use poly_maker.Float.{Float, num}
use poly_maker.Domain.{TokenMeta, MarketMeta}
use poly_maker.Json.{
  Json, null, truth, number, text, array, object, Fields, end, field, nil, cons, get,
}

module _ {W : Type 0} ⦃f : Float W⦄ where
  abbrev text_or_null : Option String → Json W
  text_or_null none = null
  text_or_null (some s) = text s

  abbrev dump_token : TokenMeta → Json W
  dump_token t = object (field "token_id" (text t.token_id) (field "outcome" (text t.outcome) end))

  abbrev flag : String → Bool → Fields W → Fields W
  flag k b d = field k (truth b) d

  abbrev int_field : String → ℤ → Fields W → Fields W
  int_field k z d = field k (number (f.of_int z)) d

  -- `_dump_meta`: `asdict`, in the order of the fields
  unfoldable pub dump_meta : MarketMeta W → Json W
  dump_meta m =
      let volumes = field "liquidity_num" (number m.liquidity_num) (
        field "volume_num" (number m.volume_num)
          (field "volume_24hr" (number m.volume_24hr) end)) in
      let optional = field "end_date_iso" (text_or_null m.end_date_iso) (
        field "event_id" (text_or_null m.event_id) (
          field "rebate_rate" (number m.rebate_rate) (
            field "best_bid" (number m.best_bid)
              (field "best_ask" (number m.best_ask) volumes)))) in
      let fees =
        int_field "maker_fee_bps" m.maker_fee_bps (
          int_field "taker_fee_bps" m.taker_fee_bps
            (flag "fees_enabled" m.fees_enabled optional)) in
      let sizes = field "min_order_size" (number m.min_order_size) (
        field "rewards_min_size" (number m.rewards_min_size) (
          field "rewards_max_spread" (number m.rewards_max_spread)
            (field "rewards_daily_rate" (number m.rewards_daily_rate) fees))) in
      let tokens = array (cons (dump_token m.tokens.0) (cons (dump_token m.tokens.1) nil)) in
      object (
        field "condition_id" (text m.condition_id) (
          field "question" (text m.question) (
            field "slug" (text m.slug) (
              field "tokens" tokens
                (field "tick_size" (number m.tick_size) (flag "neg_risk" m.neg_risk sizes))))))

  abbrev text_at : String → Fields W → Option String
  text_at k d = elim (get k d) as (λ _. Option String) [ some (text s) ↦ some s | _ ↦ none ]

  abbrev number_at : String → Fields W → Option W
  number_at k d = elim (get k d) as (λ _. Option W) [ some (number x) ↦ some x | _ ↦ none ]

  -- A field with a default
  abbrev number_else : String → Fields W → Option W
  number_else k d = elim (get k d) as (λ _. Option W) [
    | none ↦ some (num 0)
    | some (number x) ↦ some x
    | some _ ↦ none
  ]

  abbrev flag_at : String → Fields W → Option Bool
  flag_at k d = elim (get k d) as (λ _. Option Bool) [ some (truth b) ↦ some b | _ ↦ none ]

  abbrev optional_text_at : String → Fields W → Option (Option String)
  optional_text_at k d = elim (get k d) as (λ _. Option (Option String)) [
    | some null ↦ some none
    | some (text s) ↦ some (some s)
    | _ ↦ none
  ]

  abbrev load_token : Json W → Option TokenMeta
  load_token (object d) = do
    t ← text_at "token_id" d
    o ← text_at "outcome" d
    some (record { token_id = t; outcome = o })
  load_token _ = none

  abbrev tokens_at : String → Fields W → Option (TokenMeta × TokenMeta)
  tokens_at k d = elim (get k d) as (λ _. Option (TokenMeta × TokenMeta)) [
    | some (array (cons a (cons b nil))) ↦ do x ← load_token a; y ← load_token b; some (x, y)
    | _ ↦ none
  ]

  abbrev load_fields : Fields W → Option (MarketMeta W)
  load_fields d = do
    condition ← text_at "condition_id" d
    question ← text_at "question" d
    slug ← text_at "slug" d
    tokens ← tokens_at "tokens" d
    tick ← number_at "tick_size" d
    neg_risk ← flag_at "neg_risk" d
    min_size ← number_at "min_order_size" d
    rewards_min ← number_at "rewards_min_size" d
    rewards_spread ← number_at "rewards_max_spread" d
    rewards_rate ← number_at "rewards_daily_rate" d
    maker_fee ← number_at "maker_fee_bps" d
    taker_fee ← number_at "taker_fee_bps" d
    fees ← flag_at "fees_enabled" d
    end_date ← optional_text_at "end_date_iso" d
    event ← optional_text_at "event_id" d
    rebate ← number_else "rebate_rate" d
    bid ← number_else "best_bid" d
    ask ← number_else "best_ask" d
    liquidity ← number_else "liquidity_num" d
    volume ← number_else "volume_num" d
    day_volume ← number_else "volume_24hr" d
    some (record {
      condition_id = condition;
      question = question;
      slug = slug;
      tokens = tokens;
      tick_size = tick;
      neg_risk = neg_risk;
      min_order_size = min_size;
      rewards_min_size = rewards_min;
      rewards_max_spread = rewards_spread;
      rewards_daily_rate = rewards_rate;
      maker_fee_bps = f.floor maker_fee;
      taker_fee_bps = f.floor taker_fee;
      fees_enabled = fees;
      end_date_iso = end_date;
      event_id = event;
      rebate_rate = rebate;
      best_bid = bid;
      best_ask = ask;
      liquidity_num = liquidity;
      volume_num = volume;
      volume_24hr = day_volume;
    })

  -- `_load_meta`, of a blob with the fields of a market
  unfoldable pub load_meta : Json W → Option (MarketMeta W)
  load_meta (object d) = load_fields d
  load_meta _ = none
