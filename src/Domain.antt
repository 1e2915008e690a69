-- ===== src/Domain.antt =====
-- domain.py: the types that the strategy, execution and state layers share.
use poly_maker.Prelude.{
  ℕ, Bool, true, false, Option, none, some, List, [], ◌∷◌, String, if◌then◌else◌, length, is_empty,
}
use poly_maker.Prelude.Int.{ℤ}
use poly_maker.Prelude.Eq.{◌==◌, nat_eq, string_eq}
use poly_maker.Float.{Float, num, ◌⊗◌, ◌≤?◌}

pub data Side : Type 0 where
  buy sell : Side

abbrev pub opposite : Side → Side
opposite buy = sell
opposite sell = buy

abbrev pub is_buy : Side → Bool
is_buy buy = true
is_buy sell = false

abbrev pub side_beq : Side → Side → Bool
side_beq buy buy = true
side_beq sell sell = true
side_beq _ _ = false

pub data Regime : Type 0 where
  quiet trending event reduce_only halted : Regime

pub data OrderState : Type 0 where
  draft posted live partially_filled canceled rejected done : OrderState

pub data TradeState : Type 0 where
  matched mined confirmed retrying failed : TradeState

pub record TokenMeta : Type 0 where
  pub token_id : String
  pub outcome : String

pub record MarketMeta (W : Type 0) : Type 0 where
  pub condition_id : String
  pub question : String
  pub slug : String
  pub tokens : TokenMeta × TokenMeta
  pub tick_size : W
  pub neg_risk : Bool
  pub min_order_size : W
  pub rewards_min_size : W
  pub rewards_max_spread : W
  pub rewards_daily_rate : W
  pub maker_fee_bps : ℤ
  pub taker_fee_bps : ℤ
  pub fees_enabled : Bool
  pub end_date_iso : Option String
  pub event_id : Option String
  pub rebate_rate : W
  pub best_bid : W
  pub best_ask : W
  pub liquidity_num : W
  pub volume_num : W
  pub volume_24hr : W

pub record Position (W : Type 0) : Type 0 where
  pub token_id : String
  pub size : W
  pub avg_price : W

-- `size` is what remains of the order.
pub record OpenOrder (W : Type 0) : Type 0 where
  pub order_id : String
  pub token_id : String
  pub side : Side
  pub price : W
  pub size : W
  pub state : OrderState
  pub created_ts : W

pub record Fill (W : Type 0) : Type 0 where
  pub token_id : String
  pub side : Side
  pub price : W
  pub size : W
  pub trade_id : String
  pub ts : W
  pub is_maker : Bool

pub record Quote (W : Type 0) : Type 0 where
  pub token_id : String
  pub side : Side
  pub price : W
  pub size : W

pub record TargetQuotes (W : Type 0) : Type 0 where
  pub condition_id : String
  pub regime : Regime
  pub quotes : List (Quote W)

module _ {W : Type 0} where
  abbrev pub yes_token : MarketMeta W → String
  yes_token m = m.tokens.0.token_id

  abbrev pub no_token : MarketMeta W → String
  no_token m = m.tokens.1.token_id

  -- `MarketMeta.other_token`
  unfoldable pub other_token : MarketMeta W → String → String
  other_token m t = if t == yes_token m then no_token m else yes_token m

  abbrev pub no_quotes : TargetQuotes W → Bool
  no_quotes t = is_empty t.quotes

-- `s.rstrip("0")`: the zeros at the end are dropped.
pub rstrip_zeros : List ℕ → List ℕ
rstrip_zeros [] = []
rstrip_zeros (c ∷ s) =
    let rest = rstrip_zeros s in
    if c == b'0' then (if is_empty rest then [] else c ∷ rest) else c ∷ rest

-- What stands behind the first point, if there is one.
pub after_point : List ℕ → Option (List ℕ)
after_point [] = none
after_point (c ∷ s) = if c == b'.' then some s else after_point s

module _ {W : Type 0} ⦃f : Float W⦄ where
  abbrev pub flat : String → Position W
  flat t = record { token_id = t; size = num 0; avg_price = num 0 }

  abbrev pub is_flat : Position W → Bool
  is_flat p = p.size ≤? num 0

  abbrev pub notional : OpenOrder W → W
  notional o = o.price ⊗ o.size

  -- `MarketMeta.price_decimals`
  unfoldable pub price_decimals : MarketMeta W → ℕ
  unfolding rstrip_zeros after_point
  price_decimals m = elim (after_point (rstrip_zeros (f.format_f m.tick_size))) [
    | none ↦ 0
    | some s ↦ length s
  ]
