-- ===== src/Engine.antt =====
-- engine.py: the state of the engine, the callbacks of its feeds, and the sums over its markets.
-- The dictionaries by condition id that `_resolve_markets` fills together are one, of records.
pub mod Quoter
pub mod Upkeep
pub mod Refresh
pub mod Requests
pub mod Merges
pub mod Startup
pub mod Metadata
pub mod Tasks
pub mod Resolve
pub mod Run
use poly_maker.Prelude.{
  Bool, true, false, not, ◌&&◌, ◌||◌, Option, none, some, List, [], ◌∷◌, String, if◌then◌else◌,
  get_or, is_some, ◌>>=◌,
}
use poly_maker.Prelude.Int.{ℤ, leb_ℤ}
use poly_maker.Prelude.Eq.{Eq, ◌==◌, string_eq}
use poly_maker.Float.{Float, num, dec, ◌⊕◌, ◌⊖◌, ◌⊗◌, ◌⊘◌, ◌≤?◌, ◌<?◌, fmin, fmax}
use poly_maker.Dict.{Dict, lookup, contains, insert, keys}
use poly_maker.Domain.{Side, buy, sell, is_buy, MarketMeta, Fill, yes_token, no_token}
use poly_maker.Config.{EngineConfig, RiskConfig, StrategyProfile}
use poly_maker.SortedDict.{SortedDict}
use poly_maker.Book.{OrderBook, BookLevel, best_bid, best_ask, depth_within}
use poly_maker.Strategy.Estimators.{MarketEstimators, update_flow, record_fill}
use poly_maker.Strategy.Regime.{RegimeMachine, cooloff_remaining}
use poly_maker.State.Store.{StateStore, position}
use poly_maker.Risk.{RiskManager, note_fill}

-- The entries of the engine's dictionaries and sets for one market
pub record Market (W : Type 0) : Type 0 where
  pub meta : MarketMeta W
  pub profile : StrategyProfile W
  pub est : MarketEstimators W
  pub regime_m : RegimeMachine W
  pub dirty : Bool
  pub sweep : Bool
  pub merging : Bool
  pub halted : Bool
  pub last_quote_fv : Option W

-- `books` are those of the market data service, by token.
pub record Engine (W D : Type 0) : Type 0 where
  pub state : StateStore W
  pub risk : RiskManager W
  pub books : Dict String (OrderBook W D)
  pub markets : Dict String (Market W)
  pub token_cid : Dict String String
  pub reconcile_now : Bool
  pub hb_was_down : Bool
  pub user_started : Bool

pub record Settings (W : Type 0) : Type 0 where
  pub engine : EngineConfig W
  pub risk : RiskConfig W
  pub paper : Bool

-- What the feeds and the gateway report: whether a feed is connected, and since when it is not
pub record Links (W : Type 0) : Type 0 where
  pub md_connected : Bool
  pub md_disconnected_since : W
  pub user : Option (Bool × W)
  pub heartbeat_failures : ℤ
  pub order_pressure : W

module _ {W : Type 0} where
  -- A change of one market, if the engine has it
  abbrev change : String → (Market W → Market W) → Dict String (Market W) → Dict String (Market W)
  change cid g [] = []
  change cid g ((c, m) ∷ d) = if c == cid then (c, g m) ∷ d else (c, m) ∷ change cid g d

  abbrev pub wake_each : Dict String (Market W) → Dict String (Market W)
  wake_each [] = []
  wake_each ((c, m) ∷ d) = (c, record m { dirty = true }) ∷ wake_each d

module _ {W D : Type 0} where
  abbrev pub on_market : String → (Market W → Market W) → Engine W D → Engine W D
  on_market cid g e = record e { markets = change cid g e.markets }

  -- `_wake_cid`, and `_on_dirty`
  abbrev pub wake_cid : String → Engine W D → Engine W D
  wake_cid cid = on_market cid (λ m. record m { dirty = true })

  abbrev pub wake_all : Engine W D → Engine W D
  wake_all e = record e { markets = wake_each e.markets }

  abbrev pub on_user_reconnect : Engine W D → Engine W D
  on_user_reconnect e = record e { reconcile_now = true }

  -- `_only_traded`
  abbrev pub only_traded : Engine W D → Dict String (W × W) → Dict String (W × W)
  only_traded e [] = []
  only_traded e ((t, v) ∷ d) =
      let rest = only_traded e d in if contains t e.token_cid then (t, v) ∷ rest else rest

module _ {W : Type 0} ⦃f : Float W⦄ where
  -- `not meta.event_id`
  abbrev pub has_event : MarketMeta W → Bool
  has_event m = elim m.event_id [ none ↦ false | some i ↦ not (i == "") ]

  abbrev pub same_event : MarketMeta W → MarketMeta W → Bool
  same_event m n = elim m.event_id [
    | none ↦ false
    | some i ↦ elim n.event_id [ none ↦ false | some j ↦ i == j ]
  ]

  abbrev pub token_cost : StateStore W → String → W
  token_cost s t = (position t s).size ⊗ (position t s).avg_price

  -- The loop of `_event_group_cost` over the markets, from a running cost
  unfoldable pub group_cost : MarketMeta W → StateStore W → Dict String (Market W) → W → W
  group_cost meta s [] cost = cost
  group_cost meta s ((c, m) ∷ d) cost = group_cost meta s d (
      if same_event m.meta meta
      then cost ⊕ token_cost s (yes_token m.meta) ⊕ token_cost s (no_token m.meta)
      else cost)

module _ {W D : Type 0} ⦃f : Float W⦄ ⦃d : SortedDict W D⦄ where
  -- The resting depth that a trade consumed: three ticks from the touch it hit; `none` without a
  -- two-sided book
  unfoldable pub consumed_depth : Side → OrderBook W D → Option W
  consumed_depth aggressor book = do
    bb ← best_bid book
    ba ← best_ask book
    some (
        if is_buy aggressor
        then depth_within book sell ba.price (ba.price ⊕ num 3 ⊗ book.tick_size)
        else depth_within book buy (bb.price ⊖ num 3 ⊗ book.tick_size) bb.price)

  -- Whether a trade is a sweep: large against our own orders, and against the depth it consumed
  unfoldable pub is_sweep : StrategyProfile W → Side → W → W → Option (OrderBook W D) → Bool
  unfolding consumed_depth
  is_sweep p aggressor price size book =
      let base = p.base_size_usdc ⊘ fmax price (dec 1 2) in
      if size <? p.event_sweep_mult ⊗ base
      then false
      else elim (book >>= consumed_depth aggressor) [
        | none ↦ false
        | some consumed ↦ (num 0 <? consumed) && (p.event_sweep_frac ⊗ consumed ≤? size)
      ]

  -- `_on_trade`, of a trade's aggressor, token, price, size and time
  unfoldable pub on_trade : Side → String → W → W → W → Engine W D → Engine W D
  unfolding is_sweep
  on_trade aggressor asset price size ts e = elim (lookup asset e.token_cid) [
    | none ↦ e
    | some cid ↦
        on_market cid
          (λ m. record m {
            est = record m.est { flow = update_flow aggressor size ts m.est.flow };
            sweep =
                if is_sweep m.profile aggressor price size (lookup asset e.books)
                then true
                else m.sweep;
          })
          e
  ]

  -- `_on_fill`
  unfoldable pub on_fill : Fill W → Engine W D → Engine W D
  on_fill fill e =
      let noted : Engine W D = record e { risk = note_fill fill e.risk } in
      elim (lookup fill.token_id e.token_cid) [
        | none ↦ noted
        | some cid ↦
            on_market cid
              (λ m.
                let fv = get_or m.est.last_fv fill.price in
                let token_fv = if fill.token_id == yes_token m.meta then fv else num 1 ⊖ fv in
                record m {
                  est = record m.est {
                    markout = record_fill fill.side token_fv fill.ts m.est.markout;
                  };
                })
              noted
      ]

  -- `_next_wake_s`
  unfoldable pub next_wake_s : W → String → W → Engine W D → W
  next_wake_s now cid base_tick e = elim (lookup cid e.markets) [
    | none ↦ fmax (num 1) base_tick
    | some m ↦
        let cd = cooloff_remaining m.regime_m now in
        let wake = if num 0 <? cd then fmin base_tick (cd ⊕ dec 5 1) else base_tick in
        let held =
          (position (yes_token m.meta) e.state).size ⊕ (position (no_token m.meta) e.state).size in
        fmax (num 1) (if m.meta.min_order_size ≤? held then fmin wake (num 10) else wake)
  ]

  unfoldable pub event_group_cost : MarketMeta W → Engine W D → W
  unfolding group_cost
  event_group_cost meta e =
      if has_event meta then group_cost meta e.state e.markets (num 0) else num 0
