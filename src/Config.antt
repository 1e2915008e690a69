-- ===== src/Config.antt =====
-- config.py: the settings that the modelled code reads. An `int` of the source is a ℤ.
pub mod Profile
use poly_maker.Prelude.{Bool, false, not, ◌&&◌, Option, none, some, String}
use poly_maker.Prelude.Eq.{◌==◌, string_eq}
use poly_maker.Prelude.Int.{ℤ}

pub record EngineConfig (W : Type 0) : Type 0 where
  pub debounce_ms : ℤ
  pub quoter_tick_s : W
  pub reconcile_interval_s : W
  pub catalog_refresh_s : W
  pub heartbeat : Bool
  pub heartbeat_interval_s : W
  pub journal : Bool
  pub loop : String

pub record RiskConfig (W : Type 0) : Type 0 where
  pub max_total_exposure_usdc : W
  pub max_event_group_loss_usdc : W
  pub max_market_notional_usdc : W
  pub daily_loss_kill_usdc : W
  pub ws_stale_halt_s : W
  pub user_ws_blind_halt_s : W
  pub heartbeat_halt_failures : ℤ
  pub max_order_error_rate : W

pub record ExecutionConfig (W : Type 0) : Type 0 where
  pub rate_budget_fraction : W
  pub post_only : Bool
  pub max_orders_per_batch : ℤ

pub record StrategyProfile (W : Type 0) : Type 0 where
  pub micro_levels : ℤ
  pub flow_ewma_halflife_s : W
  pub gamma : W
  pub delta_min_ticks : ℤ
  pub c_vol : W
  pub c_tox : W
  pub vol_short_halflife_s : W
  pub vol_long_halflife_s : W
  pub base_size_usdc : W
  pub q_max_usdc : W
  pub q_soft_frac : W
  pub layers : ℤ
  pub layer_step_ticks : ℤ
  pub reward_size_mult : W
  pub reprice_ticks : ℤ
  pub resize_frac : W
  pub min_edge_ticks : ℤ
  pub join_touch_ticks : ℤ
  pub equal_share_entries : Bool
  pub event_cooloff_s : W
  pub event_jump_ticks : ℤ
  pub event_sweep_levels : ℤ
  pub event_sweep_mult : W
  pub event_sweep_frac : W
  pub trend_flow_z : W
  pub trend_vol_ratio : W
  pub end_date_taper_days : W
  pub reduce_only_hours : W
  pub halt_before_hours : W
  pub exit_urgency_s : W
  pub merge_min_size : W

pub record WalletConfig : Type 0 where
  pub chain_id : ℤ
  pub signature_type : ℤ
  pub clob_host : String
  pub gamma_host : String
  pub data_api_host : String
  pub polygon_rpc : String

pub record Secrets : Type 0 where
  pub pk : String
  pub browser_address : String
  pub polygon_rpc : Option String
  pub alert_webhook_url : Option String
  pub builder_key : Option String
  pub builder_secret : Option String
  pub builder_passphrase : Option String
  pub relayer_url : String

-- `bool(s)` of a text that may be missing
abbrev pub filled_in : Option String → Bool
filled_in none = false
filled_in (some s) = not (s == "")

abbrev pub has_wallet : Secrets → Bool
has_wallet s = not (s.pk == "") && not (s.browser_address == "")

abbrev pub has_builder_creds : Secrets → Bool
has_builder_creds s =
    filled_in s.builder_key && (filled_in s.builder_secret && filled_in s.builder_passphrase)
