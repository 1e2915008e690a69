-- ===== src/Config/Profile.antt =====
-- config.py: the trade list, and the profile of a market with its overrides. How pydantic takes a value
-- for a field of a type is a parameter; `none` is its error.
use poly_maker.Prelude.{
  Bool, not, ◌||◌, Option, none, some, List, [], ◌∷◌, String, if◌then◌else◌, get_or, keep_if, ◌>>=◌,
}
use poly_maker.Prelude.Int.{ℤ}
use poly_maker.Prelude.Eq.{string_eq}
use poly_maker.Dict.{Dict, lookup, member}
use poly_maker.Json.{Json}
use poly_maker.Config.{StrategyProfile, filled_in}

-- The extra keys of an entry are the overrides.
pub record MarketEntry (W : Type 0) : Type 0 where
  pub slug : Option String
  pub condition_id : Option String
  pub profile : String
  pub enabled : Bool
  pub extra : Dict String (Json W)

-- What pydantic makes of a value
pub record Coerce (W : Type 0) : Type 0 where
  pub as_float : Json W → Option W
  pub as_int : Json W → Option ℤ
  pub as_bool : Json W → Option Bool

abbrev reserved : List String
reserved = "slug" ∷ "condition_id" ∷ "profile" ∷ "enabled" ∷ []

module _ {W : Type 0} where
  -- `_need_identifier`
  abbrev pub has_identifier : MarketEntry W → Bool
  has_identifier m = filled_in m.slug || filled_in m.condition_id

  -- `overrides`
  unfoldable pub overrides : MarketEntry W → Dict String (Json W)
  overrides m = keep_if (λ (e : String × Json W). not (member e.0 reserved)) m.extra

  -- `ref`
  abbrev pub ref : MarketEntry W → String
  ref m =
      if filled_in m.slug
      then get_or m.slug ""
      else if filled_in m.condition_id
      then get_or m.condition_id ""
      else "?"

  abbrev pub enabled_markets : List (MarketEntry W) → List (MarketEntry W)
  enabled_markets = keep_if (λ (m : MarketEntry W). m.enabled)

module _ {W : Type 0} ⦃c : Coerce W⦄ where
  -- The fields of a profile, each with its assignment
  abbrev setters : Dict String (Json W → StrategyProfile W → Option (StrategyProfile W))
  setters =
      ("micro_levels", λ v p. do x ← c.as_int v; some (record p { micro_levels = x }))
      ∷ (
        "flow_ewma_halflife_s",
        λ v p. do x ← c.as_float v; some (record p { flow_ewma_halflife_s = x }),
      )
      ∷ ("gamma", λ v p. do x ← c.as_float v; some (record p { gamma = x }))
      ∷ ("delta_min_ticks", λ v p. do x ← c.as_int v; some (record p { delta_min_ticks = x }))
      ∷ ("c_vol", λ v p. do x ← c.as_float v; some (record p { c_vol = x }))
      ∷ ("c_tox", λ v p. do x ← c.as_float v; some (record p { c_tox = x }))
      ∷ (
        "vol_short_halflife_s",
        λ v p. do x ← c.as_float v; some (record p { vol_short_halflife_s = x }),
      )
      ∷ (
        "vol_long_halflife_s",
        λ v p. do x ← c.as_float v; some (record p { vol_long_halflife_s = x }),
      )
      ∷ ("base_size_usdc", λ v p. do x ← c.as_float v; some (record p { base_size_usdc = x }))
      ∷ ("q_max_usdc", λ v p. do x ← c.as_float v; some (record p { q_max_usdc = x }))
      ∷ ("q_soft_frac", λ v p. do x ← c.as_float v; some (record p { q_soft_frac = x }))
      ∷ ("layers", λ v p. do x ← c.as_int v; some (record p { layers = x }))
      ∷ ("layer_step_ticks", λ v p. do x ← c.as_int v; some (record p { layer_step_ticks = x }))
      ∷ ("reward_size_mult", λ v p. do x ← c.as_float v; some (record p { reward_size_mult = x }))
      ∷ ("reprice_ticks", λ v p. do x ← c.as_int v; some (record p { reprice_ticks = x }))
      ∷ ("resize_frac", λ v p. do x ← c.as_float v; some (record p { resize_frac = x }))
      ∷ ("min_edge_ticks", λ v p. do x ← c.as_int v; some (record p { min_edge_ticks = x }))
      ∷ ("join_touch_ticks", λ v p. do x ← c.as_int v; some (record p { join_touch_ticks = x }))
      ∷ (
        "equal_share_entries",
        λ v p. do x ← c.as_bool v; some (record p { equal_share_entries = x }),
      )
      ∷ ("event_cooloff_s", λ v p. do x ← c.as_float v; some (record p { event_cooloff_s = x }))
      ∷ ("event_jump_ticks", λ v p. do x ← c.as_int v; some (record p { event_jump_ticks = x }))
      ∷ ("event_sweep_levels", λ v p. do x ← c.as_int v; some (record p { event_sweep_levels = x }))
      ∷ ("event_sweep_mult", λ v p. do x ← c.as_float v; some (record p { event_sweep_mult = x }))
      ∷ ("event_sweep_frac", λ v p. do x ← c.as_float v; some (record p { event_sweep_frac = x }))
      ∷ ("trend_flow_z", λ v p. do x ← c.as_float v; some (record p { trend_flow_z = x }))
      ∷ ("trend_vol_ratio", λ v p. do x ← c.as_float v; some (record p { trend_vol_ratio = x }))
      ∷ (
        "end_date_taper_days",
        λ v p. do x ← c.as_float v; some (record p { end_date_taper_days = x }),
      )
      ∷ ("reduce_only_hours", λ v p. do x ← c.as_float v; some (record p { reduce_only_hours = x }))
      ∷ ("halt_before_hours", λ v p. do x ← c.as_float v; some (record p { halt_before_hours = x }))
      ∷ ("exit_urgency_s", λ v p. do x ← c.as_float v; some (record p { exit_urgency_s = x }))
      ∷ ("merge_min_size", λ v p. do x ← c.as_float v; some (record p { merge_min_size = x }))
      ∷ []

  -- `if k in data: data[k] = v`, with the validation of the value
  abbrev pub set_field : String → Json W → StrategyProfile W → Option (StrategyProfile W)
  set_field k v p = elim (lookup k setters) as (λ _. Option (StrategyProfile W)) [
    | none ↦ some p
    | some set ↦ set v p
  ]

  -- `with_overrides`
  unfoldable pub with_overrides :
      Dict String (Json W) → StrategyProfile W → Option (StrategyProfile W)
  with_overrides [] p = some p
  with_overrides ((k, v) ∷ d) p = set_field k v p >>= with_overrides d

  -- `profile_for`; `none` where the profile is unknown, or an override is refused.
  unfoldable pub profile_for :
      Dict String (StrategyProfile W) → MarketEntry W → Option (StrategyProfile W)
  unfolding overrides with_overrides
  profile_for profiles entry = do
    base ← lookup entry.profile profiles
    with_overrides (overrides entry) base
