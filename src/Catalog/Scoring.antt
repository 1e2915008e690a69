-- ===== src/Catalog/Scoring.antt =====
-- catalog/scoring.py: how attractive a market is.
use poly_maker.Prelude.{not, ◌&&◌, ◌||◌, String, if◌then◌else◌}
use poly_maker.Prelude.Int.{pos, leb_ℤ}
use poly_maker.Float.{Float, num, dec, ◌⊕◌, ◌⊖◌, ◌⊗◌, ◌⊘◌, ◌≤?◌, ◌<?◌, ◌=?◌, fmin, fmax, fabs}
use poly_maker.Domain.{MarketMeta}

pub record MarketScore (W : Type 0) : Type 0 where
  pub condition_id : String
  pub reward_density : W
  pub rebate_potential : W
  pub spread : W
  pub extremity : W
  pub score : W

module _ {W : Type 0} ⦃f : Float W⦄ where
  -- `_mid`
  abbrev pub mid_of : MarketMeta W → W
  mid_of m =
      if (num 0 <? m.best_bid) && (num 0 <? m.best_ask)
      then (m.best_bid ⊕ m.best_ask) ⊘ num 2
      else dec 5 1

  unfoldable pub reward_density : W → MarketMeta W → W
  reward_density quote_size m =
      if (m.rewards_daily_rate ≤? num 0) || (m.rewards_max_spread ≤? num 0)
      then num 0
      else m.rewards_daily_rate ⊗ fmin (num 1) (quote_size ⊘ fmax m.liquidity_num quote_size)

  unfoldable pub rebate_potential : MarketMeta W → W
  rebate_potential m =
      let fee_rate = f.of_int m.taker_fee_bps ⊘ num 10000 in
      let daily_fees = m.volume_24hr ⊗ fee_rate ⊗ (num 1 ⊖ mid_of m) in
      if not m.fees_enabled || ((m.rebate_rate ≤? num 0) || leb_ℤ m.taker_fee_bps (pos 0))
      then num 0
      else if m.volume_24hr ≤? num 0
      then num 0
      else f.round (daily_fees ⊗ m.rebate_rate) 2

  unfoldable pub extremity : MarketMeta W → W
  extremity m = fmin (num 1) (fabs (mid_of m ⊖ dec 5 1) ⊘ dec 5 1)

  unfoldable pub score_market : MarketMeta W → MarketScore W
  unfolding reward_density rebate_potential extremity
  score_market m =
      let rd = reward_density (num 100) m in
      let rp = rebate_potential m in
      let ext = extremity m in
      let spread =
        if not (m.best_bid =? num 0) && not (m.best_ask =? num 0)
        then fmax (num 0) (m.best_ask ⊖ m.best_bid)
        else num 1 in
      let our_share = fmin (dec 5 1) (num 100 ⊘ fmax m.liquidity_num (num 100)) in
      let income = rd ⊕ rp ⊗ our_share in
      let penalty = (num 1 ⊖ dec 5 1 ⊗ ext) ⊗ (num 1 ⊘ (num 1 ⊕ spread ⊗ num 20)) in
      let viability = fmin (num 1) (m.liquidity_num ⊘ num 2000) in
      record {
        condition_id = m.condition_id;
        reward_density = f.round rd 3;
        rebate_potential = f.round rp 3;
        spread = f.round spread 4;
        extremity = f.round ext 3;
        score = f.round (income ⊗ penalty ⊗ viability) 4;
      }
