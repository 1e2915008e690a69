-- ===== src/Risk/Decisions.antt =====
-- risk/manager.py: what `evaluate` decides, by switch and cap.
use mathlib.Core.Path.{subst}
use poly_maker.Prelude.{
  if◌then◌else◌, ◌≡◌, ◌⊎◌, refl, Bool, true, false, not, ◌&&◌, ◌||◌, arith, Bool-cases, inl, inr,
}
use poly_maker.Float.{Float, num, dec, ◌⊖◌, ◌⊘◌, ◌≤?◌, ◌≼◌, fmin, fmax}
use poly_maker.Float.Laws.{IsOrdered, fmin-le_left, fmin-le_right, le-fmin, le-fmax_left}
use poly_maker.Domain.{MarketMeta}
use poly_maker.Config.{RiskConfig}
use poly_maker.State.Store.{StateStore}
use poly_maker.Risk.{
  RiskManager, daily_pnl, error_rate, global_halt, market_notional, total_exposure, headroom,
  decide_caps, evaluate,
}

module _ {W : Type 0} ⦃f : Float W⦄ where
  -- Whether one of the three caps is reached
  abbrev pub at_cap : RiskConfig W → W → W → W → Bool
  at_cap cfg notional exposure group_cost =
      (cfg.max_market_notional_usdc ≤? notional)
      || ((cfg.max_event_group_loss_usdc ≤? group_cost)
          || (cfg.max_total_exposure_usdc ≤? exposure))

  decide_caps_lem :
      (cfg : RiskConfig W) (notional exposure cost : W)
      → let d = decide_caps cfg notional exposure cost in
        (d.halt ≡ false) × (d.reduce_only ≡ at_cap cfg notional exposure cost)
  unfolding decide_caps
  decide_caps_lem cfg notional exposure cost = ground arith

  -- Whether the kill switch is on, the day's loss has reached its limit, or too many orders fail
  abbrev pub is_tripped : RiskConfig W → RiskManager W → StateStore W → Bool
  is_tripped cfg r s =
      r.killed
      || ((daily_pnl r s ≤? f.neg cfg.daily_loss_kill_usdc)
          || (cfg.max_order_error_rate ≤? error_rate r))

  global_halt-is_tripped :
      (cfg : RiskConfig W) (r : RiskManager W) (s : StateStore W)
      → (global_halt cfg r s).0 ≡ is_tripped cfg r s
  unfolding global_halt
  global_halt-is_tripped cfg r s = ground arith

  abbrev Flags :
      RiskConfig W → MarketMeta W → Bool → W → RiskManager W → StateStore W → Bool → Type 0
  Flags cfg m stale cost r s on =
      let d = evaluate cfg m stale cost r s in
      let stopped = on || stale in
      (d.halt ≡ stopped)
      × (d.reduce_only ≡ (
          not stopped
          && at_cap cfg (market_notional m r s) (total_exposure r s.positions (num 0)) cost))

  evaluate-Flags :
      (cfg : RiskConfig W) (m : MarketMeta W) (stale : Bool) (cost : W) (r : RiskManager W)
      (s : StateStore W)
      → Flags cfg m stale cost r s (global_halt cfg r s).0
  unfolding evaluate
  evaluate-Flags cfg m true cost r s = elim (Bool-cases (global_halt cfg r s).0) [
    | inl on ↦ rw on (refl, refl)
    | inr off ↦ rw off (refl, refl)
  ]
  evaluate-Flags cfg m false cost r s = elim (Bool-cases (global_halt cfg r s).0) [
    | inl on ↦ rw on (refl, refl)
    | inr off ↦
        rw off
          (decide_caps_lem cfg (market_notional m r s) (total_exposure r s.positions (num 0)) cost)
  ]

  -- A market is halted exactly if its feed is stale or a global switch is on: the kill switch, the limit
  -- on the day's loss, or the limit on the rate of order errors. And it may only reduce exactly if it is
  -- not halted and one of the market, event-group and total caps is reached.
  pub evaluate_flags :
      (cfg : RiskConfig W) (m : MarketMeta W) (stale : Bool) (cost : W) (r : RiskManager W)
      (s : StateStore W)
      → let d = evaluate cfg m stale cost r s in
        let stopped = is_tripped cfg r s || stale in
        (d.halt ≡ stopped)
        × (d.reduce_only ≡ (
            not stopped
            && at_cap cfg (market_notional m r s) (total_exposure r s.positions (num 0)) cost))
  evaluate_flags cfg m stale cost r s =
      subst (Flags cfg m stale cost r s) (global_halt-is_tripped cfg r s)
        (evaluate-Flags cfg m stale cost r s)

  -- The share of full size left under a cap: all of it up to 70% of the cap, falling to none at the cap
  abbrev pub room_under : W → W → W
  room_under top current =
      if (top ≤? num 0) || (current ⊘ top ≤? dec 7 1)
      then num 1
      else fmax (num 0) ((num 1 ⊖ current ⊘ top) ⊘ dec 3 1)

  headroom-room_under : (current top : W) → headroom current top ≡ room_under top current
  unfolding headroom
  headroom-room_under current top = ground arith

  headroom-nonneg : (o : IsOrdered W) (x top : W) → num {W = W} 0 ≼ num 1 → num 0 ≼ headroom x top
  unfolding headroom
  headroom-nonneg o x top h = ground (arith, le-fmax_left o (num 0) ((num 1 ⊖ x ⊘ top) ⊘ dec 3 1))

  module _ (o : IsOrdered W) (cfg : RiskConfig W) (one_nonneg : num {W = W} 0 ≼ num 1) where
    decide_caps_scale :
        (notional exposure cost : W)
        → let d = decide_caps cfg notional exposure cost in
          (num 0 ≼ d.size_scale)
          × ((d.reduce_only ≡ true)
              ⊎ ((d.size_scale ≼ room_under cfg.max_market_notional_usdc notional)
                  × (d.size_scale ≼ room_under cfg.max_total_exposure_usdc exposure)
                  × (d.size_scale ≼ room_under cfg.max_event_group_loss_usdc cost)))
    unfolding decide_caps
    decide_caps_scale notional exposure cost =
        let a = headroom notional cfg.max_market_notional_usdc in
        let b = headroom exposure cfg.max_total_exposure_usdc in
        let c = headroom cost cfg.max_event_group_loss_usdc in
        let all_nonneg =
          le-fmin o (fmin a b) c (num 0)
            (le-fmin o a b (num 0) (headroom-nonneg o notional _ one_nonneg)
              (headroom-nonneg o exposure _ one_nonneg))
            (headroom-nonneg o cost _ one_nonneg) in
        let low = fmin-le_left o (fmin a b) c in
        let low_a = o.le_trans (fmin (fmin a b) c) (fmin a b) a low (fmin-le_left o a b) in
        let low_b = o.le_trans (fmin (fmin a b) c) (fmin a b) b low (fmin-le_right o a b) in
        elim (Bool-cases (cfg.max_market_notional_usdc ≤? notional)) [
          | inl full ↦ rw full (one_nonneg, inl refl)
          | inr free ↦ elim (Bool-cases (cfg.max_event_group_loss_usdc ≤? cost)) [
            | inl full ↦ rw (free, full) (one_nonneg, inl refl)
            | inr free' ↦ elim (Bool-cases (cfg.max_total_exposure_usdc ≤? exposure)) [
              | inl full ↦ rw (free, free', full) (one_nonneg, inl refl)
              | inr free'' ↦
                  rw (free, free', free'')
                    (
                      all_nonneg,
                      inr (
                        subst (λ x. fmin (fmin a b) c ≼ x) (headroom-room_under notional _) low_a,
                        subst (λ x. fmin (fmin a b) c ≼ x) (headroom-room_under exposure _) low_b,
                        subst (λ x. fmin (fmin a b) c ≼ x) (headroom-room_under cost _)
                            (fmin-le_right o (fmin a b) c),
                      ),
                    )
            ]
          ]
        ]

    -- The size scale is never negative; and where a market is neither halted nor at a cap it is at
    -- most the headroom under each of the three caps.
    pub evaluate_scale :
        (m : MarketMeta W) (stale : Bool) (cost : W) (r : RiskManager W) (s : StateStore W)
        → let d = evaluate cfg m stale cost r s in
          (num 0 ≼ d.size_scale)
          × ((d.halt ≡ true)
              ⊎ ((d.reduce_only ≡ true)
                  ⊎ ((d.size_scale
                        ≼ room_under cfg.max_market_notional_usdc (market_notional m r s))
                      × (d.size_scale
                          ≼ room_under cfg.max_total_exposure_usdc
                              (total_exposure r s.positions (num 0)))
                      × (d.size_scale ≼ room_under cfg.max_event_group_loss_usdc cost))))
    unfolding evaluate
    evaluate_scale m stale cost r s =
        let caps =
          decide_caps_scale (market_notional m r s) (total_exposure r s.positions (num 0)) cost in
        elim (Bool-cases (global_halt cfg r s).0) [
          | inl on ↦ rw on (o.le_refl (num 0), inl refl)
          | inr off ↦ elim (Bool-cases stale) [
            | inl blind ↦ rw (off, blind) (o.le_refl (num 0), inl refl)
            | inr live ↦ rw (off, live) (caps.0, inr caps.1)
          ]
        ]
