-- ===== src/Strategy/Regime/Safety.antt =====
-- strategy/regime.py: when the machine may quote, and what the cool-off guarantees.
use poly_maker.Prelude.{◌≡◌, ◌⊎◌, ◌↔◌, Bool, true, false, ◌||◌, List, [], ◌∷◌, arith, All}
use poly_maker.Float.{Float, num, ◌⊕◌, ◌≤?◌, ◌<?◌, ◌≼◌}
use poly_maker.Float.Laws.{IsOrdered, IsMonotone, lt_of_lt_of_le}
use poly_maker.Domain.{Regime, quiet, trending, event, halted}
use poly_maker.Config.{StrategyProfile}
use poly_maker.Strategy.Regime.{RegimeInputs, RegimeMachine, decide, ends_within, is_event}

-- The regimes in which entry quotes are built.
abbrev pub is_quoting : Regime → Bool
is_quoting quiet = true
is_quoting trending = true
is_quoting _ = false

abbrev pub IsPulled : Regime → Type 0
IsPulled r = (r ≡ event) ⊎ (r ≡ halted)

module _ {W : Type 0} ⦃f : Float W⦄ where
  -- The machine chooses a quoting regime only if no risk flag is up, the feed is live, the market is
  -- neither resolved nor inside the reduce-only window, there is no fresh event, the cool-off is over
  -- and the inventory is below its cap. The machine is then unchanged.
  pub quoting_is_safe :
      (inp : RegimeInputs W) (p : StrategyProfile W) (m : RegimeMachine W)
      → is_quoting (decide inp p m).0 ≡ true
      → (inp.risk_halt ≡ false)
        × (inp.ws_stale ≡ false)
        × (inp.market_resolved ≡ false)
        × (inp.risk_reduce_only ≡ false)
        × ((num 1 ≤? inp.inventory_util) ≡ false)
        × (ends_within inp.hours_to_end p.halt_before_hours ≡ false)
        × (ends_within inp.hours_to_end p.reduce_only_hours ≡ false)
        × (is_event inp p ≡ false)
        × ((inp.now <? m.event_until) ≡ false)
        × ((decide inp p m).1 ≡ m)
  unfolding decide
  quoting_is_safe inp p m h = ground arith

  -- The machine halts exactly when a hard condition holds: the risk manager halts, the feed is
  -- stale, the market is resolved, or its end is within the halt window.
  pub halts_iff :
      (inp : RegimeInputs W) (p : StrategyProfile W) (m : RegimeMachine W)
      → ((decide inp p m).0 ≡ halted) ↔ (
          (inp.risk_halt
            || inp.ws_stale
            || inp.market_resolved
            || ends_within inp.hours_to_end p.halt_before_hours)
          ≡ true)
  unfolding decide
  halts_iff inp p m = ground arith

  -- The decisions of a machine over a sequence of inputs.
  pub run_machine : StrategyProfile W → RegimeMachine W → List (RegimeInputs W) → List Regime
  run_machine p m [] = []
  run_machine p m (inp ∷ rest) = let (r, m') = decide inp p m in r ∷ run_machine p m' rest

  -- Every input is timed within [from, until).
  abbrev pub AllWithin : W → W → List (RegimeInputs W) → Type 0
  AllWithin from until =
      All λ (inp : RegimeInputs W). (from ≼ inp.now) × ((inp.now <? until) ≡ true)

  module _ (o : IsOrdered W) (mono : IsMonotone W) where
    open o use {le_refl, le_trans}
    open mono use {add_mono}

    decide_in_cooloff :
        (inp : RegimeInputs W) (p : StrategyProfile W) (m : RegimeMachine W) (start : W)
        → start ≼ inp.now
        → (inp.now <? start ⊕ p.event_cooloff_s) ≡ true
        → start ⊕ p.event_cooloff_s ≼ m.event_until
        → IsPulled (decide inp p m).0 × (start ⊕ p.event_cooloff_s ≼ (decide inp p m).1.event_until)
    unfolding decide
    decide_in_cooloff inp p m start after before until = ground (
      arith,
      add_mono start inp.now p.event_cooloff_s p.event_cooloff_s after (le_refl p.event_cooloff_s),
      lt_of_lt_of_le o inp.now (start ⊕ p.event_cooloff_s) m.event_until before until,
    )

    run_in_cooloff :
        (p : StrategyProfile W) (start : W) (m : RegimeMachine W) (inputs : List (RegimeInputs W))
        → start ⊕ p.event_cooloff_s ≼ m.event_until
        → AllWithin start (start ⊕ p.event_cooloff_s) inputs
        → All IsPulled (run_machine p m inputs)
    unfolding run_machine
    run_in_cooloff p start m [] until h = tt
    run_in_cooloff p start m (inp ∷ rest) until h =
        let now = decide_in_cooloff inp p m start h.0.0 h.0.1 until in
        (now.0, run_in_cooloff p start (decide inp p m).1 rest now.1 h.1)

    -- Once a fresh event is decided, every later decision before the end of its cool-off pulls the
    -- quotes (EVENT or HALTED), whatever else the inputs say, new events and halts included.
    pub event_cools_off :
        (p : StrategyProfile W) (m : RegimeMachine W) (inp : RegimeInputs W)
        (later : List (RegimeInputs W))
        → is_event inp p ≡ true
        → (decide inp p m).0 ≡ event
        → AllWithin inp.now (inp.now ⊕ p.event_cooloff_s) later
        → All IsPulled (run_machine p (decide inp p m).1 later)
    unfolding decide
    event_cools_off p m inp later fresh e h =
        run_in_cooloff p inp.now _ later (ground (arith, le_refl (inp.now ⊕ p.event_cooloff_s))) h
