-- ===== src/Risk/Switches.antt =====
-- risk/manager.py: the kill switch and the error-rate breaker over any run of the manager.
use poly_maker.Prelude.{◌≤◌, ◌≡◌, ◌⊎◌, refl, Bool, true, false, arith, String}
use poly_maker.Float.{Float, num}
use poly_maker.Domain.{Fill}
use poly_maker.Config.{RiskConfig}
use poly_maker.State.Store.{StateStore}
use poly_maker.Risk.{
  RiskManager, manual_kill, new_manager, note_fill, update_mark, reset_day, note_order_result,
  error_rate, global_halt, kill,
}

module _ {W : Type 0} ⦃f : Float W⦄ where
  -- What the engine does to the manager, one call at a time
  pub data RiskStep (r : RiskManager W) : RiskManager W → Type 0 where
    fills : (fill : Fill W) → RiskStep r (note_fill fill r)
    marks_to : (t : String) (fv : W) → RiskStep r (update_mark t fv r)
    resets : (s : StateStore W) → RiskStep r (reset_day s r)
    reports : (ok : Bool) → RiskStep r (note_order_result ok r)
    kills : RiskStep r (kill r)

  pub data RiskRun (r : RiskManager W) : RiskManager W → Type 0 where
    stays : RiskRun r r
    goes : {q t : RiskManager W} → RiskRun r q → RiskStep q t → RiskRun r t

  step_killed : (r t : RiskManager W) → RiskStep r t → r.killed ≡ true → t.killed ≡ true
  unfolding note_fill update_mark reset_day note_order_result kill
  step_killed r _ (fills fill) h = h
  step_killed r _ (marks_to t fv) h = h
  step_killed r _ (resets s) h = h
  step_killed r _ (reports ok) h = h
  step_killed r _ kills h = refl

  run_killed : (r t : RiskManager W) → RiskRun r t → r.killed ≡ true → t.killed ≡ true
  run_killed r _ stays h = h
  run_killed r _ (goes {q} {t} run step) h = step_killed q t step (run_killed r q run h)

  -- The kill switch latches: whatever is called after `kill`, every later state is halted, for the
  -- reason of the manual kill, whatever the settings and the store.
  pub kill_latches :
      (cfg : RiskConfig W) (r t : RiskManager W) (s : StateStore W)
      → RiskRun (kill r) t
      → global_halt cfg t s ≡ (true, manual_kill)
  unfolding global_halt kill
  kill_latches cfg r t s run = rw (run_killed (kill r) t run refl) refl

  step_counts :
      (r t : RiskManager W)
      → RiskStep r t
      → r.order_errors ≤ r.order_attempts
      → t.order_errors ≤ t.order_attempts
  unfolding note_fill update_mark reset_day note_order_result kill
  step_counts r _ (fills fill) h = h
  step_counts r _ (marks_to t fv) h = h
  step_counts r _ (resets s) h = h
  step_counts r _ (reports true) h = omega arith
  step_counts r _ (reports false) h = omega arith
  step_counts r _ kills h = h

  run_counts :
      (r t : RiskManager W)
      → RiskRun r t
      → r.order_errors ≤ r.order_attempts
      → t.order_errors ≤ t.order_attempts
  run_counts r _ stays h = h
  run_counts r _ (goes {q} {t} run step) h = step_counts q t step (run_counts r q run h)

  -- In every state that is reached from a new manager no more orders have failed than were tried, and
  -- with fewer than twenty attempts the error rate is 0.
  pub errors_le_attempts :
      (t : RiskManager W)
      → RiskRun new_manager t
      → (t.order_errors ≤ t.order_attempts) × ((20 ≤ t.order_attempts) ⊎ (error_rate t ≡ num 0))
  unfolding error_rate
  errors_le_attempts t run = (run_counts new_manager t run (omega arith), ground arith)
