-- ===== src/Engine/Upkeep/Recovery.antt =====
-- engine.py: the recovery from an outage of the heartbeat, and the positions that a round accepts.
use poly_maker.Prelude.{
  ◌≡◌, refl, true, false, Option, none, some, List, [], ◌∷◌, String, All, IfSome,
}
use poly_maker.Prelude.Int.{ℤ}
use poly_maker.Prelude.Eq.{string_eq}
use poly_maker.Float.{Float, num}
use poly_maker.Dict.{Dict, values}
use poly_maker.Domain.{OpenOrder}
use poly_maker.State.Store.{StateStore, clear_orders}
use poly_maker.Engine.{Market, Engine, Settings, wake_each}
use poly_maker.Engine.Requests.{refresh_token_orders}
use poly_maker.Engine.Requests.Orders.{refresh_token_orders-All}
use poly_maker.Engine.Upkeep.{resync_all, heartbeat_step}

module _ {W : Type 0} ⦃f : Float W⦄ where
  resync_all-All :
      (P : OpenOrder W → Type 0) (now : W) (reported : String → Option (List (OpenOrder W)))
      (d : Dict String (Market W)) (s : StateStore W)
      → ((cid : String) → IfSome (All P) (reported cid))
      → All P (values s.orders)
      → All P (values (resync_all now reported d s).orders)
  unfolding resync_all
  resync_all-All P now reported [] s h a = a
  resync_all-All P now reported ((cid, m) ∷ d) s h a =
      resync_all-All P now reported d _ h (by_report (reported cid) (h cid))
    where
      by_report :
          (o : Option (List (OpenOrder W)))
          → IfSome (All P) o
          → All P (
              values
                (elim o as (λ _. StateStore W) [
                  | none ↦ s
                  | some live ↦ refresh_token_orders now m.meta live (num 0) s
                ]).orders)
      by_report none k = a
      by_report (some live) k = refresh_token_orders-All P now m.meta live (num 0) s a k

  -- Every market is marked for a new look.
  abbrev AllDirty : Dict String (Market W) → Type 0
  AllDirty d = All (λ (m : Market W). m.dirty ≡ true) (values d)

  wake_each-AllDirty : (d : Dict String (Market W)) → AllDirty (wake_each d)
  wake_each-AllDirty [] = tt
  wake_each-AllDirty ((c, m) ∷ d) = (refl, wake_each-AllDirty d)

module _ {W D : Type 0} ⦃f : Float W⦄ where
  -- The first good heartbeat after an outage: the outage is over, every market is looked at again, and
  -- only orders that the exchange reports now are left in the store: what holds of all of them holds
  -- of every order kept.
  pub recovery_adopts_reports :
      (P : OpenOrder W → Type 0) (cfg : Settings W) (now : W) (failures : ℤ)
      (reported : String → Option (List (OpenOrder W))) (e : Engine W D)
      → e.hb_was_down ≡ true
      → ((cid : String) → IfSome (All P) (reported cid))
      → let e' = heartbeat_step cfg now true failures reported e in
        (e'.hb_was_down ≡ false)
        × All (λ (m : Market W). m.dirty ≡ true) (values e'.markets)
        × All P (values e'.state.orders)
  unfolding heartbeat_step
  recovery_adopts_reports P cfg now failures reported e down h = rw down (
    refl,
    wake_each-AllDirty e.markets,
    resync_all-All P now reported e.markets (clear_orders e.state) h tt,
  )
