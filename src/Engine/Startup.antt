-- ===== src/Engine/Startup.antt =====
-- engine.py: what `start` does before the first quote: the orders that are left over, the positions.
-- `leftover` and `still` are the two readings of the open orders.
pub mod Clean
use poly_maker.Prelude.{
  Bool, true, false, List, [], ◌∷◌, ◌++◌, String, if◌then◌else◌, is_empty, map,
}
use poly_maker.Prelude.Eq.{string_eq}
use poly_maker.Float.{Float, num}
use poly_maker.Dict.{Dict, keys, add}
use poly_maker.Domain.{OpenOrder}
use poly_maker.State.Store.{
  StateStore, replace_open_orders, drop_untracked_positions, reconcile_positions,
}
use poly_maker.Engine.{Engine, only_traded}
use poly_maker.Engine.Requests.{Request, cancels_asset, reads_orders, orders_of}

module _ {W : Type 0} where
  -- `{o.token_id for o in leftover}`
  abbrev pub tokens_of : List (OpenOrder W) → List String
  tokens_of [] = []
  tokens_of (o ∷ os) = add o.token_id (tokens_of os)

  abbrev pub cancel_tokens : List String → List (Request W)
  cancel_tokens [] = []
  cancel_tokens (t ∷ ts) = cancels_asset t ∷ cancel_tokens ts

module _ {W : Type 0} ⦃f : Float W⦄ where
  -- The loop over the tokens that the engine trades
  unfoldable pub adopt_orders : W → List String → List (OpenOrder W) → StateStore W → StateStore W
  adopt_orders now [] still s = s
  adopt_orders now (t ∷ ts) still s =
      adopt_orders now ts still (replace_open_orders now t (orders_of t still) (num 0) s)

module _ {W D : Type 0} ⦃f : Float W⦄ where
  -- `_startup_reconcile`, after its first `cancel_all`
  unfoldable pub startup_reconcile :
      W
      → List (OpenOrder W)
      → List (OpenOrder W)
      → Dict String (W × W)
      → Engine W D
      → List (Request W) × Engine W D
  unfolding adopt_orders
  startup_reconcile now leftover still account e =
      let tokens = keys e.token_cid in
      let adopted = if is_empty leftover then e.state else adopt_orders now tokens still e.state in
      let purged = (drop_untracked_positions tokens adopted).1 in
      (
        if is_empty leftover then [] else cancel_tokens (tokens_of leftover) ++ (reads_orders ∷ []),
        record e { state = reconcile_positions now (only_traded e account) purged },
      )
