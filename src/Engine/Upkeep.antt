-- ===== src/Engine/Upkeep.antt =====
-- engine.py: one round of the heartbeat loop and of the reconciliation loop, and the check against the
-- chain. What the gateway answers are arguments; `none` is a call that raised.
pub mod Recovery
pub mod Drift
use poly_maker.Prelude.{
  ℕ, Bool, true, false, not, ◌&&◌, ◌||◌, Option, none, some, List, [], ◌∷◌, ◌++◌, String,
  if◌then◌else◌, get_or, is_some, map, keep_if,
}
use poly_maker.Prelude.Int.{ℤ, leb_ℤ}
use poly_maker.Prelude.Eq.{Eq, ◌==◌, string_eq, nat_eq}
use poly_maker.Float.{Float, num, dec, ◌⊖◌, ◌⊗◌, ◌≤?◌, ◌<?◌, ◌=?◌, fabs, fmin, fmax}
use poly_maker.Dict.{Dict, lookup, insert, keys}
use poly_maker.Domain.{MarketMeta, OpenOrder, yes_token, no_token}
use poly_maker.SortedDict.{SortedDict}
use poly_maker.Book.{OrderBook, BookLevel, best_bid, best_ask, apply_snapshot}
use poly_maker.State.Store.{
  StateStore, position, inflight_count, clear_orders, replace_open_orders, expire_inflight,
  reconcile_positions, force_set_position, record_pnl,
}
use poly_maker.Risk.{inventory_value, equity, daily_pnl}
use poly_maker.Engine.{Market, Engine, Settings, Links, on_market, wake_cid, wake_all, only_traded}
use poly_maker.Engine.Requests.{Request, cancels_asset, orders_of, refresh_token_orders}

module _ {W : Type 0} ⦃f : Float W⦄ where
  -- The resync of every market after an outage, from the orders that each call reports
  unfoldable pub resync_all :
      W
      → (String → Option (List (OpenOrder W)))
      → Dict String (Market W)
      → StateStore W
      → StateStore W
  resync_all now reported [] s = s
  resync_all now reported ((cid, m) ∷ d) s = resync_all now reported d (elim (reported cid) [
    | none ↦ s
    | some live ↦ refresh_token_orders now m.meta live (num 0) s
  ])

  -- The orders of one token, from the snapshot, unless a trade is in flight
  abbrev pub resync_token : W → List (OpenOrder W) → String → StateStore W → StateStore W
  resync_token now live t s =
      if inflight_count t s == 0 then replace_open_orders now t (orders_of t live) (num 10) s else s

  unfoldable pub resync_markets :
      W → List (OpenOrder W) → Dict String (Market W) → StateStore W → StateStore W
  resync_markets now live [] s = s
  resync_markets now live ((cid, m) ∷ d) s =
      resync_markets now live d
        (resync_token now live (no_token m.meta) (resync_token now live (yes_token m.meta) s))

  -- Whether a size differs from the chain's by more than the tolerance
  abbrev pub diverges : W → W → Bool
  diverges internal chain_size = fmax (num 1) (dec 2 2 ⊗ chain_size) <? fabs (internal ⊖ chain_size)

module _ {W D : Type 0} ⦃f : Float W⦄ where
  -- One round of `_heartbeat_loop`; `failures` is the gateway's count after the beat.
  unfoldable pub heartbeat_step :
      Settings W → W → Bool → ℤ → (String → Option (List (OpenOrder W))) → Engine W D → Engine W D
  unfolding resync_all
  heartbeat_step cfg now ok failures reported e =
      let state = resync_all now reported e.markets (clear_orders e.state) in
      if not ok && (leb_ℤ cfg.risk.heartbeat_halt_failures failures && not e.hb_was_down)
      then wake_all (record e { hb_was_down = true })
      else if ok && e.hb_was_down
      then wake_all (record e { hb_was_down = false; state = state })
      else e

  -- What the `try` of `_reconcile_loop` does after the positions, in live mode
  unfoldable pub reconcile_orders :
      Settings W → W → Option (List (OpenOrder W)) → Engine W D → Option (Engine W D)
  unfolding resync_markets
  reconcile_orders cfg now live e = if cfg.paper then some e else elim live [
    | none ↦ none
    | some orders ↦ some (record e { state = resync_markets now orders e.markets e.state })
  ]

  -- `record_pnl` of the four figures
  unfoldable pub note_pnl : W → Engine W D → Engine W D
  note_pnl now e = record e {
    state =
        record_pnl now (equity e.risk e.state) e.risk.net_cash
          (inventory_value e.risk e.state.positions (num 0)) (daily_pnl e.risk e.state) e.state;
  }

  -- One round of `_reconcile_loop`, the check against the chain aside
  unfoldable pub reconcile_round :
      Settings W
      → W
      → Option (Dict String (W × W))
      → Option (List (OpenOrder W))
      → Engine W D
      → Engine W D
  unfolding reconcile_orders note_pnl
  reconcile_round cfg now positions live e =
      let forced = e.reconcile_now in
      let expired = expire_inflight now (cfg.engine.reconcile_interval_s ⊗ num 2) e.state in
      let started : Engine W D = record e { reconcile_now = false; state = expired.1 } in
      note_pnl now (elim positions [
        | none ↦ started
        | some api ↦
            let synced : Engine W D = record started {
              state = reconcile_positions now (only_traded started api) started.state;
            } in
            elim (reconcile_orders cfg now live synced) [
              | none ↦ synced
              | some done_with ↦ if forced then wake_all done_with else done_with
            ]
      ])

  -- The correction of one token to its balance on the chain
  unfoldable pub correct_token : String → W → Engine W D → Engine W D
  correct_token t chain_size e =
      let pos = position t e.state in
      let forced : Engine W D = record e {
        state = force_set_position t chain_size pos.avg_price e.state;
      } in
      let woken = elim (lookup t e.token_cid) as (λ _. Engine W D) [
        | none ↦ forced
        | some cid ↦ wake_cid cid forced
      ] in
      if diverges pos.size chain_size then woken else e

  -- The tokens of the engine's markets that have no trade in flight
  abbrev pub settled_tokens : Engine W D → List String
  settled_tokens e = keep_if (λ t. inflight_count t e.state == 0) (keys e.token_cid)

  -- The loop of `_check_position_divergence`, over the balances on the chain
  unfoldable pub correct_tokens : Dict String W → Engine W D → Engine W D
  unfolding correct_token
  correct_tokens [] e = e
  correct_tokens ((t, chain_size) ∷ onchain) e =
      correct_tokens onchain (correct_token t chain_size e)

  -- `_check_position_divergence`, from what the gateway answers for a list of tokens. Other tasks run
  -- while it reads the chain: `asked_at` is the engine when the tokens are chosen, `e` the one when the
  -- answer is there.
  unfoldable pub check_divergence :
      (List String → Option (Dict String W)) → Engine W D → Engine W D → Engine W D
  unfolding correct_tokens
  check_divergence balances asked_at e =
      elim (balances (settled_tokens asked_at)) as (λ _. Engine W D) [
        | none ↦ e
        | some onchain ↦ correct_tokens onchain e
      ]
