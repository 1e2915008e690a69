-- ===== src/State/Store.antt =====
-- state/store.py: positions, open orders, the in-flight guard, and the tables they are mirrored to.
pub mod Fills
pub mod Positions
pub mod Orders
pub mod Inflight
use poly_maker.Prelude.{
  ℕ, zero, suc, ◌+◌, ◌-◌, Bool, true, false, not, ◌&&◌, ◌||◌, Option, none, some, List, [], ◌∷◌,
  ◌++◌, String, if◌then◌else◌, keep_if, map, ltb, get_or,
}
use poly_maker.Prelude.Eq.{Eq, ◌==◌, string_eq, nat_eq}
use poly_maker.Float.{Float, num, dec, ◌⊕◌, ◌⊖◌, ◌⊗◌, ◌⊘◌, ◌≤?◌, ◌<?◌, ◌=?◌, fmax}
use poly_maker.Dict.{Dict, lookup, lookup_or, contains, insert, remove, keys, values, member}
use poly_maker.Domain.{
  Side, buy, sell, is_buy, Position, OpenOrder, Fill, OrderState, canceled, done, rejected, flat,
}

-- `fills`, `position_rows`, `order_rows` and `pnl_rows` are the tables, by primary key.
pub record StateStore (W : Type 0) : Type 0 where
  pub positions : Dict String (Position W)
  pub orders : Dict String (OpenOrder W)
  pub inflight : Dict String ℕ
  pub inflight_ts : Dict String W
  pub last_fill_ts : Dict String W
  pub fills : Dict String (Fill W)
  pub position_rows : Dict String (Position W)
  pub order_rows : Dict String (OpenOrder W)
  pub pnl_rows : List (W × W × W × W × W)

abbrev pub is_closed : OrderState → Bool
is_closed canceled = true
is_closed done = true
is_closed rejected = true
is_closed _ = false

module _ {W : Type 0} where
  -- `inflight(token_id)`
  abbrev pub inflight_count : String → StateStore W → ℕ
  inflight_count t s = lookup_or t 0 s.inflight

  -- `clear_orders`
  abbrev pub clear_orders : StateStore W → StateStore W
  clear_orders s = record s { orders = [] }

  abbrev pub remove_order : String → StateStore W → StateStore W
  remove_order i s = record s { orders = remove i s.orders }

  -- The row of `_persist_order`, without its time
  unfoldable pub upsert_order : OpenOrder W → StateStore W → StateStore W
  upsert_order o s = record s {
    orders = if is_closed o.state then remove o.order_id s.orders else insert o.order_id o s.orders;
    order_rows = insert o.order_id o s.order_rows;
  }

  abbrev pub orders_for : String → StateStore W → List (OpenOrder W)
  orders_for t s = keep_if (λ (o : OpenOrder W). o.token_id == t) (values s.orders)

  -- The row of `_persist_position`, without its time
  abbrev pub persist_position : Position W → StateStore W → StateStore W
  persist_position p s = record s { position_rows = insert p.token_id p s.position_rows }

module _ {W : Type 0} ⦃f : Float W⦄ where
  -- `position(token_id)`
  abbrev pub position : String → StateStore W → Position W
  position t s = lookup_or t (flat t) s.positions

  -- The position after a fill that is not a duplicate
  unfoldable pub filled_position : Fill W → Position W → Position W
  filled_position fill pos =
      let signed = if is_buy fill.side then fill.size else f.neg fill.size in
      let new_size = pos.size ⊕ signed in
      let avg =
        if is_buy fill.side
        then if pos.size ≤? num 0
          then fill.price
          else (pos.avg_price ⊗ pos.size ⊕ fill.price ⊗ fill.size) ⊘ (pos.size ⊕ fill.size)
        else pos.avg_price in
      let size = fmax (num 0) new_size in
      record pos { size = size; avg_price = if size ≤? num 0 then num 0 else avg }

  -- The flag is `false` for a duplicate.
  unfoldable pub apply_fill : Fill W → StateStore W → Bool × StateStore W
  unfolding filled_position
  apply_fill fill s =
      if contains fill.trade_id s.fills
      then (false, s)
      else let pos = filled_position fill (position fill.token_id s) in
        (
          true,
          persist_position pos (record s {
            fills = insert fill.trade_id fill s.fills;
            positions = insert fill.token_id pos s.positions;
            last_fill_ts = insert fill.token_id fill.ts s.last_fill_ts;
          }),
        )

  unfoldable pub set_position : String → W → W → StateStore W → StateStore W
  set_position t size avg_price s =
      let pos : Position W = record {
        token_id = t;
        size = fmax (num 0) size;
        avg_price = if num 0 <? size then avg_price else num 0;
      } in
      persist_position pos (record s { positions = insert t pos s.positions })

  -- A token whose optimistic value is newer than the snapshot: a trade in flight, or a fill within
  -- the last five seconds
  abbrev pub is_guarded : W → String → StateStore W → Bool
  is_guarded now t s =
      ltb 0 (inflight_count t s) || (now ⊖ lookup_or t (num 0) s.last_fill_ts <? num 5)

  unfoldable pub reconcile_positions : W → Dict String (W × W) → StateStore W → StateStore W
  reconcile_positions now [] s = s
  reconcile_positions now ((t, (size, avg)) ∷ api) s =
      reconcile_positions now api (if is_guarded now t s then s else set_position t size avg s)

  unfoldable pub mark_inflight : W → String → StateStore W → StateStore W
  mark_inflight now t s = record s {
    inflight = insert t (inflight_count t s + 1) s.inflight;
    inflight_ts = if contains t s.inflight_ts then s.inflight_ts else insert t now s.inflight_ts;
  }

  unfoldable pub clear_inflight : String → StateStore W → StateStore W
  clear_inflight t s =
      let n = inflight_count t s in
      let counts = if ltb 0 n then insert t (n - 1) s.inflight else s.inflight in
      record s {
        inflight = counts;
        inflight_ts = if lookup_or t 0 counts == 0 then remove t s.inflight_ts else s.inflight_ts;
      }

  abbrev pub stale_tokens : W → W → Dict String W → List String
  stale_tokens now max_age [] = []
  stale_tokens now max_age ((t, ts) ∷ d) =
      let rest = stale_tokens now max_age d in if max_age <? now ⊖ ts then t ∷ rest else rest

  abbrev pub expire_each : List String → StateStore W → StateStore W
  expire_each [] s = s
  expire_each (t ∷ ts) s =
      expire_each ts
        (record s { inflight = insert t 0 s.inflight; inflight_ts = remove t s.inflight_ts })

  -- The tokens cleared, and the store
  unfoldable pub expire_inflight : W → W → StateStore W → List String × StateStore W
  expire_inflight now max_age s =
      let stale = stale_tokens now max_age s.inflight_ts in (stale, expire_each stale s)

  -- The first loop of `replace_open_orders`, over the token's own orders
  abbrev pub drop_absent :
      W
      → W
      → List String
      → List (OpenOrder W)
      → Dict String (OpenOrder W)
      → Dict String (OpenOrder W)
  drop_absent now grace live_ids [] d = d
  drop_absent now grace live_ids (o ∷ os) d =
      let kept = member o.order_id live_ids || (now ⊖ o.created_ts <? grace) in
      drop_absent now grace live_ids os (if kept then d else remove o.order_id d)

  abbrev pub insert_orders :
      List (OpenOrder W) → Dict String (OpenOrder W) → Dict String (OpenOrder W)
  insert_orders [] d = d
  insert_orders (o ∷ os) d = insert_orders os (insert o.order_id o d)

  unfoldable pub replace_open_orders :
      W → String → List (OpenOrder W) → W → StateStore W → StateStore W
  replace_open_orders now t live grace s =
      let live_ids = map (λ (o : OpenOrder W). o.order_id) live in
      record s {
        orders = insert_orders live (drop_absent now grace live_ids (orders_for t s) s.orders);
      }

  -- `_load`, from the rows of the table
  unfoldable pub load_positions :
      Dict String (Position W) → Dict String (Position W) → Dict String (Position W)
  load_positions [] d = d
  load_positions ((t, p) ∷ rows) d =
      load_positions rows (if num 0 <? p.size then insert t p d else d)

  abbrev pub remove_all : List String → Dict String (Position W) → Dict String (Position W)
  remove_all [] d = d
  remove_all (t ∷ ts) d = remove_all ts (remove t d)

  -- The tokens dropped, and the store
  unfoldable pub drop_untracked_positions : List String → StateStore W → List String × StateStore W
  drop_untracked_positions tracked s =
      let dropped = keep_if (λ t. not (member t tracked)) (keys s.positions) in
      (
        dropped,
        record s {
          positions = remove_all dropped s.positions;
          position_rows = remove_all dropped s.position_rows;
        },
      )

  abbrev pub force_set_position : String → W → W → StateStore W → StateStore W
  force_set_position = set_position

  -- The row replaces one of the same time.
  abbrev pub record_pnl : W → W → W → W → W → StateStore W → StateStore W
  record_pnl now equity net_cash inv daily s = record s {
    pnl_rows =
        (now, equity, net_cash, inv, daily)
        ∷ keep_if (λ (row : W × W × W × W × W). not (row.0 =? now)) s.pnl_rows;
  }
