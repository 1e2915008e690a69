-- ===== src/Engine/Refresh.antt =====
-- engine.py: the refresh of the markets' metadata, with its halts, and of a book.
use poly_maker.Prelude.{
  Bool, true, false, not, ◌&&◌, ◌||◌, Option, none, some, List, [], ◌∷◌, String, if◌then◌else◌,
  get_or, is_some,
}
use poly_maker.Prelude.Int.{ℤ, leb_ℤ}
use poly_maker.Prelude.Eq.{◌==◌, string_eq, nat_eq}
use poly_maker.Float.{Float, num, ◌⊖◌, ◌<?◌, ◌=?◌, fabs, fmin, fmax}
use poly_maker.Dict.{lookup, insert}
use poly_maker.Domain.{MarketMeta, yes_token, no_token}
use poly_maker.SortedDict.{SortedDict}
use poly_maker.Book.{OrderBook, BookLevel, best_bid, best_ask, apply_snapshot}
use poly_maker.Engine.{Engine, on_market, wake_cid}
use poly_maker.Engine.Requests.{Request, cancels_asset}

-- The fields of a metadata record that the engine reads, each `none` where absent or no number
pub record MetaReport (W : Type 0) : Type 0 where
  pub accepting : Bool
  pub closed : Bool
  pub rewards_min_size : Option W
  pub rewards_max_spread : Option W
  pub taker_fee_bps : Option ℤ
  pub rebate_rate : Option W
  pub end_date_iso : Option String
  pub min_order_size : Option W

abbrev changes_int : Option ℤ → ℤ → Bool
changes_int none old = false
changes_int (some v) old = not (leb_ℤ v old && leb_ℤ old v)

abbrev changes_text : Option String → Option String → Bool
changes_text none old = false
changes_text (some v) none = true
changes_text (some v) (some old) = not (v == old)

module _ {W : Type 0} ⦃f : Float W⦄ where
  -- The metadata with the candidate values that are there
  unfoldable pub refreshed_meta : MetaReport W → MarketMeta W → MarketMeta W
  refreshed_meta r m = record m {
    rewards_min_size = get_or r.rewards_min_size m.rewards_min_size;
    rewards_max_spread = get_or r.rewards_max_spread m.rewards_max_spread;
    taker_fee_bps = get_or r.taker_fee_bps m.taker_fee_bps;
    rebate_rate = get_or r.rebate_rate m.rebate_rate;
    end_date_iso = if is_some r.end_date_iso then r.end_date_iso else m.end_date_iso;
    min_order_size = get_or r.min_order_size m.min_order_size;
  }

  abbrev changes : Option W → W → Bool
  changes none old = false
  changes (some v) old = not (v =? old)

  -- Whether `updates` has an entry
  unfoldable pub has_updates : MetaReport W → MarketMeta W → Bool
  has_updates r m =
      changes r.rewards_min_size m.rewards_min_size
      || (changes r.rewards_max_spread m.rewards_max_spread
          || (changes_int r.taker_fee_bps m.taker_fee_bps
              || (changes r.rebate_rate m.rebate_rate
                  || (changes_text r.end_date_iso m.end_date_iso
                      || changes r.min_order_size m.min_order_size))))

  -- `(cur is None) != (rest is None)`, or both at prices more than a tick apart
  abbrev pub side_drifts : W → Option (BookLevel W) → Option W → Bool
  side_drifts tick none none = false
  side_drifts tick (some cur) (some rest) = not (rest =? num 0) && (tick <? fabs (cur.price ⊖ rest))
  side_drifts tick _ _ = true

  abbrev pub best_of : (W → W → W) → List (W × W) → Option W
  best_of pick [] = none
  best_of pick ((p, s) ∷ l) = elim (best_of pick l) [ none ↦ some p | some q ↦ some (pick p q) ]

module _ {W D : Type 0} ⦃f : Float W⦄ where
  -- `_apply_meta_refresh`
  unfoldable pub apply_meta_refresh : String → MetaReport W → Engine W D → Engine W D
  unfolding refreshed_meta has_updates
  apply_meta_refresh cid r e =
      on_market cid
        (λ m.
          if has_updates r m.meta
          then record m { meta = refreshed_meta r m.meta; dirty = true }
          else m)
        e

  -- The body of the loop of `refresh_market_metadata`, for one market's report
  unfoldable pub apply_report : String → MetaReport W → Engine W D → List (Request W) × Engine W D
  unfolding apply_meta_refresh
  apply_report cid r e = elim (lookup cid e.markets) [
    | none ↦ ([], e)
    | some m ↦
        if r.closed || not r.accepting
        then if m.halted then ([], e) else (
          cancels_asset (yes_token m.meta) ∷ cancels_asset (no_token m.meta) ∷ [],
          wake_cid cid (on_market cid (λ n. record n { halted = true }) e),
        )
        else ([], apply_meta_refresh cid r (on_market cid (λ n. record n { halted = false }) e))
  ]

module _ {W D : Type 0} ⦃f : Float W⦄ ⦃d : SortedDict W D⦄ where
  -- `drift`, of a book against the levels that REST reports
  unfoldable pub book_drifts : OrderBook W D → List (W × W) → List (W × W) → Bool
  book_drifts book bids asks =
      side_drifts book.tick_size (best_bid book) (best_of fmax bids)
      || side_drifts book.tick_size (best_ask book) (best_of fmin asks)

  -- `_refresh_book`, from the levels and the hash that REST reports
  unfoldable pub refresh_book :
      W → String → Option (List (W × W) × List (W × W) × Option String) → Engine W D → Engine W D
  unfolding book_drifts
  refresh_book now t none e = e
  refresh_book now t (some (bids, asks, book_hash)) e = elim (lookup t e.books) [
    | none ↦ e
    | some book ↦
        let snapped : Engine W D = record e {
          books = insert t (apply_snapshot now bids asks now book_hash book) e.books;
        } in
        let woken = elim (lookup t e.token_cid) as (λ _. Engine W D) [
          | none ↦ snapped
          | some cid ↦ wake_cid cid snapped
        ] in
        if book_drifts book bids asks then woken else e
  ]
