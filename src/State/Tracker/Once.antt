-- ===== src/State/Tracker/Once.antt =====
-- state/tracker.py: over any sequence of trade events a match is booked at most once.
use poly_maker.Prelude.{
  ◌&&◌, ◌≡◌, ◌⊎◌, refl, true, false, List, [], ◌∷◌, ◌++◌, String, arith, inl, inr, Bool-cases,
  Option-cases,
}
use poly_maker.Prelude.Eq.{string_eq}
use poly_maker.Float.{Float}
use poly_maker.Dict.{
  lookup, contains, member, AllDistinct, AllDistinct-append, member-append, lookup-insert,
  contains-insert_self,
}
use poly_maker.Domain.{Fill, TradeState, matched, mined, confirmed, retrying, failed}
use poly_maker.State.Store.{StateStore, apply_fill, mark_inflight, clear_inflight}
use poly_maker.State.Tracker.{
  TradeEvent, Effect, filled, changed, Tracker, fill_of, reverse_of, on_matched, on_confirmed,
  on_failed, dispatch_trade, on_trade,
}

module _ {W : Type 0} ⦃f : Float W⦄ where
  -- The trade ids of the `on_fill` calls
  abbrev pub filled_ids : List (Effect W) → List String
  filled_ids [] = []
  filled_ids (filled x ∷ es) = x.trade_id ∷ filled_ids es
  filled_ids (changed cid ∷ es) = filled_ids es

  pub filled_ids-append :
      (es rest : List (Effect W)) → filled_ids (es ++ rest) ≡ filled_ids es ++ filled_ids rest
  filled_ids-append [] rest = refl
  filled_ids-append (filled x ∷ es) rest = ground (arith, filled_ids-append es rest)
  filled_ids-append (changed cid ∷ es) rest = filled_ids-append es rest

  apply_fill-keeps :
      (fill : Fill W) (s : StateStore W) (i : String)
      → contains i s.fills ≡ true
      → contains i (apply_fill fill s).1.fills ≡ true
  unfolding apply_fill
  apply_fill-keeps fill s i h = ground (arith, lookup-insert fill.trade_id i fill s.fills)

  -- A step books its own trade id, which was new, or nothing.
  abbrev BooksNew : String → Tracker W → List (Effect W) × Tracker W → Type 0
  BooksNew i t r =
      (filled_ids r.0 ≡ [])
      ⊎ ((filled_ids r.0 ≡ i ∷ [])
          × (contains i t.store.fills ≡ false)
          × (contains i r.1.store.fills ≡ true))

  on_trade-BooksNew :
      (state : TradeState) (now : W) (ev : TradeEvent W) (cid : String) (t : Tracker W)
      → BooksNew ev.trade_id t (dispatch_trade state now ev cid t)
  unfolding dispatch_trade on_matched on_confirmed on_failed apply_fill mark_inflight
  on_trade-BooksNew matched now ev cid t = elim (Bool-cases (contains ev.trade_id t.applied)) [
    | inl old ↦ rw old (inl refl)
    | inr h ↦ elim (Bool-cases (contains ev.trade_id t.store.fills)) [
      | inl old ↦ rw (h, old) (inl refl)
      | inr new ↦
          rw (h, new)
            (inr (refl, refl, contains-insert_self ev.trade_id (fill_of ev) t.store.fills))
    ]
  ]
  on_trade-BooksNew mined now ev cid t = inl refl
  on_trade-BooksNew confirmed now ev cid t = elim (Bool-cases (contains ev.trade_id t.applied)) [
    | inl old ↦ rw old (inl refl)
    | inr h ↦ rw h (inl refl)
  ]
  on_trade-BooksNew retrying now ev cid t = inl refl
  on_trade-BooksNew failed now ev cid t = elim (Option-cases (lookup ev.trade_id t.applied)) [
    | inl e ↦ rw (e, on_failed) (inl refl)
    | inr (prior, e) ↦ rw (e, on_failed) (inl refl)
  ]

  on_trade-keeps :
      (state : TradeState) (now : W) (ev : TradeEvent W) (cid : String) (t : Tracker W) (i : String)
      → contains i t.store.fills ≡ true
      → contains i (dispatch_trade state now ev cid t).1.store.fills ≡ true
  unfolding dispatch_trade on_matched on_confirmed on_failed mark_inflight clear_inflight
  on_trade-keeps matched now ev cid t i h =
      ground (arith, apply_fill-keeps (fill_of ev) t.store i h)
  on_trade-keeps mined now ev cid t i h = h
  on_trade-keeps confirmed now ev cid t i h = ground arith
  on_trade-keeps retrying now ev cid t i h = h
  on_trade-keeps failed now ev cid t i h = elim (Option-cases (lookup ev.trade_id t.applied)) [
    | inl e ↦ rw (e, on_failed) h
    | inr (prior, e) ↦ rw (e, on_failed) (apply_fill-keeps (reverse_of prior) t.store i h)
  ]

  -- What a transition from `t` does to the books: it calls back once for an id at most, for none that
  -- the table held, and every id called back for is in the table afterwards, with the old ones.
  pub record BooksOnce (t : Tracker W) (r : List (Effect W) × Tracker W) : Type 0 where
    pub distinct : AllDistinct (filled_ids r.0)
    pub fresh : (i : String) → contains i t.store.fills ≡ true → member i (filled_ids r.0) ≡ false
    pub keeps : (i : String) → contains i t.store.fills ≡ true → contains i r.1.store.fills ≡ true
    pub booked : (i : String) → member i (filled_ids r.0) ≡ true → contains i r.1.store.fills ≡ true

  -- A transition without callbacks that keeps the table
  pub BooksOnce-quiet :
      (t t' : Tracker W) (es : List (Effect W))
      → filled_ids es ≡ []
      → t'.store.fills ≡ t.store.fills
      → BooksOnce t (es, t')
  BooksOnce-quiet t t' es e k = record {
    distinct = rw e tt;
    fresh = λ i h. rw e refl;
    keeps = λ i h. rw k h;
    booked = λ i h. cc (rw e at h);
  }

  pub BooksOnce-append :
      (t t' last : Tracker W) (es rest : List (Effect W))
      → BooksOnce t (es, t')
      → BooksOnce t' (rest, last)
      → BooksOnce t (es ++ rest, last)
  BooksOnce-append t t' last es rest a b = record {
    distinct = rw (filled_ids-append es rest) (
        AllDistinct-append (filled_ids es) (filled_ids rest) a.distinct b.distinct
          (λ i h. b.fresh i (a.booked i h)));
    fresh = λ i h. rw (filled_ids-append es rest) (
        ground (
          arith,
          member-append i (filled_ids es) (filled_ids rest),
          a.fresh i h,
          b.fresh i (a.keeps i h),
        ));
    keeps = λ i h. b.keeps i (a.keeps i h);
    booked = λ i h. elim (Bool-cases (member i (filled_ids es))) [
      | inl old ↦ b.keeps i (a.booked i old)
      | inr new ↦ b.booked i (
          ground
            (arith, filled_ids-append es rest, member-append i (filled_ids es) (filled_ids rest)))
    ];
  }

  pub on_trade-BooksOnce :
      (now : W) (ev : TradeEvent W) (cid : String) (t : Tracker W)
      → BooksOnce t (on_trade now ev cid t)
  unfolding on_trade
  on_trade-BooksOnce now ev cid t = elim (on_trade-BooksNew ev.status now ev cid t) [
    | inl e ↦ record {
      distinct = rw e tt;
      fresh = λ i h. rw e refl;
      keeps = λ i h. on_trade-keeps ev.status now ev cid t i h;
      booked = λ i h. cc (rw e at h);
    }
    | inr b ↦ record {
      distinct = rw b.0 (refl, tt);
      fresh = λ i h. rw b.0 (ground (arith, string_eq.same_iff ev.trade_id i, b.1));
      keeps = λ i h. on_trade-keeps ev.status now ev cid t i h;
      booked =
          λ i h. let k = rw b.0 at h in ground (arith, string_eq.same_iff ev.trade_id i, b.2, k);
    }
  ]

  -- A sequence of trade events, each with the clock's reading and its market
  pub run_trades : List (W × TradeEvent W × String) → Tracker W → List (Effect W) × Tracker W
  run_trades [] t = ([], t)
  run_trades ((now, ev, cid) ∷ evs) t =
      let (es, t') = on_trade now ev cid t in
      let (rest, last) = run_trades evs t' in (es ++ rest, last)

  run_trades-BooksOnce :
      (evs : List (W × TradeEvent W × String)) (t : Tracker W) → BooksOnce t (run_trades evs t)
  unfolding run_trades
  run_trades-BooksOnce [] t = BooksOnce-quiet t t [] refl refl
  run_trades-BooksOnce ((now, ev, cid) ∷ evs) t =
      let step = on_trade now ev cid t in
      BooksOnce-append t step.1 _ step.0 _ (on_trade-BooksOnce now ev cid t)
        (run_trades-BooksOnce evs step.1)

  -- Whatever trade events arrive, in whatever order and with whatever redeliveries, the fill callback
  -- runs at most once for a trade id, and never for one whose fill the table already held, as after a
  -- restart.
  pub trades_booked_once :
      (evs : List (W × TradeEvent W × String)) (t : Tracker W)
      → AllDistinct (filled_ids (run_trades evs t).0)
        × ((i : String)
            → (contains i t.store.fills && member i (filled_ids (run_trades evs t).0)) ≡ false)
  trades_booked_once evs t =
      let b = run_trades-BooksOnce evs t in (b.distinct, λ i. ground (arith, b.fresh i))
