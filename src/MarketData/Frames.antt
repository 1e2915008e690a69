-- ===== src/MarketData/Frames.antt =====
-- marketdata/service.py: what holds of the books after any run of frames.
use mathlib.Core.Path.{subst}
use poly_maker.Prelude.{
  ◌≡◌, refl, true, false, Option, none, some, List, [], ◌∷◌, String, arith, All, Any, IfSome,
  Any-append_right, ◌++◌, sym, inl, inr, Bool-cases, Option-cases,
}
use poly_maker.Prelude.Eq.{◌==◌, string_eq}
use poly_maker.Float.{Float}
use poly_maker.Float.Laws.{IsOrdered}
use poly_maker.Dict.{
  Dict, lookup, contains, values, member, add, All-values-insert, member-add, lookup-insert,
}
use poly_maker.SortedDict.{SortedDict, IsSortedDict}
use poly_maker.Book.{OrderBook, apply_delta, set_tick_size}
use poly_maker.Book.Levels.{IsLive, apply_snapshot-IsLive, apply_delta-IsLive}
use poly_maker.MarketData.{
  MarketData, Frame, book_frame, price_frame, trade_frame, tick_frame, other_frame, PriceChange,
  BookUpdate, Signal, wakes, TickSizeChange, on_tick_change, wake, wake_tokens, on_book,
  apply_changes, on_price_change, dispatch, put_book,
}

module _ {W D : Type 0} ⦃f : Float W⦄ ⦃d : SortedDict W D⦄ where
  -- The service after a run of frames, each with the clock's reading
  pub run_frames : List (W × Frame W) → MarketData W D → MarketData W D
  run_frames [] s = s
  run_frames ((now, fr) ∷ frs) s = run_frames frs (dispatch now fr s).1

  abbrev pub AllLive : MarketData W D → Type 0
  AllLive s = All IsLive (values s.books)

  lookup-All :
      (P : OrderBook W D → Type 0) (t : String) (m : Dict String (OrderBook W D))
      → All P (values m)
      → IfSome P (lookup t m)
  lookup-All P t [] a = tt
  lookup-All P t ((k, c) ∷ m) a = elim (Bool-cases (k == t)) [
    | inl same ↦ rw same a.0
    | inr other ↦ rw other (lookup-All P t m a.1)
  ]

  set_tick_size-IsLive : (t : W) (b : OrderBook W D) → IsLive b → IsLive (set_tick_size t b)
  set_tick_size-IsLive t b v = record { bids_live = v.bids_live; asks_live = v.asks_live }

  module _ (o : IsOrdered W) (sd : IsSortedDict W D) where
    on_book-AllLive :
        (now : W) (u : BookUpdate W) (known : Option (OrderBook W D)) (s : MarketData W D)
        → AllLive s
        → AllLive (on_book now u known s).1
    on_book-AllLive now u none s a = a
    on_book-AllLive now u (some book) s a =
        All-values-insert IsLive u.asset_id _ s.books a
          (apply_snapshot-IsLive o sd now u.bids u.asks u.ts u.book_hash _)

    on_tick_change-AllLive :
        (c : TickSizeChange W) (known : Option (OrderBook W D)) (s : MarketData W D)
        → AllLive s
        → IfSome IsLive known
        → AllLive (on_tick_change c known s)
    on_tick_change-AllLive c none s a v = a
    on_tick_change-AllLive c (some book) s a v =
        All-values-insert IsLive c.asset_id _ s.books a (set_tick_size-IsLive c.tick_size book v)

    apply_changes-AllLive :
        (now : W) (cs : List (PriceChange W)) (touched : List String) (s : MarketData W D)
        → AllLive s
        → AllLive (apply_changes now cs touched s).1
    unfolding apply_changes
    apply_changes-AllLive now [] touched s a = a
    apply_changes-AllLive now (c ∷ cs) touched s a =
        elim (Option-cases (lookup c.asset_id s.books)) [
          | inl unknown ↦ rw (unknown, apply_changes) (apply_changes-AllLive now cs touched s a)
          | inr (book, known) ↦
              rw (known, apply_changes)
                (apply_changes-AllLive now cs (add c.asset_id touched)
                  (put_book c.asset_id (apply_delta now c.side c.price c.size c.ts book) s)
                  (All-values-insert IsLive c.asset_id _ s.books a (
                    apply_delta-IsLive o sd now c.side c.price c.size c.ts book
                      (subst (IfSome IsLive) known (lookup-All IsLive c.asset_id s.books a)))))
        ]

    pub dispatch-AllLive :
        (now : W) (fr : Frame W) (s : MarketData W D)
        → AllLive s
        → All IsLive (values (dispatch now fr s).1.books)
    unfolding dispatch on_price_change
    dispatch-AllLive now (book_frame none) s a = a
    dispatch-AllLive now (book_frame (some u)) s a =
        on_book-AllLive now u (lookup u.asset_id s.books) s a
    dispatch-AllLive now (price_frame cs) s a = apply_changes-AllLive now cs [] s a
    dispatch-AllLive now (trade_frame none) s a = a
    dispatch-AllLive now (trade_frame (some t)) s a = a
    dispatch-AllLive now (tick_frame none) s a = a
    dispatch-AllLive now (tick_frame (some c)) s a =
        on_tick_change-AllLive c (lookup c.asset_id s.books) s a
          (lookup-All IsLive c.asset_id s.books a)
    dispatch-AllLive now other_frame s a = a

    -- Whatever frames arrive, in whatever order, malformed ones included: if no book has an empty
    -- level at the start, none has one at the end.
    pub run_frames-AllLive :
        (frames : List (W × Frame W)) (s : MarketData W D)
        → AllLive s
        → AllLive (run_frames frames s)
    unfolding run_frames
    run_frames-AllLive [] s a = a
    run_frames-AllLive ((now, fr) ∷ frs) s a =
        run_frames-AllLive frs (dispatch now fr s).1 (dispatch-AllLive now fr s a)

  touched_stays :
      (now : W) (cs : List (PriceChange W)) (touched : List String) (s : MarketData W D)
      (t : String)
      → member t touched ≡ true
      → member t (apply_changes now cs touched s).0 ≡ true
  unfolding apply_changes
  touched_stays now [] touched s t h = h
  touched_stays now (c ∷ cs) touched s t h = elim (Option-cases (lookup c.asset_id s.books)) [
    | inl unknown ↦ rw (unknown, apply_changes) (touched_stays now cs touched s t h)
    | inr (book, known) ↦
        rw (known, apply_changes)
          (touched_stays now cs (add c.asset_id touched) _ t
            (ground (arith, member-add c.asset_id t touched)))
  ]

  put_book-contains :
      (t u : String) (b : OrderBook W D) (s : MarketData W D)
      → contains u s.books ≡ true
      → contains u (put_book t b s).books ≡ true
  put_book-contains t u b s h = ground (arith, lookup-insert t u b s.books)

  apply_changes-conditions :
      (now : W) (cs : List (PriceChange W)) (touched : List String) (s : MarketData W D)
      → (apply_changes now cs touched s).1.token_condition ≡ s.token_condition
  unfolding apply_changes
  apply_changes-conditions now [] touched s = refl
  apply_changes-conditions now (c ∷ cs) touched s =
      elim (Option-cases (lookup c.asset_id s.books)) [
        | inl unknown ↦ rw (unknown, apply_changes) (apply_changes-conditions now cs touched s)
        | inr (book, known) ↦
            rw (known, apply_changes) (apply_changes-conditions now cs (add c.asset_id touched) _)
      ]

  apply_changes-touches :
      (now : W) (cs : List (PriceChange W)) (touched : List String) (s : MarketData W D)
      (t : String)
      → contains t s.books ≡ true
      → Any (λ (c : PriceChange W). c.asset_id ≡ t) cs
      → member t (apply_changes now cs touched s).0 ≡ true
  unfolding apply_changes
  apply_changes-touches now [] touched s t h c = elim c [ ]
  apply_changes-touches now (c ∷ cs) touched s t h (inl e) =
      elim (Option-cases (lookup c.asset_id s.books)) [
        | inl unknown ↦ absurd (ground (arith, unknown, e))
        | inr (book, known) ↦
            rw (known, apply_changes)
              (touched_stays now cs (add c.asset_id touched) _ t (
                ground
                  (arith, member-add c.asset_id t touched, string_eq.same_iff c.asset_id t, e)))
      ]
  apply_changes-touches now (c ∷ cs) touched s t h (inr later) =
      elim (Option-cases (lookup c.asset_id s.books)) [
        | inl unknown ↦
            rw (unknown, apply_changes) (apply_changes-touches now cs touched s t h later)
        | inr (book, known) ↦
            rw (known, apply_changes)
              (apply_changes-touches now cs (add c.asset_id touched) _ t
                (put_book-contains c.asset_id t _ s h) later)
      ]

  wake_tokens-wakes :
      (t cid : String) (ts : List String) (s : MarketData W D)
      → member t ts ≡ true
      → lookup t s.token_condition ≡ some cid
      → (cid == "") ≡ false
      → Any (λ (g : Signal W). g ≡ wakes cid t) (wake_tokens ts s)
  wake_tokens-wakes t cid [] s h e n = cc h
  wake_tokens-wakes t cid (x ∷ xs) s h e n = elim (Bool-cases (x == t)) [
    | inl same ↦
        subst (λ k. Any (λ (g : Signal W). g ≡ wakes cid t) (wake k s ++ wake_tokens xs s))
          (sym ((string_eq.same_iff x t).0 same)) (rw (e, Any, ◌++◌, wake) (rw n (inl refl)))
    | inr other ↦
        Any-append_right (λ (g : Signal W). g ≡ wakes cid t) (wake x s) (wake_tokens xs s)
          (wake_tokens-wakes t cid xs s (rw other at h) e n)
  ]

  -- No wake-up is lost: if a price frame has a change of a token that has a book, the market that the
  -- token belongs to is woken for it.
  pub price_change_wakes :
      (now : W) (cs : List (PriceChange W)) (s : MarketData W D) (t cid : String)
      → contains t s.books ≡ true
      → lookup t s.token_condition ≡ some cid
      → (cid == "") ≡ false
      → Any (λ (c : PriceChange W). c.asset_id ≡ t) cs
      → Any (λ (g : Signal W). g ≡ wakes cid t) (on_price_change now cs s).0
  unfolding on_price_change
  price_change_wakes now cs s t cid h e n c =
      wake_tokens-wakes t cid (apply_changes now cs [] s).0 (apply_changes now cs [] s).1
        (apply_changes-touches now cs [] s t h c) (rw (apply_changes-conditions now cs [] s) e) n
