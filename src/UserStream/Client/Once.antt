-- ===== src/UserStream/Client/Once.antt =====
-- userstream/client.py: over any texts from the socket a match is booked at most once.
use poly_maker.Prelude.{
  ◌&&◌, ◌≡◌, refl, ℕ, true, false, Option, none, some, List, [], ◌∷◌, ◌++◌, String, arith, if-intro,
  Option-cases, inl, inr,
}
use poly_maker.Prelude.Eq.{string_eq}
use poly_maker.Float.{Float}
use poly_maker.Dict.{contains, member, AllDistinct}
use poly_maker.Json.{
  Json, null, truth, number, text, array, object, Fields, Wire, get, is_text, elements,
}
use poly_maker.State.Tracker.{TradeEvent, OrderEvent, Effect, Tracker, on_trade, on_order}
use poly_maker.State.Store.{upsert_order}
use poly_maker.State.Tracker.Once.{
  filled_ids, BooksOnce, BooksOnce-quiet, BooksOnce-append, on_trade-BooksOnce,
}
use poly_maker.UserStream.Client.{
  normalize_order, read_trade, apply_trades, apply_order, market_of, on_message, on_messages,
  on_text,
}

module _ {W : Type 0} ⦃f : Float W⦄ ⦃w : Wire W⦄ (show : ℕ → String)
    (other_token cid_of_token : String → Option String) (address : String) where
  on_order-BooksOnce :
      (now : W) (ev : OrderEvent W) (cid : String) (t : Tracker W)
      → BooksOnce t (on_order now ev cid t)
  unfolding on_order upsert_order
  on_order-BooksOnce now ev cid t = BooksOnce-quiet t _ _ refl (ground arith)

  apply_trades-BooksOnce :
      (now : W) (msg : Fields W) (evs : List (TradeEvent W)) (t : Tracker W)
      → BooksOnce t (apply_trades show other_token cid_of_token address now msg evs t)
  unfolding apply_trades
  apply_trades-BooksOnce now msg [] t = BooksOnce-quiet t t [] refl refl
  apply_trades-BooksOnce now msg (ev ∷ evs) t =
      let cid = market_of show other_token cid_of_token address msg ev.token_id in
      let step = on_trade now ev cid t in
      BooksOnce-append t step.1 _ step.0 _ (on_trade-BooksOnce now ev cid t)
        (apply_trades-BooksOnce now msg evs step.1)

  abbrev IfBooksOnce : Tracker W → Option (List (Effect W) × Tracker W) → Type 0
  IfBooksOnce t none = Unit
  IfBooksOnce t (some r) = BooksOnce t r

  apply_order-BooksOnce :
      (now : W) (msg : Fields W) (ev : Option (OrderEvent W)) (t : Tracker W)
      → BooksOnce t (apply_order show other_token cid_of_token address now msg ev t)
  apply_order-BooksOnce now msg none t = BooksOnce-quiet t t [] refl refl
  apply_order-BooksOnce now msg (some ev) t = on_order-BooksOnce now ev _ t

  on_message-BooksOnce :
      (now : W) (msg : Fields W) (t : Tracker W)
      → IfBooksOnce t (on_message show other_token cid_of_token address now msg t)
  unfolding on_message
  on_message-BooksOnce now msg t =
      if-intro (IfBooksOnce t) (is_text "trade" (get "event_type" msg)) _ _
        (λ _. elim (Option-cases (read_trade show other_token cid_of_token address msg)) [
          | inl raised ↦ rw raised tt
          | inr (evs, e) ↦ rw e (apply_trades-BooksOnce now msg evs t)
        ])
        (λ _.
          if-intro (IfBooksOnce t) (is_text "order" (get "event_type" msg)) _ _
            (λ _. apply_order-BooksOnce now msg (normalize_order msg) t)
            (λ _. BooksOnce-quiet t t [] refl refl))

  on_messages-BooksOnce :
      (now : W) (msgs : List (Json W)) (t : Tracker W)
      → BooksOnce t (on_messages show other_token cid_of_token address now msgs t)
  unfolding on_messages
  on_messages-BooksOnce now [] t = BooksOnce-quiet t t [] refl refl
  on_messages-BooksOnce now (object msg ∷ msgs) t =
      let step = on_message-BooksOnce now msg t in
      elim (Option-cases (on_message show other_token cid_of_token address now msg t)) [
        | inl raised ↦ rw (raised, on_messages) (BooksOnce-quiet t t [] refl refl)
        | inr (r, e) ↦
            rw (e, on_messages)
              (BooksOnce-append t r.1 _ r.0 _ (rw e at step) (on_messages-BooksOnce now msgs r.1))
      ]
  on_messages-BooksOnce now (null ∷ msgs) t = on_messages-BooksOnce now msgs t
  on_messages-BooksOnce now (truth b ∷ msgs) t = on_messages-BooksOnce now msgs t
  on_messages-BooksOnce now (number x ∷ msgs) t = on_messages-BooksOnce now msgs t
  on_messages-BooksOnce now (text s ∷ msgs) t = on_messages-BooksOnce now msgs t
  on_messages-BooksOnce now (array xs ∷ msgs) t = on_messages-BooksOnce now msgs t

  on_text-BooksOnce :
      (now : W) (raw : Option (Json W)) (t : Tracker W)
      → BooksOnce t (on_text show other_token cid_of_token address now raw t)
  on_text-BooksOnce now none t = BooksOnce-quiet t t [] refl refl
  on_text-BooksOnce now (some (array xs)) t = on_messages-BooksOnce now (elements xs) t
  on_text-BooksOnce now (some null) t = on_messages-BooksOnce now (null ∷ []) t
  on_text-BooksOnce now (some (truth b)) t = on_messages-BooksOnce now (truth b ∷ []) t
  on_text-BooksOnce now (some (number x)) t = on_messages-BooksOnce now (number x ∷ []) t
  on_text-BooksOnce now (some (text s)) t = on_messages-BooksOnce now (text s ∷ []) t
  on_text-BooksOnce now (some (object msg)) t = on_messages-BooksOnce now (object msg ∷ []) t

  -- The texts that the socket delivers, each with the time it is handled at
  abbrev pub run_stream : List (W × Option (Json W)) → Tracker W → List (Effect W) × Tracker W
  run_stream [] t = ([], t)
  run_stream ((now, raw) ∷ raws) t =
      let (es, t') = on_text show other_token cid_of_token address now raw t in
      let (rest, last) = run_stream raws t' in (es ++ rest, last)

  run_stream-BooksOnce :
      (raws : List (W × Option (Json W))) (t : Tracker W) → BooksOnce t (run_stream raws t)
  run_stream-BooksOnce [] t = BooksOnce-quiet t t [] refl refl
  run_stream-BooksOnce ((now, raw) ∷ raws) t =
      let step = on_text show other_token cid_of_token address now raw t in
      BooksOnce-append t step.1 _ step.0 _ (on_text-BooksOnce now raw t)
        (run_stream-BooksOnce raws step.1)

  -- From the socket to the store: whatever texts arrive, JSON or not, with trades and order updates in
  -- any order, repeated or malformed, the fill callback runs at most once for a trade id, never for
  -- one that the table held before, and each id it ran for is in the table at the end.
  pub stream_booked_once :
      (raws : List (W × Option (Json W))) (t : Tracker W)
      → AllDistinct (filled_ids (run_stream raws t).0)
        × ((i : String)
            → (contains i t.store.fills && member i (filled_ids (run_stream raws t).0)) ≡ false)
        × ((i : String)
            → member i (filled_ids (run_stream raws t).0) ≡ true
            → contains i (run_stream raws t).1.store.fills ≡ true)
  stream_booked_once raws t =
      let b = run_stream-BooksOnce raws t in (b.distinct, λ i. ground (arith, b.fresh i), b.booked)
