-- ===== src/UserStream/Trades.antt =====
-- userstream/parse.py: the events of a trade message are its maker orders of ours, in order.
use Prim.Native.String.{◌++◌ as text_append}
use mathlib.Core.Option.{some-injective}
use mathlib.Core.Path.{subst}
use poly_maker.Prelude.{
  ap, ◌∙◌, ℕ, ◌+◌, ◌≡◌, ◌≢◌, ◌⊎◌, ◌↔◌, ◌≤◌, ◌<◌, refl, true, false, Option, none, some, List, [],
  ◌∷◌, String, arith, length, inl, inr, Option-cases, Bool-cases,
}
use poly_maker.Prelude.Eq.{◌==◌, string_eq}
use poly_maker.Float.{Float, num, ◌≤?◌}
use poly_maker.Text.{same_text}
use poly_maker.Domain.{Side, buy, sell, TradeState}
use poly_maker.State.Tracker.{TradeEvent}
use poly_maker.UserStream.{
  MakerOrder, TradeMessage, status_of, our_match, same_outcome, other_or, token_and_side, event_of,
  maker_events, normalize_trade,
}

same_outcome_iff : (a b : Option String) → (same_outcome a b ≡ true) ↔ (a ≡ b)
same_outcome_iff none none = ground arith
same_outcome_iff none (some b) = ground arith
same_outcome_iff (some a) none = ground arith
same_outcome_iff (some a) (some b) = ground (arith, string_eq.same_iff a b)

module _ {W : Type 0} ⦃f : Float W⦄ (show : ℕ → String) (other_token : String → Option String)
    (msg : TradeMessage W) (address : String) where
  -- The maker order has our address, and its amount and price are numbers, the amount positive.
  pub record IsOurs (mo : MakerOrder W) (size price : W) : Type 0 where
    pub address_eq : same_text mo.maker_address address ≡ true
    pub matched_amount_eq : mo.matched_amount ≡ some size
    pub price_eq : mo.price ≡ some price
    pub positive : (size ≤? num 0) ≡ false

  -- One of the conditions fails.
  abbrev pub IsOther : MakerOrder W → Type 0
  IsOther mo =
      (same_text mo.maker_address address ≡ false)
      ⊎ (mo.matched_amount ≡ none)
      ⊎ (mo.price ≡ none)
      ⊎ (size : W) × (mo.matched_amount ≡ some size) × ((size ≤? num 0) ≡ true)

  -- The taker's side is `if_sell` where the message says SELL, else `if_not`.
  abbrev pub IsSideFor : Side → Side → Side → Type 0
  IsSideFor if_sell if_not side =
      (same_text msg.side "SELL" ≡ true) × (side ≡ if_sell)
      ⊎ (same_text msg.side "SELL" ≡ false) × (side ≡ if_not)

  -- The other token of the taker's asset, if one that is not empty is known, else the asset itself
  abbrev pub IsOtherToken : String → Type 0
  IsOtherToken token =
      ((u : String) × (other_token msg.asset_id ≡ some u) × (u ≢ "") × (token ≡ u))
      ⊎ ((other_token msg.asset_id ≡ none) ⊎ (other_token msg.asset_id ≡ some ""))
        × (token ≡ msg.asset_id)

  -- On the taker's outcome we take the other side of the taker's trade; on the other outcome we buy as
  -- the taker buys, or sell as the taker sells, the other token.
  abbrev pub IsOurLeg : MakerOrder W → String → Side → Type 0
  IsOurLeg mo token side =
      (mo.outcome ≡ msg.outcome) × (token ≡ msg.asset_id) × IsSideFor buy sell side
      ⊎ (mo.outcome ≢ msg.outcome) × IsOtherToken token × IsSideFor sell buy side

  -- The id of the trade, with the number of the maker order where the message has several
  abbrev pub IsEventId : ℕ → String → Type 0
  IsEventId i id =
      (length msg.maker_orders ≤ 1) × (id ≡ msg.trade_id)
      ⊎ (1 < length msg.maker_orders) × (id ≡ text_append msg.trade_id (text_append ":" (show i)))

  -- The event is the match of the maker order of number `i`.
  pub record IsMatchOf (status : TradeState) (i : ℕ) (mo : MakerOrder W) (ev : TradeEvent W)
      : Type 0 where
    pub ours : IsOurs mo ev.size ev.price
    pub leg : IsOurLeg mo ev.token_id ev.our_side
    pub id : IsEventId i ev.trade_id
    pub status_eq : ev.status ≡ status
    pub ts_eq : ev.ts ≡ msg.ts

  -- The maker orders from number `i`, in order, each give the one event of their match, or are not ours
  -- and give none.
  pub data Gives (status : TradeState)
      : ℕ → List (MakerOrder W) → List (TradeEvent W) → Type 0 where
    ends : {i : ℕ} → Gives status i [] []
    skips :
        {i : ℕ} {mo : MakerOrder W} {mos : List (MakerOrder W)} {evs : List (TradeEvent W)}
        → IsOther mo
        → Gives status (i + 1) mos evs
        → Gives status i (mo ∷ mos) evs
    books :
        {i : ℕ} {mo : MakerOrder W} {mos : List (MakerOrder W)}
        → {ev : TradeEvent W} {evs : List (TradeEvent W)} → IsMatchOf status i mo ev
        → Gives status (i + 1) mos evs
        → Gives status i (mo ∷ mos) (ev ∷ evs)

  our_match-IsOther : (mo : MakerOrder W) → our_match address mo ≡ none → IsOther mo
  unfolding our_match
  our_match-IsOther mo e = elim (Option-cases mo.matched_amount) [
    | inl unread ↦ inr (inl unread)
    | inr (size, read) ↦ elim (Option-cases mo.price) [
      | inl unpriced ↦ inr (inr (inl unpriced))
      | inr (price, priced) ↦ elim (Bool-cases (same_text mo.maker_address address)) [
        | inr other ↦ inl other
        | inl same ↦ elim (Bool-cases (size ≤? num 0)) [
          | inl small ↦ inr (inr (inr (size, read, small)))
          | inr large ↦ cc (rw (read, priced, same, large) at e)
        ]
      ]
    ]
  ]

  our_match-IsOurs :
      (mo : MakerOrder W) (size price : W)
      → our_match address mo ≡ some (size, price)
      → IsOurs mo size price
  unfolding our_match
  our_match-IsOurs mo size price e = elim (Option-cases mo.matched_amount) [
    | inl unread ↦ cc (rw unread at e)
    | inr (n, read) ↦ elim (Option-cases mo.price) [
      | inl unpriced ↦ cc (rw (read, unpriced) at e)
      | inr (p, priced) ↦ elim (Bool-cases (same_text mo.maker_address address)) [
        | inr other ↦ cc (rw (read, priced, other) at e)
        | inl same ↦ elim (Bool-cases (n ≤? num 0)) [
          | inl small ↦ cc (rw (read, priced, same, small) at e)
          | inr large ↦
              let both = some-injective _ _ (rw (read, priced, same, large) at e) in
              record {
                address_eq = same;
                matched_amount_eq = read ∙ ap (λ (m : W × W). some m.0) both;
                price_eq = priced ∙ ap (λ (m : W × W). some m.1) both;
                positive = subst (λ x. (x ≤? num 0) ≡ false) (ap (λ (m : W × W). m.0) both) large;
              }
        ]
      ]
    ]
  ]

  other_or-IsOtherToken : IsOtherToken (other_or (other_token msg.asset_id) msg.asset_id)
  other_or-IsOtherToken = elim (Option-cases (other_token msg.asset_id)) [
    | inl unknown ↦ rw unknown (inr (inl refl, refl))
    | inr (u, known) ↦ elim (Bool-cases (u == "")) [
      | inl empty ↦
          rw (known, empty) (inr (inr (rw ((string_eq.same_iff u "").0 empty) refl), refl))
      | inr full ↦
          rw (known, full) (inl (u, refl, (λ h. cc (full, (string_eq.same_iff u "").1 h)), refl))
    ]
  ]

  token_and_side-IsOurLeg :
      (mo : MakerOrder W)
      → IsOurLeg mo
          (token_and_side show other_token msg mo).0
          (token_and_side show other_token msg mo).1
  token_and_side-IsOurLeg mo = elim (Bool-cases (same_outcome mo.outcome msg.outcome)) [
    | inl same ↦
        rw same (inl ((same_outcome_iff mo.outcome msg.outcome).0 same, refl, ground arith))
    | inr apart ↦ rw apart (
        inr (
          (λ h. cc (apart, (same_outcome_iff mo.outcome msg.outcome).1 h)),
          other_or-IsOtherToken,
          ground arith,
        ))
  ]

  event_of-IsMatchOf :
      (status : TradeState) (i : ℕ) (mo : MakerOrder W) (size price : W)
      → our_match address mo ≡ some (size, price)
      → IsMatchOf status i mo (event_of show other_token msg status i mo (size, price))
  event_of-IsMatchOf status i mo size price e = record {
    ours = our_match-IsOurs mo size price e;
    leg = token_and_side-IsOurLeg mo;
    id = ground arith;
    status_eq = refl;
    ts_eq = refl;
  }

  maker_events-Gives :
      (status : TradeState) (i : ℕ) (mos : List (MakerOrder W))
      → Gives status i mos (maker_events show other_token msg address status i mos)
  unfolding maker_events
  maker_events-Gives status i [] = ends
  maker_events-Gives status i (mo ∷ mos) =
      let rest = maker_events-Gives status (i + 1) mos in
      elim (Option-cases (our_match address mo)) [
        | inl other ↦ rw (other, maker_events) (skips (our_match-IsOther mo other) rest)
        | inr ((size, price), found) ↦
            rw (found, maker_events) (books (event_of-IsMatchOf status i mo size price found) rest)
      ]

  -- A message of unknown status gives no event. Else its maker orders, in order, each give one event if
  -- they have our address, an amount and a price that parse and a positive amount, and none if not. The
  -- event has that amount and price, the message's time and status, and the trade's id, numbered where
  -- there are several maker orders. On the taker's outcome it is on the taker's asset, against the
  -- taker's side; across outcomes it is on the other token, if known, with the taker's side.
  pub normalize_trade_lem :
      let evs = normalize_trade show other_token msg address in
      (status_of msg.status ≡ none) × (evs ≡ [])
      ⊎ (status : TradeState) × (status_of msg.status ≡ some status)
        × Gives status 0 msg.maker_orders evs
  unfolding normalize_trade
  normalize_trade_lem = elim (Option-cases (status_of msg.status)) [
    | inl unknown ↦ inl (unknown, rw (unknown, normalize_trade) refl)
    | inr (status, known) ↦
        inr (
          status,
          known,
          rw (known, normalize_trade) (maker_events-Gives status 0 msg.maker_orders),
        )
  ]
