-- ===== src/Book/Levels.antt =====
-- marketdata/orderbook.py: what the updates of a book do to its levels, and the touch.
use poly_maker.Prelude.{
  ◌≡◌, refl, true, ◌&&◌, Option, none, some, List, [], ◌∷◌, String, arith, if◌then◌else◌, inl, inr,
  Bool-cases,
}
use poly_maker.Float.{Float, num, ◌≤?◌, ◌<?◌, ◌=?◌}
use poly_maker.Float.Laws.{IsOrdered, lt_of_not_le}
use poly_maker.SortedDict.{SortedDict, IsSortedDict, value_at}
use poly_maker.Domain.{Side, buy, sell, is_buy}
use poly_maker.Book.{OrderBook, apply_snapshot, apply_delta, load_levels, set_level}
use poly_maker.Book.Order.{AllPositive, All-value_at, value_at_of_All}

module _ {W D : Type 0} ⦃f : Float W⦄ ⦃d : SortedDict W D⦄ where
  -- No level of the book is empty.
  pub record IsLive (b : OrderBook W D) : Type 0 where
    pub bids_live : AllPositive (d.items b.bids)
    pub asks_live : AllPositive (d.items b.asks)

  module _ (o : IsOrdered W) (sd : IsSortedDict W D) where
    open sd use {items-empty, items-IsAscending, value_at-put, value_at-pop}

    set_level-value_at :
        (p s q : W) (b : D)
        → value_at q (d.items (set_level p s b))
          ≡ (if p =? q then (if s ≤? num 0 then none else some s) else value_at q (d.items b))
    set_level-value_at p s q b = ground (arith, value_at-put p s q b, value_at-pop p q b)

    -- A price change sets exactly the level that it names: the size at that price of that side
    -- becomes the one given, or the level goes if the size is zero or less, and every other level of
    -- both sides stays as it was.
    pub apply_delta_levels :
        (now : W) (side : Side) (p s ts q : W) (b : OrderBook W D)
        → let b' = apply_delta now side p s ts b in
          let new = if s ≤? num 0 then none else some s in
          (value_at q (d.items b'.bids)
            ≡ (if is_buy side && (p =? q) then new else value_at q (d.items b.bids)))
          × (value_at q (d.items b'.asks) ≡ (
              if is_buy side
              then value_at q (d.items b.asks)
              else if p =? q
              then new
              else value_at q (d.items b.asks)))
    unfolding apply_delta
    apply_delta_levels now buy p s ts q b = (set_level-value_at p s q b.bids, refl)
    apply_delta_levels now sell p s ts q b = (refl, set_level-value_at p s q b.asks)

    AllPositive-put :
        (p s : W) (b : D)
        → (num 0 <? s) ≡ true
        → AllPositive (d.items b)
        → AllPositive (d.items (d.put p s b))
    AllPositive-put p s b h a =
        All-value_at o (λ (x : W). (num 0 <? x) ≡ true) _ (items-IsAscending (d.put p s b))
          λ q t e. ground (
            arith,
            value_at-put p s q b,
            value_at_of_All o (λ (x : W). (num 0 <? x) ≡ true) (d.items b) q t a,
          )

    AllPositive-pop : (p : W) (b : D) → AllPositive (d.items b) → AllPositive (d.items (d.pop p b))
    AllPositive-pop p b a =
        All-value_at o (λ (x : W). (num 0 <? x) ≡ true) _ (items-IsAscending (d.pop p b))
          λ q t e. ground (
            arith,
            value_at-pop p q b,
            value_at_of_All o (λ (x : W). (num 0 <? x) ≡ true) (d.items b) q t a,
          )

    set_level-AllPositive :
        (p s : W) (b : D) → AllPositive (d.items b) → AllPositive (d.items (set_level p s b))
    set_level-AllPositive p s b a = elim (Bool-cases (s ≤? num 0)) [
      | inl gone ↦ rw gone (AllPositive-pop p b a)
      | inr held ↦ rw held (AllPositive-put p s b (lt_of_not_le o s (num 0) held) a)
    ]

    load_levels-AllPositive :
        (b : D) (l : List (W × W))
        → AllPositive (d.items b)
        → AllPositive (d.items (load_levels b l))
    load_levels-AllPositive b [] a = a
    load_levels-AllPositive b ((p, s) ∷ l) a = elim (Bool-cases (num 0 <? s)) [
      | inl held ↦ rw held (load_levels-AllPositive (d.put p s b) l (AllPositive-put p s b held a))
      | inr gone ↦ rw gone (load_levels-AllPositive b l a)
    ]

    -- A snapshot, whatever it holds, leaves a book with no empty level.
    pub apply_snapshot-IsLive :
        (now : W) (bids asks : List (W × W)) (ts : W) (h : Option String) (b : OrderBook W D)
        → IsLive (apply_snapshot now bids asks ts h b)
    unfolding apply_snapshot
    apply_snapshot-IsLive now bids asks ts h b = record {
      bids_live = load_levels-AllPositive d.empty bids (rw items-empty tt);
      asks_live = load_levels-AllPositive d.empty asks (rw items-empty tt);
    }

    -- A price change keeps a book free of empty levels.
    pub apply_delta-IsLive :
        (now : W) (side : Side) (p s ts : W) (b : OrderBook W D)
        → IsLive b
        → IsLive (apply_delta now side p s ts b)
    unfolding apply_delta
    apply_delta-IsLive now buy p s ts b v = record {
      bids_live = set_level-AllPositive p s b.bids v.bids_live;
      asks_live = v.asks_live;
    }
    apply_delta-IsLive now sell p s ts b v = record {
      bids_live = v.bids_live;
      asks_live = set_level-AllPositive p s b.asks v.asks_live;
    }
