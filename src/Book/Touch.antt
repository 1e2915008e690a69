-- ===== src/Book/Touch.antt =====
-- marketdata/orderbook.py: the touch of a book, and the best, second and depth figures of a view.
use mathlib.Core.List.{reverse, reverse-reverse, reverse-cons}
use mathlib.Core.Path.{subst}
use mathlib.Core.Option.{some-injective}
use poly_maker.Prelude.{
  ◌≡◌, refl, true, Option, none, some, List, [], ◌∷◌, ◌++◌, arith, zero, suc, ℕ, All, inl, inr,
  Bool-cases, sym, ap, ◌∙◌,
}
use poly_maker.Float.{Float, num, ◌⊕◌, ◌⊖◌, ◌⊗◌, ◌⊘◌, ◌<?◌, ◌≼◌, fsum}
use poly_maker.Float.Laws.{IsOrdered, le_of_lt, lt_irrefl, lt_of_le_of_lt, lt_of_lt_of_le}
use poly_maker.SortedDict.{SortedDict, IsSortedDict, Above, IsAscending}
use poly_maker.Book.{
  OrderBook, BookLevel, best_bid, best_ask, first_level, nth_level, sizes_within, depth_within,
  view, bids_down, asks_up, price_of,
}
use poly_maker.Book.Order.{
  IsDescending, AllPositive, reverse-IsDescending, reverse-AllPositive, All-reverse, Above-All,
}
use poly_maker.Book.Levels.{IsLive}

module _ {W : Type 0} ⦃f : Float W⦄ (o : IsOrdered W) where
  open o use {le_refl}

  weaken : (P Q : W × W → Type 0) (l : List (W × W)) → ((x : W × W) → P x → Q x) → All P l → All Q l
  weaken P Q [] h a = tt
  weaken P Q (x ∷ l) h a = (h x a.0, weaken P Q l h a.1)

  Above-le : (p : W) (l : List (W × W)) → Above p l → All (λ (x : W × W). p ≼ x.0) l
  Above-le p [] a = tt
  Above-le p ((q, s) ∷ l) a = (le_of_lt o p q a.0, Above-le p l a.1)

  descending_top :
      (l : List (W × W)) (top : BookLevel W)
      → IsDescending l
      → first_level l ≡ some top
      → All (λ (x : W × W). x.0 ≼ top.price) l
  descending_top [] top h e = cc
  descending_top ((p, s) ∷ l) top h e =
      subst (λ (t : BookLevel W). All (λ (x : W × W). x.0 ≼ t.price) ((p, s) ∷ l))
        (some-injective _ _ e)
        (
          le_refl p,
          weaken (λ (x : W × W). (x.0 <? p) ≡ true) (λ (x : W × W). x.0 ≼ p) l
              (λ x. le_of_lt o x.0 p) h.0,
        )

  ascending_top :
      (l : List (W × W)) (top : BookLevel W)
      → IsAscending l
      → first_level l ≡ some top
      → All (λ (x : W × W). top.price ≼ x.0) l
  ascending_top [] top h e = cc
  ascending_top ((p, s) ∷ l) top h e =
      subst (λ (t : BookLevel W). All (λ (x : W × W). t.price ≼ x.0) ((p, s) ∷ l))
        (some-injective _ _ e) (le_refl p, Above-le p l h.0)

  -- What holds of every level holds of the one found.
  nth_level-All :
      (P : W → Type 0) (n : ℕ) (min_size : W) (l : List (W × W)) (lv : BookLevel W)
      → All (λ (x : W × W). P x.0) l
      → nth_level n min_size l ≡ some lv
      → P lv.price
  nth_level-All P n min_size [] lv a e = cc
  nth_level-All P zero min_size ((q, s) ∷ l) lv a e = elim (Bool-cases (min_size <? s)) [
    | inl here ↦ subst (λ (t : BookLevel W). P t.price) (some-injective _ _ (rw here at e)) a.0
    | inr later ↦ nth_level-All P zero min_size l lv a.1 (rw later at e)
  ]
  nth_level-All P (suc n) min_size ((q, s) ∷ l) lv a e = elim (Bool-cases (min_size <? s)) [
    | inl here ↦ nth_level-All P n min_size l lv a.1 (rw here at e)
    | inr later ↦ nth_level-All P (suc n) min_size l lv a.1 (rw later at e)
  ]

  second-lt-first :
      (min_size : W) (l : List (W × W)) (first second : BookLevel W)
      → IsDescending l
      → nth_level 0 min_size l ≡ some first
      → nth_level 1 min_size l ≡ some second
      → (second.price <? first.price) ≡ true
  second-lt-first min_size [] first second h e k = cc
  second-lt-first min_size ((p, s) ∷ l) first second h e k = ground (
    arith,
    second-lt-first min_size l first second h.1,
    nth_level-All (λ (q : W). (q <? p) ≡ true) 0 min_size l second h.0,
  )

  first-lt-second :
      (min_size : W) (l : List (W × W)) (first second : BookLevel W)
      → IsAscending l
      → nth_level 0 min_size l ≡ some first
      → nth_level 1 min_size l ≡ some second
      → (first.price <? second.price) ≡ true
  first-lt-second min_size [] first second h e k = cc
  first-lt-second min_size ((p, s) ∷ l) first second h e k = ground (
    arith,
    first-lt-second min_size l first second h.1,
    nth_level-All (λ (q : W). (p <? q) ≡ true) 0 min_size l second (Above-All p l h.0),
  )

  first_level-eq-nth_level :
      (l : List (W × W)) → AllPositive l → nth_level 0 (num 0) l ≡ first_level l
  first_level-eq-nth_level [] a = refl
  first_level-eq-nth_level (x ∷ l) a = rw a.0

  sizes_within-append :
      (lo hi : W) (xs ys : List (W × W))
      → sizes_within lo hi (xs ++ ys) ≡ sizes_within lo hi xs ++ sizes_within lo hi ys
  sizes_within-append lo hi [] ys = refl
  sizes_within-append lo hi ((p, s) ∷ xs) ys = ground (arith, sizes_within-append lo hi xs ys)

  sizes_within-below :
      (lo hi : W) (l : List (W × W))
      → All (λ (x : W × W). (x.0 <? lo) ≡ true) l
      → sizes_within lo hi l ≡ []
  sizes_within-below lo hi [] a = refl
  sizes_within-below lo hi ((p, s) ∷ l) a =
      ground (arith, sizes_within-below lo hi l a.1, lt_of_le_of_lt o lo p lo, lt_irrefl o lo)

  sizes_within-above :
      (lo hi : W) (l : List (W × W))
      → All (λ (x : W × W). (hi <? x.0) ≡ true) l
      → sizes_within lo hi l ≡ []
  sizes_within-above lo hi [] a = refl
  sizes_within-above lo hi ((p, s) ∷ l) a =
      ground (arith, sizes_within-above lo hi l a.1, lt_of_lt_of_le o hi p hi, lt_irrefl o hi)

  sizes_within-highest :
      (hi : W) (l r : List (W × W)) (top : BookLevel W)
      → reverse l ≡ r
      → IsDescending r
      → first_level r ≡ some top
      → top.price ≼ hi
      → sizes_within top.price hi l ≡ top.size ∷ []
  sizes_within-highest hi l [] top e d k h = cc
  sizes_within-highest hi l ((p, s) ∷ r) top e d k h =
      let back : l ≡ reverse r ++ ((p, s) ∷ []) =
        sym (reverse-reverse l) ∙ ap reverse e ∙ reverse-cons (p, s) r in
      let last = some-injective _ _ k in
      rw (back, ← last, sizes_within-append)
        (ground (
          arith,
          le_refl p,
          sizes_within-below p hi (reverse r)
              (All-reverse (λ (x : W × W). (x.0 <? p) ≡ true) r d.0),
          rw (← last) at h,
        ))

  sizes_within-lowest :
      (lo : W) (l : List (W × W)) (top : BookLevel W)
      → IsAscending l
      → first_level l ≡ some top
      → lo ≼ top.price
      → sizes_within lo top.price l ≡ top.size ∷ []
  sizes_within-lowest lo [] top d k h = cc
  sizes_within-lowest lo ((p, s) ∷ l) top d k h =
      subst (λ (t : BookLevel W). lo ≼ t.price → sizes_within lo t.price ((p, s) ∷ l) ≡ t.size ∷ [])
        (some-injective _ _ k)
        (λ low. ground (arith, le_refl p, sizes_within-above lo p l (Above-All p l d.0))) h

module _ {W D : Type 0} ⦃f : Float W⦄ ⦃d : SortedDict W D⦄ (o : IsOrdered W)
    (sd : IsSortedDict W D) where
  open sd use {items-IsAscending}

  bids_down-IsDescending : (b : OrderBook W D) → IsDescending (bids_down b)
  bids_down-IsDescending b = reverse-IsDescending (d.items b.bids) (items-IsAscending b.bids)

  -- No bid of the book is above the best bid, and no ask is below the best ask.
  pub best_levels_bound :
      (b : OrderBook W D) (bb ba : BookLevel W)
      → best_bid b ≡ some bb
      → best_ask b ≡ some ba
      → All (λ (x : W × W). x.0 ≼ bb.price) (d.items b.bids)
        × All (λ (x : W × W). ba.price ≼ x.0) (d.items b.asks)
  unfolding best_bid best_ask
  best_levels_bound b bb ba e k = (
    subst (All λ (x : W × W). x.0 ≼ bb.price) (reverse-reverse (d.items b.bids)) (
        All-reverse (λ (x : W × W). x.0 ≼ bb.price) (bids_down b)
          (descending_top o (bids_down b) bb (bids_down-IsDescending b) e)),
    ascending_top o (asks_up b) ba (items-IsAscending b.asks) k,
  )

  -- In a view, whatever the size filter, the second bid is below the best bid and the second ask is
  -- above the best ask, wherever there are two.
  pub view_seconds :
      (b : OrderBook W D) (band min_size bid second_bid ask second_ask : W)
      → (view b band min_size).best_bid ≡ some bid
      → (view b band min_size).second_bid ≡ some second_bid
      → (view b band min_size).best_ask ≡ some ask
      → (view b band min_size).second_ask ≡ some second_ask
      → ((second_bid <? bid) ≡ true) × ((ask <? second_ask) ≡ true)
  unfolding view
  view_seconds b band min_size bid second_bid ask second_ask e1 e2 e3 e4 =
      let (b1, found_b1, price_b1) = price_of-eq (nth_level 0 min_size (bids_down b)) bid e1 in
      let (b2, found_b2, price_b2) =
        price_of-eq (nth_level 1 min_size (bids_down b)) second_bid e2 in
      let (a1, found_a1, price_a1) = price_of-eq (nth_level 0 min_size (asks_up b)) ask e3 in
      let (a2, found_a2, price_a2) = price_of-eq (nth_level 1 min_size (asks_up b)) second_ask e4 in
      (
        ground (
          arith,
          second-lt-first o min_size (bids_down b) b1 b2 (bids_down-IsDescending b) found_b1
              found_b2,
        ),
        ground (
          arith,
          first-lt-second o min_size (asks_up b) a1 a2 (items-IsAscending b.asks) found_a1 found_a2,
        ),
      )
    where
      price_of-eq :
          (l : Option (BookLevel W)) (p : W)
          → price_of l ≡ some p
          → (lv : BookLevel W) × (l ≡ some lv) × (lv.price ≡ p)
      price_of-eq none p e = cc
      price_of-eq (some lv) p e = (lv, refl, some-injective _ _ e)

  -- The depths of an unfiltered view are the sizes at the touch alone: on a book with no empty level
  -- whose band reaches the touch, the bid depth is the best bid's size and the ask depth the best
  -- ask's, whatever rests behind them.
  pub view_depth_is_touch :
      (b : OrderBook W D) (band : W) (bb ba : BookLevel W)
      → IsLive b
      → best_bid b ≡ some bb
      → best_ask b ≡ some ba
      → bb.price ≼ (bb.price ⊕ ba.price) ⊘ num 2 ⊗ (num 1 ⊕ band)
      → (bb.price ⊕ ba.price) ⊘ num 2 ⊗ (num 1 ⊖ band) ≼ ba.price
      → let v = view b band (num 0) in
        (v.bid_depth ≡ num 0 ⊕ bb.size) × (v.ask_depth ≡ num 0 ⊕ ba.size)
  unfolding view best_bid best_ask depth_within
  view_depth_is_touch b band bb ba live e k low high =
      let top =
        first_level-eq-nth_level o (bids_down b) (reverse-AllPositive _ live.bids_live) ∙ e in
      let bottom = first_level-eq-nth_level o (asks_up b) live.asks_live ∙ k in
      rw (top, bottom)
        (
          ap (fsum (num 0)) (
              sizes_within-highest o _ (d.items b.bids) (bids_down b) bb refl
                (bids_down-IsDescending b) e low),
          ap (fsum (num 0))
              (sizes_within-lowest o _ (asks_up b) ba (items-IsAscending b.asks) k high),
        )
