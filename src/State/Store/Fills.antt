-- ===== src/State/Store/Fills.antt =====
-- state/store.py: `apply_fill` is idempotent and touches only the fill's own token.
use mathlib.Core.Path.{subst}
use poly_maker.Prelude.{
  ◌≡◌, ◌⊎◌, refl, true, false, some, String, arith, if◌then◌else◌, inl, inr, Bool-cases,
}
use poly_maker.Prelude.Eq.{◌==◌, string_eq}
use poly_maker.Float.{Float, num, ◌⊕◌, ◌⊗◌, ◌⊘◌, ◌≤?◌, ◌≼◌, fmax}
use poly_maker.Float.Laws.{IsOrdered, IsMonotone, le-fmax_left, le-fmax_right, fmax-le}
use poly_maker.Dict.{lookup, contains, lookup-insert, lookup-insert_self, contains-insert_self}
use poly_maker.Domain.{Side, buy, sell, Fill, Position}
use poly_maker.State.Store.{StateStore, apply_fill, filled_position, position}

module _ {W : Type 0} ⦃f : Float W⦄ where
  -- After a fill is applied, applying it again (or any fill of the same trade id) is refused and
  -- leaves the store, tables included, as it is.
  pub apply_fill_twice :
      (fill again : Fill W) (s : StateStore W)
      → again.trade_id ≡ fill.trade_id
      → apply_fill again (apply_fill fill s).1 ≡ (false, (apply_fill fill s).1)
  unfolding apply_fill
  apply_fill_twice fill again s e = elim (Bool-cases (contains fill.trade_id s.fills)) [
    | inl old ↦ rw (e, old) (rw old)
    | inr new ↦ rw (e, new) (rw (contains-insert_self fill.trade_id fill s.fills))
  ]

  -- The position after a buy: it grows by the size bought, at the price paid or, where shares were held,
  -- at the average price weighted by size.
  pub record IsBought (fill : Fill W) (old new : Position W) : Type 0 where
    pub size_eq : new.size ≡ fmax (num 0) (old.size ⊕ fill.size)
    pub grows : old.size ≼ new.size
    pub avg_price_eq :
        ((new.size ≤? num 0) ≡ true) × (new.avg_price ≡ num 0)
        ⊎ ((new.size ≤? num 0) ≡ false)
          × ((old.size ≤? num 0) ≡ true)
          × (new.avg_price ≡ fill.price)
        ⊎ ((new.size ≤? num 0) ≡ false)
          × ((old.size ≤? num 0) ≡ false)
          × (new.avg_price
              ≡ (old.avg_price ⊗ old.size ⊕ fill.price ⊗ fill.size) ⊘ (old.size ⊕ fill.size))

  -- The position after a sell: it shrinks by the size sold, to zero at the least, and keeps its average
  -- price until it is flat.
  pub record IsSold (fill : Fill W) (old new : Position W) : Type 0 where
    pub size_eq : new.size ≡ fmax (num 0) (old.size ⊕ f.neg fill.size)
    pub shrinks : new.size ≼ fmax (num 0) old.size
    pub avg_price_eq :
        ((new.size ≤? num 0) ≡ true) × (new.avg_price ≡ num 0)
        ⊎ ((new.size ≤? num 0) ≡ false) × (new.avg_price ≡ old.avg_price)

  abbrev pub IsFilled : Fill W → Position W → Position W → Type 0
  IsFilled fill old new =
      (fill.side ≡ buy) × IsBought fill old new ⊎ (fill.side ≡ sell) × IsSold fill old new

  -- What a new fill leaves of the store at the token `t`
  pub record IsApplied (fill : Fill W) (s s' : StateStore W) (t : String) : Type 0 where
    pub filled : IsFilled fill (position fill.token_id s) (position fill.token_id s')
    pub positions_eq :
        lookup t s'.positions
        ≡ (if fill.token_id == t then some (position fill.token_id s') else lookup t s.positions)
    pub last_fill_ts_eq :
        lookup t s'.last_fill_ts
        ≡ (if fill.token_id == t then some fill.ts else lookup t s.last_fill_ts)
    pub recorded : lookup fill.trade_id s'.fills ≡ some fill
    pub orders_eq : s'.orders ≡ s.orders
    pub inflight_eq : s'.inflight ≡ s.inflight
    pub inflight_ts_eq : s'.inflight_ts ≡ s.inflight_ts

  module _ (o : IsOrdered W) (m : IsMonotone W) where
    open o use {le_refl, le_trans}
    open m use {add_mono, add-zero, neg_nonpos}

    add-grows : (a b : W) → num 0 ≼ b → a ≼ a ⊕ b
    add-grows a b h = subst (λ x. x ≼ a ⊕ b) (add-zero a) (add_mono a a (num 0) b (le_refl a) h)

    add_neg-shrinks : (a b : W) → num 0 ≼ b → a ⊕ f.neg b ≼ a
    add_neg-shrinks a b h =
        subst (λ x. a ⊕ f.neg b ≼ x) (add-zero a)
          (add_mono a a (f.neg b) (num 0) (le_refl a) (neg_nonpos b h))

    fmax_mono : (z a b : W) → a ≼ b → fmax z a ≼ fmax z b
    fmax_mono z a b h =
        fmax-le o z a (fmax z b) (le-fmax_left o z b)
          (le_trans a b (fmax z b) h (le-fmax_right o z b))

    filled_position-IsBought :
        (fill : Fill W) (p : Position W)
        → fill.side ≡ buy
        → num 0 ≼ fill.size
        → IsBought fill p (filled_position fill p)
    unfolding filled_position
    filled_position-IsBought fill p b h = rw b (record {
      size_eq = refl;
      grows =
          le_trans p.size (p.size ⊕ fill.size) _ (add-grows p.size fill.size h)
            (le-fmax_right o (num 0) (p.size ⊕ fill.size));
      avg_price_eq = ground arith;
    })

    filled_position-IsSold :
        (fill : Fill W) (p : Position W)
        → fill.side ≡ sell
        → num 0 ≼ fill.size
        → IsSold fill p (filled_position fill p)
    unfolding filled_position
    filled_position-IsSold fill p b h = rw b (record {
      size_eq = refl;
      shrinks = fmax_mono (num 0) _ _ (add_neg-shrinks p.size fill.size h);
      avg_price_eq = ground arith;
    })

    filled_position-IsFilled :
        (fill : Fill W) (p : Position W)
        → num 0 ≼ fill.size
        → IsFilled fill p (filled_position fill p)
    filled_position-IsFilled fill p h = by_side fill.side refl
      where
        by_side : (side : Side) → fill.side ≡ side → IsFilled fill p (filled_position fill p)
        by_side buy e = inl (e, filled_position-IsBought fill p e h)
        by_side sell e = inr (e, filled_position-IsSold fill p e h)

    fresh-IsApplied :
        (fill : Fill W) (s : StateStore W) (t : String)
        → num 0 ≼ fill.size
        → contains fill.trade_id s.fills ≡ false
        → IsApplied fill s (apply_fill fill s).1 t
    unfolding apply_fill
    fresh-IsApplied fill s t h new =
        let made = filled_position fill (position fill.token_id s) in
        let found = lookup-insert_self fill.token_id made s.positions in
        rw new (record {
          filled = rw found (filled_position-IsFilled fill (position fill.token_id s) h);
          positions_eq = rw found (lookup-insert fill.token_id t made s.positions);
          last_fill_ts_eq = lookup-insert fill.token_id t fill.ts s.last_fill_ts;
          recorded = lookup-insert_self fill.trade_id fill s.fills;
          orders_eq = refl;
          inflight_eq = refl;
          inflight_ts_eq = refl;
        })

    -- A fill whose trade id is known is refused and changes nothing. A new one, of a size of zero or
    -- more, is accepted and recorded: a buy adds its size to the position of its token, which never
    -- shrinks, at its price or the average weighted by size; a sell takes its size away, down to zero,
    -- so it ends at most at what it was (or zero), and keeps the average price; a flat position has average price
    -- zero. The time of the token's last fill becomes the fill's. The positions and times of other
    -- tokens, the orders and the in-flight guards stay.
    pub apply_fill_lem :
        (fill : Fill W) (s : StateStore W) (t : String)
        → num 0 ≼ fill.size
        → (contains fill.trade_id s.fills ≡ true) × (apply_fill fill s ≡ (false, s))
          ⊎ (contains fill.trade_id s.fills ≡ false)
            × ((apply_fill fill s).0 ≡ true)
            × IsApplied fill s (apply_fill fill s).1 t
    unfolding apply_fill
    apply_fill_lem fill s t h = elim (Bool-cases (contains fill.trade_id s.fills)) [
      | inl old ↦ inl (old, rw old refl)
      | inr new ↦ inr (new, rw new refl, fresh-IsApplied fill s t h new)
    ]
