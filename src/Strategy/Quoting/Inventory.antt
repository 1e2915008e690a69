-- ===== src/Strategy/Quoting/Inventory.antt =====
-- strategy/quoting.py: how regime and inventory decide which side is quoted, and equal-share entries.
use poly_maker.Prelude.{
  ◌≡◌, ◌⊎◌, refl, Bool, true, false, ◌&&◌, Option, none, some, [], ◌++◌, String, All, All-append,
  inl, inr, Bool-cases, arith,
}
use poly_maker.Float.{Float, ◌<?◌, fmin}
use poly_maker.Domain.{sell, Quote, yes_token, no_token}
use poly_maker.Strategy.Quoting.{
  QuoteInputs, adds_inventory, inventory_share, yes_entry, no_entry, equalize, entry_layers,
  entry_quotes, exit_quotes, construct_quotes,
}
use poly_maker.Strategy.Quoting.Quotes.{
  weaken, IsEntry, entry_size, shares_of, entry_layers-IsEntry, exit_quotes-sells,
  construct_quotes-All,
}

module _ {W : Type 0} ⦃f : Float W⦄ (inp : QuoteInputs W) where
  abbrev IsSell : Quote W → Type 0
  IsSell q = q.side ≡ sell

  yes_entry-none :
      ((adds_inventory inp.regime && (inventory_share inp <? inp.profile.q_soft_frac)) ≡ false)
      → yes_entry inp ≡ none
  unfolding yes_entry
  yes_entry-none h = rw h refl

  no_entry-none :
      ((adds_inventory inp.regime && (f.neg inp.profile.q_soft_frac <? inventory_share inp))
        ≡ false)
      → no_entry inp ≡ none
  unfolding no_entry
  no_entry-none h = rw h refl

  equalize-none_left : (b : Bool) (n : Option (W × W)) → equalize b none n ≡ (none, n)
  equalize-none_left true n = refl
  equalize-none_left false n = refl

  equalize-none_right : (b : Bool) (y : Option (W × W)) → equalize b y none ≡ (y, none)
  equalize-none_right true none = refl
  equalize-none_right true (some y) = refl
  equalize-none_right false y = refl

  abbrev IsBuyOf : String → Quote W → Type 0
  IsBuyOf token q = (q.side ≡ sell) ⊎ (q.token_id ≡ token)

  layers-IsBuyOf :
      (token : String) (e : Option (W × W)) → All (IsBuyOf token) (entry_layers inp token e)
  layers-IsBuyOf token e =
      weaken (IsEntry inp.meta token (entry_size inp (shares_of e))) (IsBuyOf token) _
        (λ q h. inr h.layer.token_eq) (entry_layers-IsEntry inp token e).0

  without_yes : yes_entry inp ≡ none → All (IsBuyOf (no_token inp.meta)) (entry_quotes inp)
  unfolding entry_quotes entry_layers
  without_yes h =
      rw (h, equalize-none_left inp.profile.equal_share_entries (no_entry inp))
        (layers-IsBuyOf (no_token inp.meta) (no_entry inp))

  without_no : no_entry inp ≡ none → All (IsBuyOf (yes_token inp.meta)) (entry_quotes inp)
  unfolding entry_quotes entry_layers
  without_no h =
      rw (h, equalize-none_right inp.profile.equal_share_entries (yes_entry inp))
        (All-append (IsBuyOf (yes_token inp.meta)) _ []
          (layers-IsBuyOf (yes_token inp.meta) (yes_entry inp)) tt)

  exits-IsBuyOf : (token : String) → All (IsBuyOf token) (exit_quotes inp)
  exits-IsBuyOf token = weaken IsSell (IsBuyOf token) _ (λ q h. inl h) (exit_quotes-sells inp).0

  pub buys_stop_at_cap :
      (((inventory_share inp <? inp.profile.q_soft_frac) ≡ true)
        ⊎ All
            (λ (q : Quote W). (q.side ≡ sell) ⊎ (q.token_id ≡ no_token inp.meta))
            (construct_quotes inp).quotes)
      × (((f.neg inp.profile.q_soft_frac <? inventory_share inp) ≡ true)
          ⊎ All
              (λ (q : Quote W). (q.side ≡ sell) ⊎ (q.token_id ≡ yes_token inp.meta))
              (construct_quotes inp).quotes)
  buys_stop_at_cap = (
    elim (Bool-cases (inventory_share inp <? inp.profile.q_soft_frac)) [
      | inl below ↦ inl below
      | inr h ↦ inr (
          construct_quotes-All inp (IsBuyOf (no_token inp.meta))
            (without_yes (yes_entry-none (ground arith))) (exits-IsBuyOf (no_token inp.meta)))
    ],
    elim (Bool-cases (f.neg inp.profile.q_soft_frac <? inventory_share inp)) [
      | inl above ↦ inl above
      | inr h ↦ inr (
          construct_quotes-All inp (IsBuyOf (yes_token inp.meta))
            (without_no (no_entry-none (ground arith))) (exits-IsBuyOf (yes_token inp.meta)))
    ],
  )

  -- In a regime that may not add inventory (REDUCE_ONLY) every quote is a sale.
  pub reduce_only_sells :
      adds_inventory inp.regime ≡ false
      → All (λ (q : Quote W). q.side ≡ sell) (construct_quotes inp).quotes
  unfolding entry_quotes entry_layers
  reduce_only_sells h =
      construct_quotes-All inp IsSell
        (rw
          (
            yes_entry-none (rw h refl),
            no_entry-none (rw h refl),
            equalize-none_left inp.profile.equal_share_entries none,
          )
          tt)
        (exit_quotes-sells inp).0

  abbrev IsSized : W → Quote W → Type 0
  IsSized s q = (q.side ≡ sell) ⊎ (q.size ≡ s)

  layers-IsSized :
      (token : String) (e : Option (W × W))
      → All (IsSized (entry_size inp (shares_of e))) (entry_layers inp token e)
  layers-IsSized token e =
      weaken (IsEntry inp.meta token (entry_size inp (shares_of e)))
        (IsSized (entry_size inp (shares_of e))) _ (λ q h. inr h.layer.size_eq)
        (entry_layers-IsEntry inp token e).0

  equalized_sizes :
      (b : Bool) (y n : Option (W × W))
      → b ≡ true
      → let e = equalize b y n in
        (s : W) × All
          (IsSized s)
          (entry_layers inp (yes_token inp.meta) e.0 ++ entry_layers inp (no_token inp.meta) e.1)
  unfolding entry_layers
  equalized_sizes false y n h = absurd (ground arith)
  equalized_sizes true none n h =
      (entry_size inp (shares_of n), layers-IsSized (no_token inp.meta) n)
  equalized_sizes true (some y) none h = (
    entry_size inp y.1,
    All-append (IsSized (entry_size inp y.1)) _ [] (layers-IsSized (yes_token inp.meta) (some y))
        tt,
  )
  equalized_sizes true (some y) (some n) h =
      let shared = fmin y.1 n.1 in
      (
        entry_size inp shared,
        All-append (IsSized (entry_size inp shared)) _ _
            (layers-IsSized (yes_token inp.meta) (some (y.0, shared)))
            (layers-IsSized (no_token inp.meta) (some (n.0, shared))),
      )

  -- With equal-share entries every buy order, on either token and at every layer, has the same size.
  pub equal_share_sizes :
      inp.profile.equal_share_entries ≡ true
      → (s : W) × All
          (λ (q : Quote W). (q.side ≡ sell) ⊎ (q.size ≡ s))
          (construct_quotes inp).quotes
  unfolding entry_quotes
  equal_share_sizes h =
      let (s, sizes) =
        equalized_sizes inp.profile.equal_share_entries (yes_entry inp) (no_entry inp) h in
      (
        s,
        construct_quotes-All inp (IsSized s) sizes
            (weaken IsSell (IsSized s) _ (λ q k. inl k) (exit_quotes-sells inp).0),
      )
