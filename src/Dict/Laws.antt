-- ===== src/Dict/Laws.antt =====
-- The laws of dictionaries and sets, in `if` form, with no side condition.
use poly_maker.Prelude.{
  ◌≡◌, refl, true, false, ◌||◌, none, some, List, [], ◌∷◌, ◌++◌, ◌≢◌, arith, if◌then◌else◌, All,
  Bool-cases, inl, inr,
}
use poly_maker.Prelude.Eq.{Eq, ◌==◌, same_self}
use poly_maker.Dict.Defs.{
  Dict, lookup, contains, insert, remove, keys, values, member, add, discard, AllDistinct,
}

module _ {K : Type 0} ⦃e : Eq K⦄ {V : Type 0} where
  pub lookup-insert :
      (k j : K) (v : V) (d : Dict K V)
      → lookup j (insert k v d) ≡ (if k == j then some v else lookup j d)
  lookup-insert k j v [] = refl
  lookup-insert k j v ((i, w) ∷ d) =
      ground (arith, e.same_iff k j, e.same_iff i k, e.same_iff i j, lookup-insert k j v d)

  pub lookup-remove :
      (k j : K) (d : Dict K V) → lookup j (remove k d) ≡ (if k == j then none else lookup j d)
  lookup-remove k j [] = ground arith
  lookup-remove k j ((i, w) ∷ d) =
      ground (arith, e.same_iff k j, e.same_iff i k, e.same_iff i j, lookup-remove k j d)

  pub lookup-insert_self : (k : K) (v : V) (d : Dict K V) → lookup k (insert k v d) ≡ some v
  lookup-insert_self k v d = ground (arith, lookup-insert k k v d, same_self k)

  pub lookup-remove_self : (k : K) (d : Dict K V) → lookup k (remove k d) ≡ none
  lookup-remove_self k d = ground (arith, lookup-remove k k d, same_self k)

  pub contains-insert_self : (k : K) (v : V) (d : Dict K V) → contains k (insert k v d) ≡ true
  contains-insert_self k v d = ground (arith, lookup-insert_self k v d)

  pub lookup-insert_ne :
      (k j : K) (v : V) (d : Dict K V) → j ≢ k → lookup j (insert k v d) ≡ lookup j d
  lookup-insert_ne k j v d h = ground (arith, lookup-insert k j v d, e.same_iff k j)

  pub lookup-remove_ne : (k j : K) (d : Dict K V) → j ≢ k → lookup j (remove k d) ≡ lookup j d
  lookup-remove_ne k j d h = ground (arith, lookup-remove k j d, e.same_iff k j)

  -- An assignment adds no key but its own.
  pub member-keys-insert :
      (k j : K) (v : V) (d : Dict K V)
      → member j (keys (insert k v d)) ≡ (k == j || member j (keys d))
  member-keys-insert k j v [] = ground arith
  member-keys-insert k j v ((i, w) ∷ d) =
      ground (arith, e.same_iff k j, e.same_iff i k, e.same_iff i j, member-keys-insert k j v d)

  pub contains-eq-member : (k : K) (d : Dict K V) → contains k d ≡ member k (keys d)
  contains-eq-member k [] = refl
  contains-eq-member k ((i, w) ∷ d) = ground (arith, contains-eq-member k d)

  -- What holds of every value, and of a new one, holds after the assignment; a removal keeps it.
  pub All-values-insert :
      (P : V → Type 0) (k : K) (v : V) (d : Dict K V)
      → All P (values d)
      → P v
      → All P (values (insert k v d))
  All-values-insert P k v [] a h = (h, tt)
  All-values-insert P k v ((j, w) ∷ d) a h = elim (Bool-cases (j == k)) [
    | inl same ↦ rw same (h, a.1)
    | inr other ↦ rw other (a.0, All-values-insert P k v d a.1 h)
  ]

  pub All-values-remove :
      (P : V → Type 0) (k : K) (d : Dict K V) → All P (values d) → All P (values (remove k d))
  All-values-remove P k [] a = tt
  All-values-remove P k ((j, w) ∷ d) a = elim (Bool-cases (j == k)) [
    | inl same ↦ rw same (All-values-remove P k d a.1)
    | inr other ↦ rw other (a.0, All-values-remove P k d a.1)
  ]

module _ {K : Type 0} ⦃e : Eq K⦄ where
  pub member-append : (k : K) (xs ys : List K) → member k (xs ++ ys) ≡ (member k xs || member k ys)
  member-append k [] ys = refl
  member-append k (x ∷ xs) ys = ground (arith, member-append k xs ys)

  pub member-add : (k j : K) (xs : List K) → member j (add k xs) ≡ (k == j || member j xs)
  member-add k j xs = ground (arith, member-append j xs (k ∷ []), e.same_iff k j)

  pub member-discard_self : (k : K) (xs : List K) → member k (discard k xs) ≡ false
  member-discard_self k [] = refl
  member-discard_self k (x ∷ xs) = ground (arith, member-discard_self k xs)

  pub AllDistinct-append :
      (xs ys : List K)
      → AllDistinct xs
      → AllDistinct ys
      → ((k : K) → member k xs ≡ true → member k ys ≡ false)
      → AllDistinct (xs ++ ys)
  AllDistinct-append [] ys a b h = b
  AllDistinct-append (x ∷ xs) ys a b h = (
    ground (arith, member-append x xs ys, a.0, h x, e.same_iff x x),
    AllDistinct-append xs ys a.1 b (λ k m. h k (ground (arith, m))),
  )

  pub member-discard :
      (k j : K) (xs : List K) → member j (discard k xs) ≡ (if k == j then false else member j xs)
  member-discard k j [] = ground arith
  member-discard k j (x ∷ xs) =
      ground (arith, e.same_iff k j, e.same_iff x k, e.same_iff x j, member-discard k j xs)

  pub AllDistinct-discard : (k : K) (xs : List K) → AllDistinct xs → AllDistinct (discard k xs)
  AllDistinct-discard k [] h = tt
  AllDistinct-discard k (x ∷ xs) h = elim (Bool-cases (x == k)) [
    | inl same ↦ rw same (AllDistinct-discard k xs h.1)
    | inr other ↦
        rw other (ground (arith, member-discard k x xs, h.0), AllDistinct-discard k xs h.1)
  ]
