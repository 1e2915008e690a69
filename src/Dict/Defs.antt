-- ===== src/Dict/Defs.antt =====
-- The operations of `dict` and `set` that the program calls.
use poly_maker.Prelude.{
  ◌≡◌, Bool, false, ◌||◌, Option, none, some, List, [], ◌∷◌, ◌++◌, if◌then◌else◌, is_some, get_or,
}
use poly_maker.Prelude.Eq.{Eq, ◌==◌}

abbrev pub Dict : Type 0 → Type 0 → Type 0
Dict K V = List (K × V)

module _ {K : Type 0} ⦃e : Eq K⦄ {V : Type 0} where
  -- `d.get(k)`
  abbrev pub lookup : K → Dict K V → Option V
  lookup k [] = none
  lookup k ((j, v) ∷ d) = if j == k then some v else lookup k d

  -- `d.get(k, default)`
  abbrev pub lookup_or : K → V → Dict K V → V
  lookup_or k v d = get_or (lookup k d) v

  -- `k in d`
  abbrev pub contains : K → Dict K V → Bool
  contains k d = is_some (lookup k d)

  -- `d[k] = v`
  abbrev pub insert : K → V → Dict K V → Dict K V
  insert k v [] = (k, v) ∷ []
  insert k v ((j, w) ∷ d) = if j == k then (j, v) ∷ d else (j, w) ∷ insert k v d

  -- `d.pop(k, None)`
  abbrev pub remove : K → Dict K V → Dict K V
  remove k [] = []
  remove k ((j, w) ∷ d) = if j == k then remove k d else (j, w) ∷ remove k d

module _ {K V : Type 0} where
  abbrev pub keys : Dict K V → List K
  keys [] = []
  keys ((k, v) ∷ d) = k ∷ keys d

  -- `d.values()`
  abbrev pub values : Dict K V → List V
  values [] = []
  values ((k, v) ∷ d) = v ∷ values d

module _ {K : Type 0} ⦃e : Eq K⦄ where
  -- `k in s`, of a set kept as a list
  abbrev pub member : K → List K → Bool
  member k [] = false
  member k (x ∷ xs) = x == k || member k xs

  -- `s.add(k)`
  abbrev pub add : K → List K → List K
  add k xs = if member k xs then xs else xs ++ (k ∷ [])

  -- `s.discard(k)`
  abbrev pub discard : K → List K → List K
  discard k [] = []
  discard k (x ∷ xs) = if x == k then discard k xs else x ∷ discard k xs

  -- No element stands twice.
  abbrev pub AllDistinct : List K → Type 0
  AllDistinct [] = Unit
  AllDistinct (x ∷ xs) = (member x xs ≡ false) × AllDistinct xs
