-- ===== src/SortedDict.antt =====
-- `sortedcontainers.SortedDict[float, float]`, a library that the program only calls: an interface,
-- the documented laws, and (in a child) an implementation that meets them.
pub mod Assoc
use poly_maker.Prelude.{◌≡◌, Bool, true, ◌&&◌, Option, none, some, List, [], ◌∷◌, if◌then◌else◌}
use poly_maker.Float.{Float, ◌≤?◌, ◌<?◌, ◌=?◌}

-- `items` lists the entries by ascending key; every read of the program goes through it.
pub record SortedDict (W D : Type 0) : Type 0 where
  pub empty : D
  pub put : W → W → D → D
  pub pop : W → D → D
  pub items : D → List (W × W)

module _ {W : Type 0} ⦃f : Float W⦄ where
  -- The value at a key, in a list of items.
  abbrev pub value_at : W → List (W × W) → Option W
  value_at p [] = none
  value_at p ((q, s) ∷ l) = if q =? p then some s else value_at p l

  -- Every key of the list lies strictly above `p`.
  abbrev pub Above : W → List (W × W) → Type 0
  Above p [] = Unit
  Above p ((q, s) ∷ l) = ((p <? q) ≡ true) × Above p l

  abbrev pub IsAscending : List (W × W) → Type 0
  IsAscending [] = Unit
  IsAscending ((p, s) ∷ l) = Above p l × IsAscending l

-- What `sortedcontainers` documents: a dictionary whose items come by ascending key.
pub record IsSortedDict (W D : Type 0) ⦃f : Float W⦄ ⦃d : SortedDict W D⦄ : Type 0 where
  pub items-empty : d.items d.empty ≡ []
  pub items-IsAscending : (b : D) → IsAscending (d.items b)
  pub value_at-put :
      (p s q : W) (b : D)
      → value_at q (d.items (d.put p s b)) ≡ (if p =? q then some s else value_at q (d.items b))
  pub value_at-pop :
      (p q : W) (b : D)
      → value_at q (d.items (d.pop p b)) ≡ (if p =? q then none else value_at q (d.items b))
