-- ===== src/Attempt.antt =====
-- A step that may raise an exception: one that the caller catches, or one that it does not.
use poly_maker.Prelude.{Option, none, some}

pub data Attempt (A : Type 0) : Type 0 where
  got : A → Attempt A
  caught : Attempt A
  raised : Attempt A

infixl 5 ◌>>=◌
abbrev pub ◌>>=◌ : {A B : Type 0} → Attempt A → (A → Attempt B) → Attempt B
got a >>= k = k a
caught >>= k = caught
raised >>= k = raised

infixl 5 ◌>>◌
abbrev pub ◌>>◌ : {B : Type 0} → Attempt (Unit {0}) → Attempt B → Attempt B
m >> k = m >>= λ _. k

abbrev pub catching : {A : Type 0} → Option A → Attempt A
catching none = caught
catching (some a) = got a
