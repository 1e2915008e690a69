-- ===== src/Text.antt =====
-- Python's `str`, where the program compares texts without their case or takes them apart. Case is that
-- of ASCII, which addresses, sides and statuses are written in.
use Prim.Native.Char.{code}
use Prim.Native.String.{String}
use poly_maker.Prelude.{ℕ, ◌+◌, Bool, true, false, ◌&&◌, List, [], ◌∷◌, if◌then◌else◌, leb, map}
use poly_maker.Prelude.Eq.{◌==◌, nat_eq}

abbrev pub codes : String → List ℕ
codes String.[] = []
codes (String.◌∷◌ c s) = code c ∷ codes s

abbrev lower_code : ℕ → ℕ
lower_code c = if leb b'A' c && leb c b'Z' then c + 32 else c

abbrev same_codes : List ℕ → List ℕ → Bool
same_codes [] [] = true
same_codes (x ∷ xs) (y ∷ ys) = x == y && same_codes xs ys
same_codes _ _ = false

-- Whether two texts are equal but for their case: equal in lower case, or in upper case
abbrev pub same_text : String → String → Bool
same_text s t = same_codes (map lower_code (codes s)) (map lower_code (codes t))
