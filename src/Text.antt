-- ===== src/Text.antt =====
-- Text that the sources write to streams and strings: the list of its character codes. `std::to_string`
-- and `operator<<` on numbers are Text/Decimal.
pub mod Decimal
pub mod ReadBack
use Prim.Native.Char.{code}
use Prim.Native.String.{◌∷◌ as char_cons, [] as char_nil}
use asm_studio.Prelude.{ℕ, String, List, [], ◌∷◌, ◌++◌}

abbrev pub Text : Type 0
Text = List ℕ

abbrev pub codes : String → Text
codes String.[] = []
codes (String.◌∷◌ c s) = code c ∷ codes s

-- A line and its end.
abbrev pub newline : Text
newline = 10 ∷ []

-- The pieces one after the other.
abbrev pub join : List Text → Text
join [] = []
join (piece ∷ pieces) = piece ++ join pieces

-- The pieces for each element.
abbrev pub each {ℓ} : {A : Type ℓ} → (A → Text) → List A → Text
each f [] = []
each f (x ∷ xs) = f x ++ each f xs
