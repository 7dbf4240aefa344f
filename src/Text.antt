-- ===== src/Text.antt =====
-- C++ strings as lists of bytes.
pub mod Decimal
pub mod Integer
pub mod Split
use Prim.Native.Char.{code}
use Prim.Native.String.{String}
use clearwater_fv_test.Base.{ℕ, List, [], ◌∷◌, ◌++◌}

abbrev pub Text : Type 0
Text = List ℕ

-- The bytes of an ASCII literal.
abbrev pub codes : String → Text
codes String.[] = []
codes (String.◌∷◌ c s) = code c ∷ codes s

-- The text between separators, as a loop that writes the separator from the second entry on.
abbrev pub join : Text → List Text → Text
join sep [] = []
join sep (x ∷ []) = x
join sep (x ∷ y ∷ ys) = x ++ sep ++ join sep (y ∷ ys)
