-- ===== src/Prelude/Text.antt =====
-- Text that the program walks: Go's bytes or runes, as numbers.
use Prim.Native.Char.{code}
use Prim.Native.String.{String}
use Prim.Native.Nat.{ℕ}
use mathlib.Core.List.{List, [], ◌∷◌}

abbrev pub Text : Type 0
Text = List ℕ

-- The code points of a literal: its bytes, since every literal of the program is ASCII.
abbrev pub codes : String → Text
codes String.[] = []
codes (String.◌∷◌ c s) = code c ∷ codes s
