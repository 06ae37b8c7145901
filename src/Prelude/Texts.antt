-- ===== src/Prelude/Texts.antt =====
-- Texts: `String` for what the program compares and concatenates, and its code points where the
-- program walks the characters. `is_space` is Go's unicode.IsSpace, `trim_space` strings.TrimSpace.
use Prim.Native.Nat.{ℕ}
use Prim.Native.Char.{code}
use Prim.Native.String.{String, ◌++◌}
use mathlib.Core.Bool.{Bool, true, ◌&&◌, ◌||◌}
use mathlib.Core.List.{List, [], ◌∷◌, reverse}
use stripelink.Prelude.Tests.{leb, eqb, if◌then◌else◌}

-- s + t
abbrev pub concat : String → String → String
concat s t = s ++ t

abbrev pub codes : String → List ℕ
codes String.[] = []
codes (String.◌∷◌ c s) = code c ∷ codes s

-- White space by Unicode's property: the Latin-1 cases, then the others.
abbrev pub is_space : ℕ → Bool
is_space c =
    (leb 9 c && leb c 13)
    || eqb c 32
    || eqb c 0x85
    || eqb c 0xa0
    || eqb c 0x1680
    || (leb 0x2000 c && leb c 0x200a)
    || eqb c 0x2028
    || eqb c 0x2029
    || eqb c 0x202f
    || eqb c 0x205f
    || eqb c 0x3000

-- unicode.IsControl: the controls of ASCII and Latin-1, and DEL.
abbrev pub is_control : ℕ → Bool
is_control c = leb c 31 || (leb 127 c && leb c 159)

abbrev pub trim_left : List ℕ → List ℕ
trim_left [] = []
trim_left (c ∷ s) = if is_space c then trim_left s else c ∷ s

unfoldable pub trim_space : List ℕ → List ℕ
trim_space s = reverse (trim_left (reverse (trim_left s)))

-- strings.TrimSpace(s) == "": nothing but white space.
abbrev pub blank_codes : List ℕ → Bool
blank_codes [] = true
blank_codes (c ∷ s) = is_space c && blank_codes s

unfoldable pub is_blank : String → Bool
is_blank s = blank_codes (codes s)
