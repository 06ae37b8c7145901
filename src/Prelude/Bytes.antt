-- ===== src/Prelude/Bytes.antt =====
-- bytes.TrimSpace: white space of a UTF-8 text is trimmed by its encodings.
use Prim.Native.Nat.{ℕ, zero, suc}
use mathlib.Core.Option.{Option, none, some}
use mathlib.Core.List.{List, [], ◌∷◌, map, reverse}
use stripelink.Prelude.Tests.{eqb, if◌then◌else◌}
use stripelink.Prelude.Lists.{length}

-- The encodings of the characters of `is_space`.
abbrev encoded_spaces : List (List ℕ)
encoded_spaces =
    (9 ∷ [])
    ∷ (10 ∷ [])
    ∷ (11 ∷ [])
    ∷ (12 ∷ [])
    ∷ (13 ∷ [])
    ∷ (32 ∷ [])
    ∷ (0xc2 ∷ 0x85 ∷ [])
    ∷ (0xc2 ∷ 0xa0 ∷ [])
    ∷ (0xe1 ∷ 0x9a ∷ 0x80 ∷ [])
    ∷ (0xe2 ∷ 0x80 ∷ 0x80 ∷ [])
    ∷ (0xe2 ∷ 0x80 ∷ 0x81 ∷ [])
    ∷ (0xe2 ∷ 0x80 ∷ 0x82 ∷ [])
    ∷ (0xe2 ∷ 0x80 ∷ 0x83 ∷ [])
    ∷ (0xe2 ∷ 0x80 ∷ 0x84 ∷ [])
    ∷ (0xe2 ∷ 0x80 ∷ 0x85 ∷ [])
    ∷ (0xe2 ∷ 0x80 ∷ 0x86 ∷ [])
    ∷ (0xe2 ∷ 0x80 ∷ 0x87 ∷ [])
    ∷ (0xe2 ∷ 0x80 ∷ 0x88 ∷ [])
    ∷ (0xe2 ∷ 0x80 ∷ 0x89 ∷ [])
    ∷ (0xe2 ∷ 0x80 ∷ 0x8a ∷ [])
    ∷ (0xe2 ∷ 0x80 ∷ 0xa8 ∷ [])
    ∷ (0xe2 ∷ 0x80 ∷ 0xa9 ∷ [])
    ∷ (0xe2 ∷ 0x80 ∷ 0xaf ∷ [])
    ∷ (0xe2 ∷ 0x81 ∷ 0x9f ∷ [])
    ∷ (0xe3 ∷ 0x80 ∷ 0x80 ∷ [])
    ∷ []

abbrev strip_prefix : List ℕ → List ℕ → Option (List ℕ)
strip_prefix [] s = some s
strip_prefix (c ∷ cs) [] = none
strip_prefix (c ∷ cs) (d ∷ s) = if eqb c d then strip_prefix cs s else none

abbrev strip_any : List (List ℕ) → List ℕ → Option (List ℕ)
strip_any [] s = none
strip_any (p ∷ ps) s = elim (strip_prefix p s) [ some r ↦ some r | none ↦ strip_any ps s ]

-- Each round strips a byte at least: the length is fuel enough.
abbrev strip_all : ℕ → List (List ℕ) → List ℕ → List ℕ
strip_all zero ps s = s
strip_all (suc fuel) ps s = elim (strip_any ps s) [ none ↦ s | some r ↦ strip_all fuel ps r ]

unfoldable pub trim_bytes : List ℕ → List ℕ
trim_bytes s =
    let front = strip_all (length s) encoded_spaces s in
    reverse (strip_all (length s) (map reverse encoded_spaces) (reverse front))
