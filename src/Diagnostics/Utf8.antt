-- ===== src/Diagnostics/Utf8.antt =====
-- What transport.go uses of unicode/utf8 and of strings on the bytes of a text.
use stripelink.Prelude.{
  ℕ, zero, suc, ◌+◌, ◌-◌, ◌*◌, ◌/◌, ◌%◌, Bool, true, false, ◌&&◌, not, Option, none, some, List, [],
  ◌∷◌, ◌++◌, leb, if◌then◌else◌,
}

-- The encoding of a character.
abbrev pub utf8_char : ℕ → List ℕ
utf8_char c =
    if leb c 0x7f
    then c ∷ []
    else if leb c 0x7ff
    then (0xc0 + c / 64) ∷ (0x80 + c % 64) ∷ []
    else if leb c 0xffff
    then (0xe0 + c / 4096) ∷ (0x80 + c / 64 % 64) ∷ (0x80 + c % 64) ∷ []
    else (0xf0 + c / 262144) ∷ (0x80 + c / 4096 % 64) ∷ (0x80 + c / 64 % 64) ∷ (0x80 + c % 64) ∷ []

unfoldable pub utf8 : List ℕ → List ℕ
utf8 [] = []
utf8 (c ∷ s) = utf8_char c ++ utf8 s

abbrev within : ℕ → ℕ → ℕ → Bool
within low high b = leb low b && leb b high

abbrev tail_byte : ℕ → Bool
tail_byte = within 0x80 0xbf

-- A character, with the number of its bytes behind the first.
abbrev pub Decoded : Type 0
Decoded = Option (ℕ × ℕ)

abbrev two : ℕ → List ℕ → Decoded
two b (c ∷ s) = if tail_byte c then some ((b - 0xc0) * 64 + (c - 0x80), 1) else none
two b _ = none

-- No encoding is longer than it must be, and none is of a surrogate.
abbrev three : ℕ → List ℕ → Decoded
three b (c ∷ d ∷ s) =
    let n = (b - 0xe0) * 4096 + (c - 0x80) * 64 + (d - 0x80) in
    if tail_byte c && tail_byte d && leb 0x800 n && not (within 0xd800 0xdfff n)
    then some (n, 2)
    else none
three b _ = none

abbrev four : ℕ → List ℕ → Decoded
four b (c ∷ d ∷ e ∷ s) =
    let n = (b - 0xf0) * 262144 + (c - 0x80) * 4096 + (d - 0x80) * 64 + (e - 0x80) in
    if tail_byte c && tail_byte d && tail_byte e && within 0x10000 0x10ffff n
    then some (n, 3)
    else none
four b _ = none

-- utf8.DecodeRune, `none` for the error
unfoldable pub decode_char : ℕ → List ℕ → Decoded
decode_char b s =
    if leb b 0x7f
    then some (b, 0)
    else if within 0xc2 0xdf b
    then two b s
    else if within 0xe0 0xef b
    then three b s
    else if within 0xf0 0xf4 b
    then four b s
    else none

abbrev after_char : Decoded → (ℕ → Bool) → Bool
after_char none next = false
after_char (some (c, n)) next = next n

-- By the bytes of a character that are still to be passed over.
unfoldable pub valid_from : ℕ → List ℕ → Bool
valid_from skip [] = true
valid_from (suc skip) (b ∷ s) = valid_from skip s
valid_from zero (b ∷ s) = after_char (decode_char b s) (λ n. valid_from n s)

-- utf8.ValidString
unfoldable pub valid : List ℕ → Bool
unfolding valid_from
valid s = valid_from 0 s

-- What comes next, where the byte before was good or bad.
abbrev put_char : Decoded → Bool → (Bool → ℕ → List ℕ) → List ℕ
put_char (some (c, n)) good next = c ∷ next true n
put_char none true next = 0xfffd ∷ next false 0
put_char none false next = next false 0

unfoldable pub chars : Bool → ℕ → List ℕ → List ℕ
chars good skip [] = []
chars good (suc skip) (b ∷ s) = chars good skip s
chars good zero (b ∷ s) = put_char (decode_char b s) good (λ now n. chars now n s)

-- The characters of strings.ToValidUTF8(s, "\uFFFD"): one of these for each run of bad bytes
unfoldable pub to_valid : List ℕ → List ℕ
unfolding chars decode_char
to_valid s = chars true 0 s
