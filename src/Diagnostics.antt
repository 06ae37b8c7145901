-- ===== src/Diagnostics.antt =====
-- transport.go: truncateDiagnostic, on the bytes of a text.
pub mod Utf8
pub mod CardNumber
pub mod Search
pub mod Patterns
pub mod Message
pub mod ErrorText
pub mod Summary
pub mod Log
use stripelink.Prelude.{
  ℕ, zero, suc, ◌-◌, ◌≤◌, ◌<◌, ◌≡◌, ◌⊎◌, inl, inr, refl, Bool, Bool-cases, true, false, ◌&&◌, not,
  List, [], ◌∷◌, ◌++◌, leb, length, take, length-append, length-take, if◌then◌else◌, arith,
}

-- value[i] of an index in range
abbrev pub byte_at : ℕ → List ℕ → ℕ
byte_at i [] = 0
byte_at zero (b ∷ bs) = b
byte_at (suc i) (b ∷ bs) = byte_at i bs

-- utf8.RuneStart: b & 0xc0 != 0x80
abbrev pub rune_start : ℕ → Bool
rune_start b = not (leb 0x80 b && leb b 0xbf)

-- for end > 0 && !utf8.RuneStart(value[end]) { end-- }
unfoldable pub back_up : ℕ → List ℕ → ℕ
back_up zero value = zero
back_up (suc e) value = if rune_start (byte_at (suc e) value) then suc e else back_up e value

-- maxDiagnosticBytes
abbrev pub max_diagnostic_bytes : ℕ
max_diagnostic_bytes = 512

-- " …"
abbrev pub suffix : List ℕ
suffix = 0x20 ∷ 0xe2 ∷ 0x80 ∷ 0xa6 ∷ []

unfoldable pub truncate_diagnostic : List ℕ → List ℕ
truncate_diagnostic value =
    if leb (length value) max_diagnostic_bytes
    then value
    else take (back_up (max_diagnostic_bytes - length suffix) value) value ++ suffix

back_up_bounds : (e : ℕ) (v : List ℕ) → back_up e v ≤ e
unfolding back_up
back_up_bounds zero v = omega arith
back_up_bounds (suc e) v = elim (Bool-cases (rune_start (byte_at (suc e) v))) [
  | inl y ↦ rw y (omega arith)
  | inr n ↦ rw n (omega (arith, back_up_bounds e v))
]

back_up_start :
    (e : ℕ) (v : List ℕ) → (back_up e v ≡ 0) ⊎ (rune_start (byte_at (back_up e v) v) ≡ true)
unfolding back_up
back_up_start zero v = inl refl
back_up_start (suc e) v = elim (Bool-cases (rune_start (byte_at (suc e) v))) [
  | inl y ↦ rw y (inr y)
  | inr n ↦ rw n (back_up_start e v)
]

truncate_diagnostic_bounds : (v : List ℕ) → length (truncate_diagnostic v) ≤ max_diagnostic_bytes
unfolding truncate_diagnostic
truncate_diagnostic_bounds v =
    let cut = back_up (max_diagnostic_bytes - length suffix) v in
    elim (Bool-cases (leb (length v) max_diagnostic_bytes)) [
      | inl y ↦ let short : length v ≤ 512 = ground arith in rw y short
      | inr n ↦ rw n (
          omega (arith, length-append (take cut v) suffix, length-take cut v, back_up_bounds 508 v))
    ]

if_true : {A : Type 0} {b : Bool} (x y : A) → b ≡ true → (if b then x else y) ≡ x
if_true x y h = rw h refl

if_false : {A : Type 0} {b : Bool} (x y : A) → b ≡ false → (if b then x else y) ≡ y
if_false x y h = rw h refl

-- A diagnostic has at most 512 bytes and is cut once only; the cut stands at the start of the text or
-- before a byte that starts a character.
pub truncate_diagnostic_lem :
    (v : List ℕ)
    → (length (truncate_diagnostic v) ≤ max_diagnostic_bytes)
      × (truncate_diagnostic (truncate_diagnostic v) ≡ truncate_diagnostic v)
      × (max_diagnostic_bytes < length v
          → let cut = back_up (max_diagnostic_bytes - length suffix) v in
            (truncate_diagnostic v ≡ take cut v ++ suffix)
            × ((cut ≡ 0) ⊎ (rune_start (byte_at cut v) ≡ true)))
unfolding truncate_diagnostic
truncate_diagnostic_lem v =
    let bounds = truncate_diagnostic_bounds v in
    let fits : leb (length (truncate_diagnostic v)) max_diagnostic_bytes ≡ true =
      ground (arith, bounds) in
    (
      bounds,
      if_true _ _ fits,
      λ long.
          let n : leb (length v) max_diagnostic_bytes ≡ false = ground arith in
          (if_false _ _ n, back_up_start 508 v),
    )
