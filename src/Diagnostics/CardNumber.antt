-- ===== src/Diagnostics/CardNumber.antt =====
-- transport.go: the texts that sanitizeDiagnosticText takes for a CVC or a payment card's number.
use stripelink.Prelude.{
  ℕ, ◌+◌, ◌-◌, ◌*◌, ◌/◌, ◌%◌, ◌≤◌, ◌≡◌, refl, inl, inr, Bool, Bool-cases, All, true, false, ◌&&◌,
  ◌||◌, List, [], ◌∷◌, length, ltb, leb, eqb, if◌then◌else◌, trim_bytes, arith,
}

-- c >= '0' && c <= '9'
abbrev pub is_digit : ℕ → Bool
is_digit c = leb b'0' c && leb c b'9'

abbrev all_digits : List ℕ → Bool
all_digits [] = true
all_digits (c ∷ s) = is_digit c && all_digits s

unfoldable pub is_bare_cvc : List ℕ → Bool
is_bare_cvc value =
    let trimmed = trim_bytes value in
    if ltb (length trimmed) 3 || ltb 4 (length trimmed) then false else all_digits trimmed

unfoldable pub digits_of : List ℕ → List ℕ
digits_of [] = []
digits_of (c ∷ s) = let rest = digits_of s in if is_digit c then (c - b'0') ∷ rest else rest

-- value *= 2; if value > 9 { value -= 9 }
abbrev doubled : ℕ → ℕ
doubled d = if ltb 9 (d * 2) then d * 2 - 9 else d * 2

-- The loop over the digits from the index `i` on.
unfoldable pub weighted_sum : ℕ → ℕ → List ℕ → ℕ
weighted_sum parity i [] = 0
weighted_sum parity i (d ∷ ds) =
    (if eqb (i % 2) parity then doubled d else d) + weighted_sum parity (i + 1) ds

unfoldable pub is_payment_card_number : List ℕ → Bool
is_payment_card_number candidate =
    let digits = digits_of candidate in
    if ltb (length digits) 12 || ltb 19 (length digits)
    then false
    else eqb (weighted_sum (length digits % 2) 0 digits % 10) 0

-- The sum of the digits of a number under 100.
abbrev digit_sum : ℕ → ℕ
digit_sum n = n / 10 + n % 10

-- The Luhn sum, which counts from the last digit: of every second digit before it, the digits of its
-- double are added.
pub luhn_sum : List ℕ → ℕ
luhn_sum [] = 0
luhn_sum (d ∷ ds) = (if eqb (length ds % 2) 1 then digit_sum (2 * d) else d) + luhn_sum ds

doubled-digit_sum : (d : ℕ) → d ≤ 9 → doubled d ≡ digit_sum (2 * d)
doubled-digit_sum d h = ground arith

digits_of-Digits : (s : List ℕ) → All (λ d. d ≤ 9) (digits_of s)
unfolding digits_of
digits_of-Digits [] = tt
digits_of-Digits (c ∷ s) = elim (Bool-cases (is_digit c)) [
  | inl e ↦ rw e (ground (arith, e), digits_of-Digits s)
  | inr e ↦ rw e (digits_of-Digits s)
]

weighted_sum-luhn_sum :
    (i parity : ℕ) (ds : List ℕ)
    → All (λ d. d ≤ 9) ds
    → parity ≡ (i + length ds) % 2
    → weighted_sum parity i ds ≡ luhn_sum ds
unfolding weighted_sum luhn_sum
weighted_sum-luhn_sum i parity [] digits h = refl
weighted_sum-luhn_sum i parity (d ∷ ds) (digit, digits) h =
    let rest = weighted_sum-luhn_sum (i + 1) parity ds digits (omega (arith, h)) in
    let same = doubled-digit_sum d digit in
    elim (Bool-cases (eqb (i % 2) parity)) [
      | inl e ↦
          let odd : eqb (length ds % 2) 1 ≡ true = ground (arith, e, h) in
          rw (e, odd, rest, same) refl
      | inr e ↦
          let even : eqb (length ds % 2) 1 ≡ false = ground (arith, e, h) in rw (e, even, rest) refl
    ]

-- A candidate is taken for a card number exactly when it has 12 to 19 digits whose Luhn sum, counted
-- from the last digit, is a multiple of ten; what stands between the digits does not matter.
pub is_payment_card_number-luhn_sum :
    (candidate : List ℕ)
    → is_payment_card_number candidate ≡ (
        leb 12 (length (digits_of candidate))
        && leb (length (digits_of candidate)) 19
        && eqb (luhn_sum (digits_of candidate) % 10) 0)
unfolding is_payment_card_number
is_payment_card_number-luhn_sum candidate =
    let ds = digits_of candidate in
    ground
      (arith, weighted_sum-luhn_sum 0 (length ds % 2) ds (digits_of-Digits candidate) (omega arith))
