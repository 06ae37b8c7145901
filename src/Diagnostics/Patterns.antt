-- ===== src/Diagnostics/Patterns.antt =====
-- transport.go: the regular expressions of sanitizeDiagnosticText.
pub mod Kept
use Prim.Native.String.{String}
use stripelink.Prelude.{
  ℕ, zero, suc, ◌-◌, Bool, true, false, not, ◌&&◌, ◌||◌, Option, none, some, List, [], ◌∷◌, ◌++◌,
  eqb, leb, length, take, drop, codes, map, if◌then◌else◌,
}
use stripelink.Diagnostics.CardNumber.{is_digit, is_payment_card_number}
use stripelink.Json.{fold}
use stripelink.Diagnostics.Search.{
  Pattern, empty, one, some_of, many_of, seq, alt, opt, runs, rests, Rule, replace, replace_all,
  first, whole, by_match, word_before, at_boundary, folded, literal, folded_literal, Capture,
  captures, with_group, by_group, each, leaving, put_match, is_word, after_group, from_group,
}

-- [^\s,;}\]]
abbrev pub in_value : ℕ → Bool
in_value c = not (
    eqb c 9
    || eqb c 10
    || eqb c 12
    || eqb c 13
    || eqb c 32
    || eqb c b','
    || eqb c b';'
    || eqb c b'}'
    || eqb c b']')

-- \s
abbrev pub is_blank_char : ℕ → Bool
is_blank_char c = eqb c 9 || eqb c 10 || eqb c 12 || eqb c 13 || eqb c 32

abbrev pub is_not : ℕ → ℕ → Bool
is_not c d = not (eqb d c)

abbrev pub quote : Pattern
quote = opt (one (λ c. eqb c b'"' || eqb c b'\''))

-- [_ -]?
abbrev pub joint : Pattern
joint = opt (one (λ c. eqb c b'_' || eqb c 32 || eqb c b'-'))

abbrev pub word : String → Pattern
word t = folded_literal (codes t)

-- Words with joints between them.
abbrev pub words : List String → Pattern
words [] = empty
words (t ∷ []) = word t
words (t ∷ u ∷ ts) = seq (word t) (seq joint (words (u ∷ ts)))

abbrev pub one_of_words : List Pattern → Pattern
one_of_words [] = empty
one_of_words (p ∷ []) = p
one_of_words (p ∷ q ∷ ps) = alt p (one_of_words (q ∷ ps))

abbrev pub field_name : Pattern
field_name = one_of_words (
    word "authorization"
    ∷ word "cookie"
    ∷ words ("access" ∷ "token" ∷ [])
    ∷ words ("refresh" ∷ "token" ∷ [])
    ∷ words ("device" ∷ "code" ∷ [])
    ∷ words ("user" ∷ "code" ∷ [])
    ∷ seq (word "card") (opt (seq joint (word "number")))
    ∷ word "number"
    ∷ word "cvc"
    ∷ word "cvv"
    ∷ words ("shared" ∷ "payment" ∷ "token" ∷ [])
    ∷ words ("link" ∷ "pay" ∷ "token" ∷ [])
    ∷ seq (word "signature") (opt (seq joint (word "input")))
    ∷ words ("payment" ∷ "details" ∷ [])
    ∷ [])

abbrev pub enclosed : ℕ → Pattern
enclosed q = seq (one (eqb q)) (seq (many_of (is_not q) 0) (one (eqb q)))

abbrev pub field_value : Pattern
field_value = seq quote (
    seq (many_of is_blank_char 0) (
      seq (one (λ c. eqb c b':' || eqb c b'=')) (
        seq (many_of is_blank_char 0)
          (alt (enclosed b'"') (alt (enclosed b'\'') (many_of in_value 1))))))

abbrev pub redacted : List ℕ
redacted = codes "<redacted>"

-- credentialFieldPattern, replaced by "$1=<redacted>"
unfoldable pub credential_field : Rule
credential_field = by_group quote field_name field_value (λ name. name ++ codes "=<redacted>")

-- bearerPattern
unfoldable pub bearer : Rule
bearer = at_boundary (
    by_match (seq (word "bearer") (seq (many_of is_blank_char 1) (many_of in_value 1)))
      (λ found. codes "Bearer <redacted>"))

-- [A-Za-z0-9._~+/=-] under (?i)
abbrev in_token : ℕ → Bool
in_token c =
    let d = fold c in
    (leb b'a' d && leb d b'z')
    || (leb b'0' d && leb d b'9')
    || eqb d b'.'
    || eqb d b'_'
    || eqb d b'~'
    || eqb d b'+'
    || eqb d b'/'
    || eqb d b'='
    || eqb d b'-'

-- knownTokenPattern
unfoldable pub known_token : Rule
known_token = at_boundary (
    by_match
      (seq
        (one_of_words (
          word "spt"
          ∷ word "link_pay"
          ∷ word "access"
          ∷ word "refresh"
          ∷ word "device"
          ∷ word "tok"
          ∷ word "sk"
          ∷ word "rk"
          ∷ []))
        (seq (one (eqb b'_')) (many_of in_token 6)))
      (λ found. redacted))

-- signaturePattern
unfoldable pub signature : Rule
signature = at_boundary (
    by_match
      (seq (literal (codes "sig")) (
        seq (many_of is_digit 1) (
          seq (one (eqb b'=')) (
            seq (opt (one (eqb b':')))
              (seq (many_of (λ c. not (is_blank_char c) && is_not b':' c) 1) (one (eqb b':')))))))
      (λ found. redacted))

abbrev pan_candidate : Pattern
pan_candidate =
    seq (one is_digit)
      (seq (some_of (λ c. is_digit c || eqb c 32 || eqb c b'-') 10 13) (one is_digit))

-- panCandidatePattern, with the function that looks at a candidate
unfoldable pub card_number : Rule
card_number =
    by_match pan_candidate
      (λ candidate. if is_payment_card_number candidate then redacted else candidate)
