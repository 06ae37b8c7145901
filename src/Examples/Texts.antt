-- ===== src/Examples/Texts.antt =====
-- The truncation of a diagnostic at concrete inputs: a cut in the middle of a character is moved.
use stripelink.Prelude.{some, codes, trim_bytes, ℕ, zero, suc, ◌≡◌, refl, List, [], ◌∷◌, ◌++◌}
use stripelink.Json.{obj, member, end, str}
use stripelink.Auth.Wire.{Reader}
use stripelink.Diagnostics.Message.{extract_api_error_message}
use stripelink.Diagnostics.Message.Presentable.{
  IsPresentable, extract_api_error_message-IsPresentable,
}
use stripelink.Diagnostics.{back_up, truncate_diagnostic}
use stripelink.Diagnostics.CardNumber.{is_bare_cvc, is_payment_card_number, digits_of, weighted_sum}
use stripelink.Diagnostics.Patterns.{credential_field, bearer, known_token, signature, card_number}
use stripelink.Diagnostics.Search.{replace_all, rests, captures}
use stripelink.Diagnostics.Utf8.{utf8, to_valid}
use stripelink.Diagnostics.Message.{
  sanitize_diagnostic_text, sanitize_whole, finish, fields, join_words, redact,
}

-- So many times "é".
abbrev accents : ℕ → List ℕ
accents zero = []
accents (suc n) = 0xc3 ∷ 0xa9 ∷ accents n

-- One byte, and then characters of two: the cut at 508 falls into one of them.
abbrev long_text : List ℕ
long_text = 0x61 ∷ accents 300

cut_moves : back_up 508 long_text ≡ 507
unfolding back_up
cut_moves = refl

said : List ℕ → List ℕ
unfolding sanitize_diagnostic_text sanitize_whole finish fields join_words redact is_bare_cvc utf8
    replace_all credential_field bearer known_token signature card_number is_payment_card_number
    digits_of weighted_sum rests captures truncate_diagnostic trim_bytes to_valid
said s = sanitize_diagnostic_text (utf8 s) (codes "remote API request failed")

abbrev no_break : List ℕ
no_break = 0xa0 ∷ []

field_redacted :
    said (codes "bad card_number: 4242, try again") ≡ codes "bad card_number=<redacted>, try again"
unfolding said
field_redacted = refl

card_redacted :
    said (codes "card 4242 4242 4242 4242 declined; Bearer abc.def")
    ≡ codes "card <redacted> declined; Bearer <redacted>"
unfolding said
card_redacted = refl

-- White space is collapsed after the redaction: a number that a wider gap has hidden comes together.
card_comes_together :
    said (codes "pan 4242 4242" ++ no_break ++ codes "4242 4242") ≡ codes "pan 4242 4242 4242 4242"
unfolding said
card_comes_together = refl

-- A body that reports an error with a line break in it.
abbrev reporting : Reader
reporting body = some (obj (member "error" (obj (member "message" (str "no\nluck") end)) end))

extract_api_error_message-IsPresentable_example :
    IsPresentable (extract_api_error_message reporting (1 ∷ []))
extract_api_error_message-IsPresentable_example =
    extract_api_error_message-IsPresentable reporting (1 ∷ [])
