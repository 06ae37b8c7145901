-- ===== src/Diagnostics/Message/Presentable.antt =====
-- The message of a remote error is short and has no control character in it, whatever the body.
use stripelink.Prelude.{
  ℕ, ◌≤◌, ◌<◌, ◌≢◌, inl, inr, String, Bool, Bool-cases, true, false, Option, none, some, List, [],
  ◌∷◌, ◌++◌, map, codes, is_space, length, length-append, take, leb, ltb, All, All-append, All-take,
  trim_bytes, arith,
}
use stripelink.Auth.Wire.{Reader}
use stripelink.Diagnostics.{
  max_diagnostic_bytes, suffix, back_up, truncate_diagnostic, truncate_diagnostic_lem,
}
use stripelink.Diagnostics.CardNumber.{is_bare_cvc}
use stripelink.Diagnostics.Patterns.{credential_field, bearer, known_token, signature, card_number}
use stripelink.Diagnostics.Patterns.Kept.{
  replace_all-All, AllowsTexts, Keeps-credential_field, Keeps-bearer, Keeps-known_token,
  Keeps-signature, Keeps-card_number,
}
use stripelink.Diagnostics.Utf8.{utf8_char, utf8, to_valid}
use stripelink.Diagnostics.Message.{
  until_valid, blank_control, close_word, fields, join_words, redact, ellipsis, finish,
  sanitize_whole, sanitize_diagnostic_text, remote_failed, unreported, message_of,
  extract_api_error_message, max_diagnostic_input_bytes,
}

-- No control character of ASCII, as a character or as a byte.
abbrev pub Printable : ℕ → Type 0
Printable c = (32 ≤ c) × (c ≢ 127)

blank_control-Printable : (c : ℕ) → Printable (blank_control c)
blank_control-Printable c = ground arith

map-blank_control : (s : List ℕ) → All Printable (map blank_control s)
map-blank_control [] = tt
map-blank_control (c ∷ s) = (blank_control-Printable c, map-blank_control s)

texts : AllowsTexts Printable
texts = record { redacted = omega arith; value = omega arith; bearer = omega arith }

redact-Printable : (s : List ℕ) → All Printable s → All Printable (redact s)
unfolding redact
redact-Printable s h =
    let P = Printable in
    replace_all-All P card_number _ (Keeps-card_number P texts) (
      replace_all-All P signature _ (Keeps-signature P texts) (
        replace_all-All P known_token _ (Keeps-known_token P texts) (
          replace_all-All P bearer _ (Keeps-bearer P texts)
            (replace_all-All P credential_field s (Keeps-credential_field P texts) h))))

close_word-Printable :
    (w : List ℕ) (ws : List (List ℕ))
    → All Printable w
    → All (All Printable) ws
    → All (All Printable) (close_word w ws)
close_word-Printable [] ws h k = k
close_word-Printable (c ∷ w) ws h k = (h, k)

fields-Printable :
    (begun s : List ℕ)
    → All Printable begun
    → All Printable s
    → All (All Printable) (fields begun s)
unfolding fields
fields-Printable begun [] h k = close_word-Printable begun [] h tt
fields-Printable begun (c ∷ s) h (p, k) = elim (Bool-cases (is_space c)) [
  | inl e ↦ rw (e, All) (close_word-Printable begun (fields [] s) h (fields-Printable [] s tt k))
  | inr e ↦
      rw (e, All)
        (fields-Printable (begun ++ (c ∷ [])) s (All-append Printable begun (c ∷ []) h (p, tt)) k)
]

join_words-Printable : (ws : List (List ℕ)) → All (All Printable) ws → All Printable (join_words ws)
unfolding join_words
join_words-Printable [] h = tt
join_words-Printable (w ∷ []) (h, k) = h
join_words-Printable (w ∷ v ∷ ws) (h, k) =
    All-append Printable w _ h (omega arith, join_words-Printable (v ∷ ws) k)

utf8_char-Printable : (c : ℕ) → Printable c → All Printable (utf8_char c)
utf8_char-Printable c h = ground arith

utf8-Printable : (s : List ℕ) → All Printable s → All Printable (utf8 s)
unfolding utf8
utf8-Printable [] h = tt
utf8-Printable (c ∷ s) (p, h) =
    All-append Printable (utf8_char c) (utf8 s) (utf8_char-Printable c p) (utf8-Printable s h)

truncate-Printable : (v : List ℕ) → All Printable v → All Printable (truncate_diagnostic v)
unfolding truncate_diagnostic
truncate-Printable v h = elim (Bool-cases (leb (length v) max_diagnostic_bytes)) [
  | inl e ↦ rw e h
  | inr e ↦ rw e (
      All-append Printable (take (back_up 508 v) v) suffix (All-take Printable _ v h) (omega arith))
]

-- A message of one to 512 bytes, none of which is a control character.
pub record IsPresentable (m : List ℕ) : Type 0 where
  pub bounded : length m ≤ max_diagnostic_bytes
  pub filled : 0 < length m
  pub printable : All Printable m

truncate-filled : (v : List ℕ) → 0 < length v → 0 < length (truncate_diagnostic v)
unfolding truncate_diagnostic
truncate-filled v h = elim (Bool-cases (leb (length v) max_diagnostic_bytes)) [
  | inl e ↦ rw e h
  | inr e ↦ rw e (omega (arith, length-append (take (back_up 508 v) v) suffix))
]

utf8_char-filled : (c : ℕ) → 0 < length (utf8_char c)
utf8_char-filled c = ground arith

utf8-filled : (c : ℕ) (s : List ℕ) → 0 < length (utf8 (c ∷ s))
unfolding utf8
utf8-filled c s = omega (arith, length-append (utf8_char c) (utf8 s), utf8_char-filled c)

truncated-IsPresentable :
    (c : ℕ) (s : List ℕ)
    → All Printable (c ∷ s)
    → IsPresentable (truncate_diagnostic (utf8 (c ∷ s)))
truncated-IsPresentable c s h = record {
  bounded = (truncate_diagnostic_lem (utf8 (c ∷ s))).0;
  filled = truncate-filled (utf8 (c ∷ s)) (utf8-filled c s);
  printable = truncate-Printable (utf8 (c ∷ s)) (utf8-Printable (c ∷ s) h);
}

fallback-IsPresentable : IsPresentable (utf8 remote_failed)
unfolding utf8
fallback-IsPresentable = record {
  bounded = omega arith;
  filled = omega arith;
  printable = omega arith;
}

finish-IsPresentable :
    (truncated : Bool) (value : List ℕ)
    → All Printable value
    → IsPresentable (finish truncated remote_failed value)
unfolding finish
finish-IsPresentable truncated [] h = fallback-IsPresentable
finish-IsPresentable true (c ∷ value) (p, h) =
    truncated-IsPresentable c (value ++ ellipsis)
      (p, All-append Printable value ellipsis h (omega arith))
finish-IsPresentable false (c ∷ value) h = truncated-IsPresentable c value h

sanitize_whole-IsPresentable :
    (truncated : Bool) (value : List ℕ)
    → IsPresentable (sanitize_whole truncated remote_failed value)
unfolding sanitize_whole utf8
sanitize_whole-IsPresentable truncated value =
    let clean = map blank_control (to_valid value) in
    elim (Bool-cases (is_bare_cvc (utf8 clean))) [
      | inl e ↦
          rw e (record { bounded = omega arith; filled = omega arith; printable = omega arith })
      | inr e ↦ rw e (
          finish-IsPresentable truncated _ (
            join_words-Printable _ (
              fields-Printable [] (redact clean) tt
                (redact-Printable clean (map-blank_control (to_valid value))))))
    ]

pub sanitize_diagnostic_text-IsPresentable :
    (value : List ℕ) → IsPresentable (sanitize_diagnostic_text value remote_failed)
unfolding sanitize_diagnostic_text
sanitize_diagnostic_text-IsPresentable [] = fallback-IsPresentable
sanitize_diagnostic_text-IsPresentable (c ∷ value) =
    elim (Bool-cases (ltb max_diagnostic_input_bytes (length (c ∷ value)))) [
      | inl long ↦
          rw long
            (sanitize_whole-IsPresentable true (until_valid max_diagnostic_input_bytes (c ∷ value)))
      | inr short ↦ rw short (sanitize_whole-IsPresentable false (c ∷ value))
    ]

unreported-IsPresentable : (valid : Bool) (s : List ℕ) → IsPresentable (unreported valid s)
unfolding unreported
unreported-IsPresentable valid [] = record {
  bounded = omega arith;
  filled = omega arith;
  printable = omega arith;
}
unreported-IsPresentable true (c ∷ s) = record {
  bounded = omega arith;
  filled = omega arith;
  printable = omega arith;
}
unreported-IsPresentable false (c ∷ s) = record {
  bounded = omega arith;
  filled = omega arith;
  printable = omega arith;
}

message_of-IsPresentable :
    (valid : Bool) (body : List ℕ) (o : Option String) → IsPresentable (message_of valid body o)
message_of-IsPresentable valid body none = unreported-IsPresentable valid (trim_bytes body)
message_of-IsPresentable valid body (some s) =
    sanitize_diagnostic_text-IsPresentable (utf8 (codes s))

-- Whatever the body of an error response, the message that is made of it has one to 512 bytes, and none
-- of them is a control character.
pub extract_api_error_message-IsPresentable :
    (parse : Reader) (body : List ℕ) → IsPresentable (extract_api_error_message parse body)
unfolding extract_api_error_message
extract_api_error_message-IsPresentable parse body = message_of-IsPresentable _ body _
