-- ===== src/Diagnostics/Message.antt =====
-- transport.go: extractAPIErrorMessage and sanitizeDiagnosticText, on the bytes of a text. What
-- `Message.remote` of an API error stands for is `extract_api_error_message`.
pub mod Presentable
use stripelink.Prelude.{
  ℕ, ◌+◌, ◌-◌, ◌*◌, ◌/◌, ◌%◌, zero, suc, take, String, ◌==◌, Bool, true, false, Option, none, some,
  List, [], ◌∷◌, ◌++◌, map, codes, is_space, is_control, trim_bytes, is_some, length, ltb, leb,
  if◌then◌else◌,
}
use stripelink.Json.{Json, null, bool, int, real, str, arr, obj, Members, end, member, string_field}
use stripelink.Auth.Wire.{Reader, read_json}
use stripelink.Diagnostics.{truncate_diagnostic}
use stripelink.Diagnostics.Utf8.{utf8, valid, to_valid}
use stripelink.Diagnostics.CardNumber.{is_bare_cvc}
use stripelink.Diagnostics.Patterns.{
  credential_field, bearer, known_token, signature, card_number, redacted,
}
use stripelink.Diagnostics.Search.{replace_all}

abbrev pub max_diagnostic_input_bytes : ℕ
max_diagnostic_input_bytes = 4096

-- for !utf8.ValidString(value) && len(value) > 0 { value = value[:len(value)-1] }, of the first so
-- many bytes
unfoldable pub until_valid : ℕ → List ℕ → List ℕ
until_valid zero value = []
until_valid (suc n) value =
    let shorter = until_valid n value in
    if valid (take (suc n) value) then take (suc n) value else shorter

abbrev blank_control : ℕ → ℕ
blank_control c = if is_control c then 32 else c

-- A word that has ended, if it is one.
abbrev close_word : List ℕ → List (List ℕ) → List (List ℕ)
close_word [] ws = ws
close_word (c ∷ w) ws = (c ∷ w) ∷ ws

-- strings.Fields, from a word that has begun
unfoldable pub fields : List ℕ → List ℕ → List (List ℕ)
fields begun [] = close_word begun []
fields begun (c ∷ s) =
    let rest = fields (if is_space c then [] else begun ++ (c ∷ [])) s in
    if is_space c then close_word begun rest else rest

-- strings.Join(words, " ")
unfoldable pub join_words : List (List ℕ) → List ℕ
join_words [] = []
join_words (w ∷ []) = w
join_words (w ∷ v ∷ ws) = w ++ (32 ∷ join_words (v ∷ ws))

-- The replacements, one after the other.
unfoldable pub redact : List ℕ → List ℕ
redact value = replace_all card_number (
    replace_all signature
      (replace_all known_token (replace_all bearer (replace_all credential_field value))))

-- " …"
abbrev ellipsis : List ℕ
ellipsis = 32 ∷ 0x2026 ∷ []

unfoldable pub finish : Bool → List ℕ → List ℕ → List ℕ
finish truncated fallback [] = utf8 fallback
finish truncated fallback (c ∷ value) =
    truncate_diagnostic (utf8 (if truncated then (c ∷ value) ++ ellipsis else c ∷ value))

unfoldable pub sanitize_whole : Bool → List ℕ → List ℕ → List ℕ
sanitize_whole truncated fallback value =
    let clean = map blank_control (to_valid value) in
    if is_bare_cvc (utf8 clean)
    then utf8 redacted
    else finish truncated fallback (join_words (fields [] (redact clean)))

-- sanitizeDiagnosticText, in bytes
unfoldable pub sanitize_diagnostic_text : List ℕ → List ℕ → List ℕ
sanitize_diagnostic_text [] fallback = utf8 fallback
sanitize_diagnostic_text (c ∷ value) fallback =
    if ltb max_diagnostic_input_bytes (length (c ∷ value))
    then sanitize_whole true fallback (until_valid max_diagnostic_input_bytes (c ∷ value))
    else sanitize_whole false fallback (c ∷ value)

-- fields[name] of a map[string]json.RawMessage: the last of that name
abbrev pub raw_field : String → Members → Option Json
raw_field name end = none
raw_field name (member n j rest) = elim (raw_field name rest) [
  | some k ↦ some k
  | none ↦ if n == name then some j else none
]

abbrev or_next : Option String → Option String → Option String
or_next (some s) o = some s
or_next none o = o

abbrev pub nonempty : String → Option String
nonempty s = if s == "" then none else some s

-- json.Unmarshal(raw, &nested) and nested.Message
abbrev nested_message : Json → Option String
nested_message (obj ms) =
    let (message, good) = string_field "message" ms in if good then nonempty message else none
nested_message _ = none

abbrev plain_message : Json → Option String
plain_message (str s) = nonempty s
plain_message _ = none

abbrev error_message : Option Json → Option String
error_message none = none
error_message (some raw) = or_next (nested_message raw) (plain_message raw)

abbrev text_message : Option Json → Option String
text_message none = none
text_message (some raw) = plain_message raw

unfoldable pub reported : Json → Option String
reported (obj ms) =
    or_next (error_message (raw_field "error" ms)) (text_message (raw_field "message" ms))
reported _ = none

abbrev pub remote_failed : List ℕ
remote_failed = codes "remote API request failed"

-- What is said of a body that reports nothing.
unfoldable pub unreported : Bool → List ℕ → List ℕ
unreported valid [] = codes "remote API returned an empty error response"
unreported true (c ∷ s) = codes "remote API returned an error response"
unreported false (c ∷ s) = codes "remote API returned a non-JSON error"

abbrev message_of : Bool → List ℕ → Option String → List ℕ
message_of valid body none = unreported valid (trim_bytes body)
message_of valid body (some s) = sanitize_diagnostic_text (utf8 (codes s)) remote_failed

abbrev reported_by : Option Json → Option String
reported_by none = none
reported_by (some j) = reported j

unfoldable pub extract_api_error_message : Reader → List ℕ → List ℕ
extract_api_error_message parse body =
    let j = read_json parse body in message_of (is_some j) body (reported_by j)
