-- ===== src/Auth/Wire.antt =====
-- auth_tokens.go: what is made of the OAuth endpoints' answers.
pub mod Decode
use stripelink.Prelude.{
  ℕ, ◌+◌, ◌*◌, ◌/◌, String, concat, Bool, true, false, ◌&&◌, ◌||◌, not, Option, none, some, List,
  [], ◌∷◌, leb, ltb, eqb, ◌==◌, is_some, if◌then◌else◌, length,
}
use stripelink.Prelude.Int.{ℤ, pos, pos_part, not_positive, max_int64}
use stripelink.Errors.{
  Err, plain, wrap, api, ApiError, Message, text, operation, Result, ok, err, fail_if, ◌>>=◌, ◌>>◌,
}
use stripelink.Json.{Json, Members, obj, null, unmarshal, string_field, int_field}
use stripelink.Session.{AuthTokens}

abbrev pub second : ℕ
second = 1000000000

abbrev pub client_id : String
client_id = "lwlpk_U7Qy7ThG69STZk"

abbrev pub default_scope : String
default_scope = "userinfo:read payment_methods.agentic"

-- Status, body, and the body once more if it is JSON.
pub record FormResponse : Type 0 where
  pub status : ℕ
  pub body : List ℕ
  pub details : Option (List ℕ)

abbrev pub is_success : ℕ → Bool
is_success status = leb 200 status && ltb status 300

abbrev pub Reader : Type 0
Reader = List ℕ → Option Json

-- len(body) != 0 && json.Valid(body)
abbrev pub read_json : Reader → List ℕ → Option Json
read_json parse [] = none
read_json parse (c ∷ s) = parse (c ∷ s)

abbrev pub valid_copy : Reader → List ℕ → Option (List ℕ)
valid_copy parse body = if is_some (read_json parse body) then some body else none

unfoldable pub decode_required_json {ℓ} :
    {A : Type ℓ} → Reader → (Members → A × Bool) → List ℕ → Result A
decode_required_json parse decode body = elim (read_json parse body) [
  | none ↦ err (plain "response is not valid JSON")
  | some j ↦ unmarshal decode j
]

-- The response field of a type, and the conjunction of their being well typed.
unfoldable pub tokens_of : Members → AuthTokens × Bool
tokens_of ms =
    let (access, a) = string_field "access_token" ms in
    let (refresh, r) = string_field "refresh_token" ms in
    let (expires_in, i) = int_field "expires_in" ms in
    let (kind, k) = string_field "token_type" ms in
    let (expires_at, e) = int_field "expires_at" ms in
    (
      record {
        access_token = access;
        refresh_token = refresh;
        expires_in = expires_in;
        token_type = kind;
        expires_at = expires_at;
      },
      a && r && i && k && e,
    )

-- `now` is in nanoseconds, the result in epoch milliseconds. The quotient is the longest Duration.
unfoldable pub absolute_expiry : ℕ → ℤ → Option ℤ
absolute_expiry now seconds =
    if not_positive seconds || ltb (max_int64 / second) (pos_part seconds)
    then none
    else some (pos ((now + pos_part seconds * second) / 1000000))

abbrev pub or_malformed {ℓ} : {A : Type ℓ} → String → Option A → Result A
or_malformed message none = err (plain message)
or_malformed message (some a) = ok a

unfoldable pub complete_tokens : ℕ → AuthTokens → Result AuthTokens
complete_tokens now tokens =
    if tokens.access_token == ""
      || tokens.refresh_token == ""
      || tokens.token_type == ""
      || not_positive tokens.expires_in
    then err (plain "malformed token response")
    else do
      expires_at ← or_malformed "malformed token response" (absolute_expiry now tokens.expires_in)
      ok (record tokens { expires_at = expires_at })

unfoldable pub decode_auth_tokens : Reader → ℕ → List ℕ → Result AuthTokens
decode_auth_tokens parse now body = do
  tokens ← decode_required_json parse tokens_of body
  complete_tokens now tokens

abbrev known_codes : List String
known_codes =
    "access_denied" ∷ "authorization_pending" ∷ "expired_token" ∷ "invalid_client" ∷ "invalid_grant"
    ∷ "invalid_request" ∷ "invalid_scope" ∷ "invalid_token" ∷ "slow_down" ∷ "unauthorized_client"
    ∷ "unsupported_grant_type" ∷ []

abbrev one_of : String → List String → Bool
one_of s [] = false
one_of s (t ∷ ts) = s == t || one_of s ts

unfoldable pub safe_oauth_code : String → String
safe_oauth_code code = if one_of code known_codes then code else "api_error"

-- The `error` field; a failed Unmarshal leaves what it had filled in.
unfoldable pub oauth_error_code : Reader → Option (List ℕ) → String
oauth_error_code parse none = ""
oauth_error_code parse (some body) = elim (read_json parse body) [
  | some (obj ms) ↦ (string_field "error" ms).0
  | _ ↦ ""
]

unfoldable pub new_auth_api_error : String → Message → FormResponse → ApiError
new_auth_api_error code message r = record {
  code = safe_oauth_code code;
  message = message;
  status = r.status;
  raw_body = r.body;
  details = r.details;
}

unfoldable pub auth_api_error : Reader → String → FormResponse → ApiError
auth_api_error parse prefix r =
    let code = safe_oauth_code (oauth_error_code parse r.details) in
    new_auth_api_error code (operation prefix r.status (text code)) r

unfoldable pub expired_device_code_error : ApiError
expired_device_code_error = record {
  code = "expired_token";
  message = text "Device code expired. Please restart the login flow.";
  status = 400;
  raw_body = [];
  details = none;
}
