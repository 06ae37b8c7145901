-- ===== src/Auth/Tokens.antt =====
-- auth_tokens.go: the form posts, RefreshToken, RevokeToken and Logout.
use stripelink.Prelude.{
  ◌*◌, String, concat, Bool, false, not, Option, none, some, List, [], ◌∷◌, ◌==◌, is_blank,
  if◌then◌else◌,
}
use stripelink.Errors.{
  Err, sentinel, wrap, api, not_authenticated, as_api, Result, ok, err, invalid,
}
use stripelink.World.{
  Env, Context, M, ◌>>=◌, ◌>>◌, pure, lift, raise_if, map_err, time_now, context_failure, detached,
  post, form,
}
use stripelink.Transport.{Core, ApiRequest, perform}
use stripelink.Session.{AuthTokens, AuthStorageState}
use stripelink.Storage.{Storage}
use stripelink.Auth.Wire.{
  FormResponse, second, client_id, is_success, valid_copy, decode_auth_tokens, auth_api_error,
}

abbrev pub form_request : {S : Type 0} → Core S → String → List (String × String) → ApiRequest
form_request core path values = record {
  method = post;
  url = concat core.auth_base_url path;
  header = ("Content-Type", "application/x-www-form-urlencoded") ∷ [];
  body = form values;
  authenticated = false;
  retry_on_unauthorized = false;
}

module _ {S : Type 0} (env : Env S) (core : Core S) where
  unfoldable pub post_form : Context → String → List (String × String) → M S FormResponse
  post_form ctx path values = do
    context_failure ctx
    r ← perform env core ctx (form_request core path values)
    pure (record { status = r.0; body = r.1; details = valid_copy env.parse_json r.1 })

  -- if status is no 2xx { return authAPIError(prefix, …) }
  abbrev pub expect_success : String → FormResponse → M S (Unit {0})
  expect_success prefix r =
      raise_if (not (is_success r.status)) (api (auth_api_error env.parse_json prefix r))

  unfoldable pub refresh_token : Context → String → M S AuthTokens
  refresh_token ctx token = do
    context_failure ctx
    raise_if (is_blank token) (invalid "refresh token must not be empty")
    r ←
        post_form ctx "/device/token" (
          ("grant_type", "refresh_token")
          ∷ ("refresh_token", token)
          ∷ ("client_id", client_id)
          ∷ [])
    expect_success "Token refresh failed" r
    now ← time_now
    map_err (wrap "decode token refresh response")
        (lift (decode_auth_tokens env.parse_json now r.body))

  unfoldable pub revoke_token : Context → String → M S (Unit {0})
  revoke_token ctx token = do
    context_failure ctx
    raise_if (is_blank token) (invalid "token must not be empty")
    r ← post_form ctx "/device/revoke" (("client_id", client_id) ∷ ("token", token) ∷ [])
    expect_success "Token revocation failed" r

-- state.Auth.RefreshToken of a state that may be nil, or "".
abbrev pub stored_refresh_token : Option AuthStorageState → String
stored_refresh_token none = ""
stored_refresh_token (some s) = elim s.auth [ none ↦ "" | some a ↦ a.refresh_token ]

-- An API error with the code invalid_token: the token was revoked before.
abbrev pub already_revoked : Err → Bool
already_revoked e = elim (as_api e) [ none ↦ false | some a ↦ a.code == "invalid_token" ]

-- What Logout makes of the revocation's result.
abbrev pub forgive_revoked : Result (Unit {0}) → Result (Unit {0})
forgive_revoked (ok u) = ok u
forgive_revoked (err e) = if already_revoked e then ok tt else err e

abbrev pub attempt : {S : Type 0} → M S (Unit {0}) → M S (Unit {0})
attempt m w = let (r, w') = m w in (forgive_revoked r, w')

module _ {S : Type 0} (env : Env S) (core : Core S) (storage : Storage env) where
  unfoldable pub logout : Context → M S (Unit {0})
  logout ctx = do
    context_failure ctx
    raise_if (not core.manages_session) (invalid "logout is unavailable for caller-owned tokens")
    state ← map_err (wrap "load authentication for logout") (storage.load ctx)
    let token = stored_refresh_token state
    raise_if (token == "") (sentinel not_authenticated)
    attempt (revoke_token env core ctx token)
    start ← time_now
    map_err (wrap "clear revoked authentication") (storage.clear (detached start (30 * second)))
