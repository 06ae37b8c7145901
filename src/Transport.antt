-- ===== src/Transport.antt =====
-- transport.go: the one request engine behind every resource.
--
-- Not modelled here: the metadata log, which writes nothing that a result depends on, and a nil
-- receiver. An `int64` bound is an integer.
pub mod Responses
pub mod Replay
pub mod Plain
use stripelink.Prelude.{
  ℕ, zero, suc, ◌+◌, ◌<◌, String, Bool, true, false, ◌&&◌, ◌||◌, not, Option, none, some, List, [],
  ◌∷◌, concat, eqb, ltb, leb, ◌==◌, if◌then◌else◌, length, take, is_some,
}
use stripelink.Prelude.Int.{ℤ, pos_part, not_positive, max_int64}
use stripelink.Errors.{
  Err, sentinel, wrap, join, api, transport, not_authenticated, invalid_argument,
  response_too_large, redirect, ApiError, Message, remote, Result, ok, err, invalid, misconfigured,
}
use stripelink.Json.{Json}
use stripelink.World.{
  Env, World, Context, nil_context, context, M, ◌>>=◌, ◌>>◌, pure, raise, lift, raise_if, exchange,
  Method, get, post, method_name, Payload, HttpRequest, Stream, Exchange, failed, answered,
}

-- `rejected_token` is the token that a 401 answered.
pub record AccessTokenRequest : Type 0 where
  pub force_refresh : Bool
  pub rejected_token : String

abbrev pub AccessTokenFunc : Type 0 → Type 0
AccessTokenFunc S = Context → AccessTokenRequest → M S String

pub record Core (S : Type 0) : Type 0 where
  pub client_name : String
  -- whether httpClient is set
  pub has_http_client : Bool
  pub get_access_token : Option (AccessTokenFunc S)
  pub auth_base_url : String
  pub api_base_url : String
  pub spend_request_base_url : String
  pub manages_session : Bool
  pub max_response_body_bytes : ℤ

pub record ApiRequest : Type 0 where
  pub method : Method
  pub url : String
  pub header : List (String × String)
  pub body : Payload
  pub authenticated : Bool
  pub retry_on_unauthorized : Bool

abbrev pub transport_error : Method → String → Err → Err
transport_error method url cause = transport (method_name method) url cause

-- readBoundedAndClose. The reader's own error shows only if the bound does not cut it off.
abbrev pub or_failure : Option Err → Result (List ℕ) → Result (List ℕ)
or_failure none r = r
or_failure (some e) r = err e

abbrev read_limit : ℕ → ℕ
read_limit maximum = if ltb maximum max_int64 then maximum + 1 else maximum

unfoldable pub read_bounded : Option Stream → ℕ → Result (List ℕ)
read_bounded none maximum = ok []
read_bounded (some s) maximum =
    let limit = read_limit maximum in
    let contents = take limit s.bytes in
    or_failure (if ltb (length s.bytes) limit then s.failure else none) (
      if ltb maximum (length contents)
      then err (sentinel response_too_large)
      else or_failure s.close_failure (ok contents))

-- An error of the read is the transport's, but for the bound's own.
abbrev pub read_error : ApiRequest → Err → Err
read_error req (sentinel response_too_large) = sentinel response_too_large
read_error req e = transport_error req.method req.url e

abbrev pub is_redirect : ℕ → Bool
is_redirect status = leb 300 status && ltb status 400

-- What becomes of an answer.
unfoldable pub receive : ApiRequest → ℕ → Exchange → Result (ℕ × List ℕ)
receive req maximum (failed e) = err (transport_error req.method req.url e)
receive req maximum (answered status body) = elim (read_bounded body maximum) [
  | err e ↦ err (read_error req e)
  | ok contents ↦
      if is_redirect status
      then err (transport_error req.method req.url (sentinel redirect))
      else ok (status, contents)
]

unfoldable pub http_request : ApiRequest → String → HttpRequest
http_request req token = record {
  method = req.method;
  url = req.url;
  header = req.header;
  bearer = if req.authenticated then some (concat "Bearer " token) else none;
  body = req.body;
}

abbrev pub construction : Option Err → Result (Unit {0})
construction none = ok tt
construction (some e) = err (wrap "construct HTTP request" (join (sentinel invalid_argument) e))

-- if token == "" { return ErrNotAuthenticated }
unfoldable pub some_token : String → Result String
some_token token = if token == "" then err (sentinel not_authenticated) else ok token

abbrev pub is_get : Method → Bool
is_get get = true
is_get post = false

abbrev pub maximum_attempts : ApiRequest → ℕ
maximum_attempts req =
    if req.authenticated && req.retry_on_unauthorized && is_get req.method then 2 else 1

module _ {S : Type 0} where
  -- The end of the loop's body: return, or ask for a token that replaces the rejected one and go on
  -- with it.
  unfoldable pub after_attempt :
      AccessTokenFunc S
      → Context
      → ℕ
      → String
      → (String → M S (ℕ × List ℕ))
      → ℕ × List ℕ
      → M S (ℕ × List ℕ)
  after_attempt source ctx left token next r =
      if not (eqb r.0 401) || eqb left 0 then pure r else do
        refreshed ← source ctx (record { force_refresh = true; rejected_token = token })
        token' ← lift (some_token refreshed)
        next token'

module _ {S : Type 0} (env : Env S) where
  unfoldable pub do_attempt : Core S → ApiRequest → String → M S (ℕ × List ℕ)
  do_attempt core req token = do
    let r = http_request req token
    lift (construction (env.construct r))
    answer ← exchange env r
    lift (receive req (pos_part core.max_response_body_bytes) answer)

  -- The loop of `do` with so many attempts left, behind the token source.
  unfoldable pub attempts :
      Core S → AccessTokenFunc S → Context → ApiRequest → ℕ → String → M S (ℕ × List ℕ)
  attempts core source ctx req zero token = pure (0, [])
  attempts core source ctx req (suc left) token = do
    r ← do_attempt core req token
    after_attempt source ctx left token (attempts core source ctx req left) r

  -- `authenticated` requests ask the source first. The others have one attempt, so that the loop
  -- returns what it brings.
  unfoldable pub authenticated_engine :
      Core S → Option (AccessTokenFunc S) → Context → ApiRequest → M S (ℕ × List ℕ)
  authenticated_engine core none ctx req = raise (sentinel not_authenticated)
  authenticated_engine core (some source) ctx req = do
    first ← source ctx (record { force_refresh = false; rejected_token = "" })
    token ← lift (some_token first)
    attempts core source ctx req (maximum_attempts req) token

  unfoldable pub engine : Core S → Context → ApiRequest → M S (ℕ × List ℕ)
  engine core ctx req =
      if req.authenticated
      then authenticated_engine core core.get_access_token ctx req
      else do_attempt core req ""

  -- core.do
  unfoldable pub perform : Core S → Context → ApiRequest → M S (ℕ × List ℕ)
  perform core nil_context req = raise (invalid "context must not be nil")
  perform core (context c) req = do
    raise_if (not core.has_http_client) (misconfigured "client transport is not configured")
    raise_if (not_positive core.max_response_body_bytes)
        (misconfigured "response body bound is not configured")
    engine core (context c) req
