-- ===== src/Client/Construction.antt =====
-- client.go: NewClient, which resolves the options and puts the parts of a client together.
--
-- The process is the parameter `Process`: os.Getenv, whether http.DefaultTransport is an
-- *http.Transport, and the parameters of the base URLs and of a store's path. `file_store` is the file
-- store at a path. The logger prints only.
pub mod Configured
pub mod Refused
pub mod Replays
use stripelink.Prelude.{
  ℕ, String, Bool, true, false, not, ◌&&◌, ◌||◌, Option, none, some, List, [], ◌∷◌, ◌==◌, eqb,
  if◌then◌else◌,
}
use stripelink.Prelude.Int.{ℤ, pos, negsuc}
use stripelink.Errors.{
  Err, plain, wrap, join, sentinel, invalid_configuration, Result, ok, err, fail_if, misconfigured,
  ◌>>=◌, ◌>>◌,
}
use stripelink.World.{Env, Context, M, pure}
use stripelink.Transport.{AccessTokenRequest, AccessTokenFunc, Core}
use stripelink.Storage.{Storage}
use stripelink.FileStorage.Path.{Paths, new_file_storage}
use stripelink.TokenProvider.{token}
use stripelink.Client.{
  BaseUrl, ClientNet, HttpHeader, normalize_base_url, resolve_base_url,
  copy_and_validate_default_headers,
}

-- An interface value: nil, one that holds a nil pointer, or a value.
pub data Interface {ℓ} (A : Type ℓ) : Type ℓ where
  nil typed_nil : Interface A
  holds : A → Interface A

pub data RoundTripper : Type 0 where
  -- http.DefaultTransport itself, and the clones of it, without a proxy and with one
  default_transport direct : RoundTripper
  proxied : BaseUrl → RoundTripper
  -- one of the caller's
  custom : ℕ → RoundTripper
  -- defaultHeaderTransport
  with_headers : HttpHeader → RoundTripper → RoundTripper

-- http.Client's CheckRedirect: nil or a function of the caller's, or refuseRedirect.
pub data RedirectPolicy : Type 0 where
  followed : ℕ → RedirectPolicy
  refuse_redirect : RedirectPolicy

pub record HttpClient : Type 0 where
  pub transport : Interface RoundTripper
  pub check_redirect : RedirectPolicy
  -- the cookie jar, if there is one, and the timeout
  pub jar : Option ℕ
  pub timeout : ℤ

pub data Logger : Type 0 where
  given : ℕ → Logger
  text_on_stderr discard : Logger

pub record Options {S : Type 0} (env : Env S) : Type 1 where
  pub client_name : String
  pub access_token : String
  pub get_access_token : Option (AccessTokenFunc S)
  pub auth_storage : Interface (Storage env)
  pub http_client : Option HttpClient
  pub default_headers : HttpHeader
  pub max_response_body_bytes : ℤ
  pub auth_base_url : String
  pub api_base_url : String
  pub spend_request_base_url : String
  pub logger : Option Logger
  pub verbose : Bool

pub record Process : Type 0 where
  pub getenv : String → String
  pub standard_default_transport : Bool
  pub net : ClientNet
  pub paths : Paths

-- What the resources of a client share, and what its engine's calls go through.
pub record Client {S : Type 0} (env : Env S) : Type 1 where
  pub core : Core S
  pub http_client : HttpClient
  pub storage : Storage env
  pub logger : Logger
  pub verbose : Bool

abbrev pub default_client_name : String
default_client_name = "github.com/mackross/stripelink"

abbrev pub default_auth_base_url : String
default_auth_base_url = "https://login.link.com"

abbrev pub default_api_base_url : String
default_api_base_url = "https://api.link.com"

-- 4 << 20
abbrev pub default_max_response_body_bytes : ℤ
default_max_response_body_bytes = pos 4194304

-- fmt.Errorf("%w: <what>: %w", ErrInvalidConfiguration, err)
abbrev pub configuring {ℓ} : {A : Type ℓ} → String → Result A → Result A
configuring what (ok a) = ok a
configuring what (err e) = err (wrap what (join (sentinel invalid_configuration) e))

unfoldable pub response_bound : ℤ → Result ℤ
response_bound (negsuc n) = err (misconfigured "MaxResponseBodyBytes must not be negative")
response_bound (pos n) = ok (if eqb n 0 then default_max_response_body_bytes else pos n)

abbrev pub refusing : RoundTripper → HttpClient → HttpClient
refusing transport client = record client {
  transport = holds transport;
  check_redirect = refuse_redirect;
}

-- &defaultHeaderTransport, if there are any headers
abbrev pub behind_headers : HttpHeader → RoundTripper → RoundTripper
behind_headers [] transport = transport
behind_headers (h ∷ hs) transport = with_headers (h ∷ hs) transport

-- http.Client{}
abbrev pub zero_client : HttpClient
zero_client = record { transport = nil; check_redirect = followed 0; jar = none; timeout = pos 0 }

abbrev pub caller_transport : Interface RoundTripper → Result RoundTripper
caller_transport nil = ok default_transport
caller_transport typed_nil = err (plain "custom HTTP transport is typed nil")
caller_transport (holds transport) = ok transport

abbrev pub choose_logger : Bool → Option Logger → Logger
choose_logger verbose (some l) = l
choose_logger verbose none = if verbose then text_on_stderr else discard

module _ (process : Process) where
  unfoldable pub check_proxy : BaseUrl → Result RoundTripper
  check_proxy u =
      if not u.absolute || u.host == "" || (not (u.scheme == "http") && not (u.scheme == "https"))
      then err (plain "invalid LINK_HTTP_PROXY: proxy must be an absolute HTTP(S) URL")
      else ok (proxied u)

  unfoldable pub proxy_transport : String → Result RoundTripper
  proxy_transport raw = if raw == "" then ok direct else elim (process.net.parse_url raw) [
    | none ↦ err (wrap "invalid LINK_HTTP_PROXY" (plain "parse"))
    | some u ↦ check_proxy u
  ]

  unfoldable pub own_transport : String → Result RoundTripper
  own_transport raw = do
    fail_if (not process.standard_default_transport) (plain "default transport has unexpected type")
    proxy_transport raw

  unfoldable pub resolve_http_client : Option HttpClient → String → HttpHeader → Result HttpClient
  resolve_http_client (some caller) raw headers = do
    transport ← caller_transport caller.transport
    ok (refusing (behind_headers headers transport) caller)
  resolve_http_client none raw headers = do
    transport ← own_transport raw
    ok (refusing (behind_headers headers transport) zero_client)

  unfoldable pub resolve_spend_url : String → String → Result String
  resolve_spend_url option api =
      if option == "" then ok api else normalize_base_url process.net option

module _ {S : Type 0} (env : Env S) (process : Process) (file_store : String → Storage env) where
  -- The path is resolved only where the caller gives no storage.
  unfoldable pub resolve_storage : Interface (Storage env) → Result (Storage env)
  resolve_storage nil = do
    path ← configuring "auth storage" (new_file_storage process.paths "")
    ok (file_store path)
  resolve_storage typed_nil = err (misconfigured "auth storage: typed-nil AuthStorage")
  resolve_storage (holds storage) = ok storage

  -- The switch over the token options. The provider's auth resource shares the client's core; its
  -- own requests ask for no token, so that the core without a source stands for it.
  unfoldable pub with_token_source :
      Option (AccessTokenFunc S) → String → Storage env → Core S → Core S
  with_token_source (some get) static storage core = record core { get_access_token = some get }
  with_token_source none static storage core =
      let managed : Core S = record core { manages_session = true } in
      if not (static == "")
      then record core { get_access_token = some (λ ctx request. pure static) }
      else record managed { get_access_token = some (token env managed storage) }

  abbrev pub assemble :
      Options env → String → String → String → ℤ → HttpClient → Storage env → Client env
  assemble opts auth_base_url api_base_url spend_request_base_url bound http_client storage =
      let core : Core S = record {
        client_name = if opts.client_name == "" then default_client_name else opts.client_name;
        has_http_client = true;
        get_access_token = none;
        auth_base_url = auth_base_url;
        api_base_url = api_base_url;
        spend_request_base_url = spend_request_base_url;
        manages_session = false;
        max_response_body_bytes = bound;
      } in
      record {
        core = with_token_source opts.get_access_token opts.access_token storage core;
        http_client = http_client;
        storage = storage;
        logger = choose_logger opts.verbose opts.logger;
        verbose = opts.verbose;
      }

  unfoldable pub new_client : Options env → Result (Client env)
  new_client opts = do
    auth_base_url ← configuring "auth base URL" (
        resolve_base_url process.net opts.auth_base_url (process.getenv "LINK_AUTH_BASE_URL")
          default_auth_base_url)
    api_base_url ← configuring "API base URL" (
        resolve_base_url process.net opts.api_base_url (process.getenv "LINK_API_BASE_URL")
          default_api_base_url)
    spend_request_base_url ←
        configuring "spend-request base URL"
          (resolve_spend_url process opts.spend_request_base_url api_base_url)
    bound ← response_bound opts.max_response_body_bytes
    headers ←
        configuring "default headers"
          (copy_and_validate_default_headers process.net opts.default_headers)
    http_client ←
        configuring "HTTP client"
          (resolve_http_client process opts.http_client (process.getenv "LINK_HTTP_PROXY") headers)
    storage ← resolve_storage opts.auth_storage
    ok (assemble opts auth_base_url api_base_url spend_request_base_url bound http_client storage)
