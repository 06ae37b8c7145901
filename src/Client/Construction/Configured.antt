-- ===== src/Client/Construction/Configured.antt =====
-- What a client that NewClient returns is configured with.
use stripelink.Prelude.{
  String, ◌≡◌, ◌≢◌, ◌⊎◌, inl, inr, refl, sym, ap, true, false, Option, none, some, Option-cases,
  Bool-cases, subst, ◌==◌, eq_iff, arith,
}
use stripelink.Prelude.Int.{ℤ, pos, negsuc, not_positive}
use stripelink.Errors.{Result, ok, err, >>=-eq-ok}
use stripelink.World.{Env, pure}
use stripelink.Transport.{AccessTokenFunc, Core}
use stripelink.Storage.{Storage}
use stripelink.TokenProvider.{token}
use stripelink.TokenProvider.Source.{token-other}
use stripelink.Client.Construction.{
  HttpClient, refuse_redirect, Options, Process, Client, configuring, response_bound,
  resolve_http_client, resolve_spend_url, resolve_storage, with_token_source, assemble, new_client,
  own_transport, caller_transport,
}
use stripelink.Client.{
  BaseUrl, ClientNet, without_slashes, is_loopback_host, check_base_url, normalize_base_url,
  resolve_base_url, HttpHeader, copy_and_validate_default_headers,
}

-- The text of a base URL that no credentials, no query and no plain connection to another host can
-- hide in.
pub record IsSafe (net : ClientNet) (t : String) : Type 0 where
  pub url : BaseUrl
  pub whole : t ≡ net.url_text (without_slashes url)
  pub absolute : url.absolute ≡ true
  pub host : url.host ≢ ""
  pub secure :
      (url.scheme ≡ "https") ⊎ (url.scheme ≡ "http") × (is_loopback_host net url.hostname ≡ true)
  pub anonymous : url.has_user ≡ false
  pub query : (url.raw_query ≡ "") × (url.force_query ≡ false)
  pub fragment : (url.fragment ≡ "") × (url.raw_fragment ≡ "")

check_base_url-IsSafe :
    (net : ClientNet) (u : BaseUrl) (t : String) → check_base_url net u ≡ ok t → IsSafe net t
unfolding check_base_url
check_base_url-IsSafe net u t h = record {
  url = u;
  whole = ground (arith, h);
  absolute = ground (arith, h);
  host = ground (arith, h, eq_iff u.host "");
  secure = ground (arith, h, eq_iff u.scheme "http", eq_iff u.scheme "https");
  anonymous = ground (arith, h);
  query = ground (arith, h, eq_iff u.raw_query "");
  fragment = ground (arith, h, eq_iff u.fragment "", eq_iff u.raw_fragment "");
}

normalize_base_url-IsSafe :
    (net : ClientNet) (raw t : String) → normalize_base_url net raw ≡ ok t → IsSafe net t
unfolding normalize_base_url
normalize_base_url-IsSafe net raw t h = elim (Option-cases (net.parse_url raw)) [
  | inl bad ↦ absurd (cc (rw (bad, normalize_base_url) at h))
  | inr (u, good) ↦ check_base_url-IsSafe net u t (rw (good, normalize_base_url) at h)
]

resolve_base_url-IsSafe :
    (net : ClientNet) (option environment fallback t : String)
    → resolve_base_url net option environment fallback ≡ ok t
    → IsSafe net t
unfolding resolve_base_url
resolve_base_url-IsSafe net option environment fallback t h = normalize_base_url-IsSafe net _ t h

configuring-ok {ℓ} :
    {A : Type ℓ} (what : String) (r : Result A) {a : A} → configuring what r ≡ ok a → r ≡ ok a
configuring-ok what (ok b) h = h
configuring-ok what (err e) h = cc

response_bound-positive :
    (asked bound : ℤ) → response_bound asked ≡ ok bound → not_positive bound ≡ false
unfolding response_bound
response_bound-positive (negsuc n) bound h = cc
response_bound-positive (pos n) bound h = ground (arith, h)

resolve_spend_url-IsSafe :
    (process : Process) (option api t : String)
    → IsSafe process.net api
    → resolve_spend_url process option api ≡ ok t
    → IsSafe process.net t
unfolding resolve_spend_url
resolve_spend_url-IsSafe process option api t safe h = elim (Bool-cases (option == "")) [
  | inl none_given ↦ subst (IsSafe process.net) (cc (rw none_given at h)) safe
  | inr own ↦ normalize_base_url-IsSafe process.net option t (rw own at h)
]

resolve_http_client-refuses :
    (process : Process) (caller : Option HttpClient) (proxy : String) (headers : HttpHeader)
    (client : HttpClient)
    → resolve_http_client process caller proxy headers ≡ ok client
    → client.check_redirect ≡ refuse_redirect
unfolding resolve_http_client
resolve_http_client-refuses process none proxy headers client h =
    let (t, e, r) = >>=-eq-ok (own_transport process proxy) _ h in ground (arith, r)
resolve_http_client-refuses process (some caller) proxy headers client h =
    let (t, e, r) = >>=-eq-ok (caller_transport caller.transport) _ h in ground (arith, r)

==-false : (s t : String) → s ≢ t → (s == t) ≡ false
==-false s t h = ground (arith, eq_iff s t, h)

ok-injective {ℓ} : {A : Type ℓ} (a b : A) → ok a ≡ ok b → a ≡ b
ok-injective a b h = ap (λ r. elim r [ ok x ↦ x | err e ↦ a ]) h

module _ {S : Type 0} (env : Env S) where
  -- The caller's function, else the static token, else the source over the client's own storage; only
  -- the last manages the session.
  abbrev pub IsChosen : Option (AccessTokenFunc S) → String → Storage env → Core S → Type 0
  IsChosen (some get) static storage core =
      (core.get_access_token ≡ some get) × (core.manages_session ≡ false)
  IsChosen none static storage core =
      (static ≢ ""
        → (core.get_access_token ≡ some (λ ctx request. pure static))
          × (core.manages_session ≡ false))
      × (static ≡ ""
          → (core.get_access_token ≡ some (token env core storage)) × (core.manages_session ≡ true))

  pub record IsConfigured (net : ClientNet) (opts : Options env) (client : Client env)
      : Type 0 where
    pub auth : IsSafe net client.core.auth_base_url
    pub api : IsSafe net client.core.api_base_url
    pub spend : IsSafe net client.core.spend_request_base_url
    pub ready : client.core.has_http_client ≡ true
    pub bounded : not_positive client.core.max_response_body_bytes ≡ false
    pub redirects : client.http_client.check_redirect ≡ refuse_redirect
    pub source : IsChosen opts.get_access_token opts.access_token client.storage client.core

  module _ (process : Process) (file_store : String → Storage env) where
    with_token_source-IsChosen :
        (get : Option (AccessTokenFunc S)) (static : String) (storage : Storage env) (core : Core S)
        → core.manages_session ≡ false
        → IsChosen get static storage
            (with_token_source env process file_store get static storage core)
    unfolding with_token_source
    with_token_source-IsChosen (some get) static storage core m = (refl, m)
    with_token_source-IsChosen none static storage core m = (
      λ given. rw (==-false static "" given) (refl, m),
      λ missing. rw ((eq_iff static "").1 missing) (
        ap some (sym (token-other env (record core { manages_session = true }) _ storage)),
        refl,
      ),
    )

    with_token_source-same :
        (get : Option (AccessTokenFunc S)) (static : String) (storage : Storage env) (core : Core S)
        → let c = with_token_source env process file_store get static storage core in
          (c.auth_base_url ≡ core.auth_base_url)
          × (c.api_base_url ≡ core.api_base_url)
          × (c.spend_request_base_url ≡ core.spend_request_base_url)
          × (c.has_http_client ≡ core.has_http_client)
          × (c.max_response_body_bytes ≡ core.max_response_body_bytes)
    unfolding with_token_source
    with_token_source-same (some get) static storage core = (refl, refl, refl, refl, refl)
    with_token_source-same none static storage core = elim (Bool-cases (static == "")) [
      | inl e ↦ rw e (refl, refl, refl, refl, refl)
      | inr e ↦ rw e (refl, refl, refl, refl, refl)
    ]

    assemble-IsConfigured :
        (opts : Options env) (auth api spend : String) (bound : ℤ) (http : HttpClient)
        (storage : Storage env)
        → IsSafe process.net auth
        → IsSafe process.net api
        → IsSafe process.net spend
        → not_positive bound ≡ false
        → http.check_redirect ≡ refuse_redirect
        → IsConfigured process.net opts
            (assemble env process file_store opts auth api spend bound http storage)
    assemble-IsConfigured opts auth api spend bound http storage a b c positive refuses =
        let same = with_token_source-same opts.get_access_token opts.access_token storage _ in
        record {
          auth = subst (IsSafe process.net) (sym same.0) a;
          api = subst (IsSafe process.net) (sym same.1) b;
          spend = subst (IsSafe process.net) (sym same.2) c;
          ready = same.3;
          bounded = rw same.4 positive;
          redirects = refuses;
          source =
              with_token_source-IsChosen opts.get_access_token opts.access_token storage _ refl;
        }

    -- What NewClient returns has base URLs that are safe, a transport that follows no redirect, a
    -- positive bound for bodies, and the token source that the options ask for: the caller's function,
    -- else the static token, else the source over the client's own storage, which alone manages the
    -- session.
    pub new_client-IsConfigured :
        (opts : Options env) (client : Client env)
        → new_client env process file_store opts ≡ ok client
        → IsConfigured process.net opts client
    unfolding new_client
    new_client-IsConfigured opts client h =
        let (auth, e1, h1) = >>=-eq-ok (configuring "auth base URL" _) _ h in
        let (api, e2, h2) = >>=-eq-ok (configuring "API base URL" _) _ h1 in
        let (spend, e3, h3) = >>=-eq-ok (configuring "spend-request base URL" _) _ h2 in
        let (bound, e4, h4) = >>=-eq-ok (response_bound opts.max_response_body_bytes) _ h3 in
        let proxy = process.getenv "LINK_HTTP_PROXY" in
        let (headers, e5, h5) =
          >>=-eq-ok
            (configuring "default headers"
              (copy_and_validate_default_headers process.net opts.default_headers))
            _ h4 in
        let (http, e6, h6) =
          >>=-eq-ok
            (configuring "HTTP client" (resolve_http_client process opts.http_client proxy headers))
            _ h5 in
        let (storage, e7, h7) =
          >>=-eq-ok (resolve_storage env process file_store opts.auth_storage) _ h6 in
        let safe_api = resolve_base_url-IsSafe process.net _ _ _ api (configuring-ok _ _ e2) in
        subst (IsConfigured process.net opts) (ok-injective _ _ h7) (
          assemble-IsConfigured opts auth api spend bound http storage
            (resolve_base_url-IsSafe process.net _ _ _ auth (configuring-ok _ _ e1)) safe_api
            (resolve_spend_url-IsSafe process opts.spend_request_base_url api spend safe_api
              (configuring-ok _ _ e3))
            (response_bound-positive _ bound e4)
            (resolve_http_client-refuses process opts.http_client proxy headers http
              (configuring-ok _ _ e6)))
