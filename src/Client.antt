-- ===== src/Client.antt =====
-- client.go: the base URLs and the default headers of a client.
--
-- net/url, net, textproto and strings.EqualFold are the parameter `ClientNet`. Go walks the map of
-- headers in any order: the list that stands for it is one.
pub mod Headers
pub mod Construction
use Prim.Native.Char.{code}
use stripelink.Prelude.{
  ℕ, zero, suc, String, codes, Bool, true, false, not, ◌&&◌, ◌||◌, List, [], ◌∷◌, ◌++◌, Option,
  none, some, eqb, ◌==◌, if◌then◌else◌,
}
use stripelink.Errors.{plain, Result, ok, err, fail_if, ◌>>=◌, ◌>>◌}

-- What normalizeBaseURL reads of a url.URL.
pub record BaseUrl : Type 0 where
  pub absolute : Bool
  pub opaque : String
  pub host : String
  pub scheme : String
  pub has_user : Bool
  pub raw_query : String
  pub force_query : Bool
  pub fragment : String
  pub raw_fragment : String
  pub hostname : String
  pub path : String
  pub raw_path : String

pub record ClientNet : Type 0 where
  pub parse_url : String → Option BaseUrl
  -- URL.String
  pub url_text : BaseUrl → String
  -- net.ParseIP is not nil, and IsLoopback
  pub is_loopback_ip : String → Bool
  -- textproto.CanonicalMIMEHeaderKey
  pub canonical_key : String → String
  pub equal_fold : String → String → Bool

-- strings.TrimSuffix(s, "/")
unfoldable pub trim_slash : String → String
trim_slash String.[] = String.[]
trim_slash (String.◌∷◌ c s) =
    let rest = trim_slash s in if (s == "") && eqb (code c) b'/' then "" else String.◌∷◌ c rest

-- strings.TrimRight(s, "/"), with the number of slashes removed
unfoldable pub trim_slashes : String → String × ℕ
trim_slashes String.[] = (String.[], 0)
trim_slashes (String.◌∷◌ c s) =
    let (rest, n) = trim_slashes s in
    if (rest == "") && eqb (code c) b'/' then ("", suc n) else (String.◌∷◌ c rest, n)

unfoldable pub trim_times : ℕ → String → String
trim_times zero s = s
trim_times (suc n) s = trim_times n (trim_slash s)

unfoldable pub without_slashes : BaseUrl → BaseUrl
without_slashes u =
    let (raw, n) = trim_slashes u.raw_path in
    if u.raw_path == ""
    then record u { path = (trim_slashes u.path).0 }
    else record u { raw_path = raw; path = trim_times n u.path }

abbrev reserved_default_headers : List String
reserved_default_headers =
    "Authorization" ∷ "Proxy-Authenticate" ∷ "Proxy-Authorization" ∷ "Cookie" ∷ "Set-Cookie"
    ∷ "Host" ∷ "Content-Length" ∷ "Transfer-Encoding" ∷ "Connection" ∷ "Keep-Alive"
    ∷ "Proxy-Connection" ∷ "Te" ∷ "Trailer" ∷ "Upgrade" ∷ []

abbrev is_among : String → List String → Bool
is_among s [] = false
is_among s (t ∷ ts) = s == t || is_among s ts

unfoldable pub is_reserved : String → Bool
is_reserved name = is_among name reserved_default_headers

-- strings.ContainsAny(s, "\r\n")
unfoldable pub breaks_line : List ℕ → Bool
breaks_line [] = false
breaks_line (c ∷ s) = eqb c 13 || eqb c 10 || breaks_line s

abbrev pub HttpHeader : Type 0
HttpHeader = List (String × String)

-- copy[name] = value
unfoldable pub set_header : String → String → HttpHeader → HttpHeader
set_header name value [] = (name, value) ∷ []
set_header name value ((n, v) ∷ rest) =
    if n == name then (name, value) ∷ rest else (n, v) ∷ set_header name value rest

module _ (net : ClientNet) where
  unfoldable pub is_loopback_host : String → Bool
  is_loopback_host host = net.equal_fold host "localhost" || net.is_loopback_ip host

  unfoldable pub check_base_url : BaseUrl → Result String
  check_base_url u = do
    fail_if (not u.absolute || not (u.opaque == "") || u.host == "")
        (plain "must be an absolute hierarchical URL with a host")
    fail_if (not (u.scheme == "http") && not (u.scheme == "https"))
        (plain "scheme must be http or https")
    fail_if u.has_user (plain "user information is not permitted")
    fail_if (not (u.raw_query == "") || u.force_query) (plain "query is not permitted")
    fail_if (not (u.fragment == "") || not (u.raw_fragment == ""))
        (plain "fragment is not permitted")
    fail_if ((u.scheme == "http") && not (is_loopback_host u.hostname))
        (plain "plain HTTP is permitted only for loopback hosts")
    ok (net.url_text (without_slashes u))

  unfoldable pub normalize_base_url : String → Result String
  normalize_base_url raw = elim (net.parse_url raw) [
    | none ↦ err (plain "parse")
    | some u ↦ check_base_url u
  ]

  unfoldable pub resolve_base_url : String → String → String → Result String
  resolve_base_url option environment fallback =
      normalize_base_url
        (if option == "" then if environment == "" then fallback else environment else option)

  unfoldable pub copy_and_validate : HttpHeader → HttpHeader → Result HttpHeader
  copy_and_validate copy [] = ok copy
  copy_and_validate copy ((name, value) ∷ rest) = do
    let key = net.canonical_key name
    fail_if (key == "" || breaks_line (codes name)) (plain "invalid header name")
    fail_if (is_reserved key) (plain "header is reserved")
    fail_if (breaks_line (codes value)) (plain "header has an invalid value")
    copy_and_validate (set_header key value copy) rest

  unfoldable pub copy_and_validate_default_headers : HttpHeader → Result HttpHeader
  copy_and_validate_default_headers headers = copy_and_validate [] headers

  unfoldable pub header_present : HttpHeader → String → Bool
  header_present [] name = false
  header_present ((existing, v) ∷ header) name =
      net.equal_fold existing name || header_present header name

  -- defaultHeaderTransport.RoundTrip, up to the base transport
  unfoldable pub add_default_headers : HttpHeader → HttpHeader → HttpHeader
  add_default_headers header [] = header
  add_default_headers header ((name, value) ∷ defaults) =
      add_default_headers
        (if header_present header name then header else header ++ ((name, value) ∷ [])) defaults
