-- ===== src/WebBotAuth.antt =====
-- web_bot_auth.go: SignURL. This file has what one call checks and fetches; Flight has the cache and
-- the calls that concurrent callers share.
--
-- net/url, net, strings.ToLower, time.Parse and encoding/json are parameters.
pub mod Flight
pub mod Fetch
pub mod Fetched
use Prim.Native.Char.{code}
use stripelink.Prelude.{
  ℕ, ◌+◌, ◌*◌, String, concat, codes, trim_space, Bool, true, false, ◌&&◌, ◌||◌, not, is_some,
  Option, none, some, List, [], ◌∷◌, ltb, eqb, ◌==◌, is_blank, if◌then◌else◌,
}
use stripelink.Prelude.Int.{ℤ, pos_part}
use stripelink.Errors.{Err, plain, wrap, Result, ok, err, invalid, fail_if, ◌>>=◌, ◌>>◌}
use stripelink.Json.{codes_eq, matches}

pub record WebBotAuthBlock : Type 0 where
  pub signature : String
  pub signature_input : String
  pub signature_agent : String
  pub authority : String
  pub expires_at : String

-- What SignURL reads of a url.URL.
pub record Url : Type 0 where
  pub absolute : Bool
  pub opaque : String
  pub host : String
  pub scheme : String
  pub has_user : Bool
  pub hostname : String

pub record Net : Type 0 where
  pub parse_url : String → Option Url
  -- net.ParseIP, and the address's text
  pub parse_ip : String → Option String
  pub to_lower : String → String
  -- time.Parse(time.RFC3339Nano), in nanoseconds since the epoch
  pub parse_time : String → Option ℤ

abbrev among : ℕ → List ℕ → Bool
among c [] = false
among c (d ∷ s) = eqb c d || among c s

-- strings.ContainsAny
unfoldable pub contains_any : List ℕ → List ℕ → Bool
contains_any cs [] = false
contains_any cs (c ∷ s) = among c cs || contains_any cs s

abbrev first_is : ℕ → List ℕ → Bool
first_is c [] = false
first_is c (d ∷ s) = eqb c d

abbrev last_is : ℕ → List ℕ → Bool
last_is c [] = false
last_is c (d ∷ []) = eqb c d
last_is c (d ∷ e ∷ s) = last_is c (e ∷ s)

abbrev trim_first : ℕ → String → String
trim_first c String.[] = String.[]
trim_first c (String.◌∷◌ d s) = if eqb c (code d) then s else String.◌∷◌ d s

-- strings.TrimSuffix, of one character
unfoldable pub trim_last : ℕ → String → String
trim_last c String.[] = String.[]
trim_last c (String.◌∷◌ d s) =
    let rest = trim_last c s in if (s == "") && eqb c (code d) then "" else String.◌∷◌ d rest

module _ (net : Net) where
  unfoldable pub canonical_web_bot_hostname : String → String
  canonical_web_bot_hostname name =
      let hostname = trim_last b'.' name in
      elim (net.parse_ip hostname) [ some ip ↦ ip | none ↦ net.to_lower hostname ]

  unfoldable pub check_url : Url → Result String
  check_url u = do
    fail_if (not u.absolute || not (u.opaque == "") || u.host == "")
        (plain "must be an absolute hierarchical URL with a host")
    fail_if (not (matches "http" u.scheme || matches "https" u.scheme))
        (plain "scheme must be HTTP or HTTPS")
    fail_if u.has_user (plain "user information is not permitted")
    fail_if (u.hostname == "") (plain "hostname must not be empty")
    fail_if (contains_any (32 ∷ 9 ∷ 13 ∷ 10 ∷ 0 ∷ []) (codes u.hostname))
        (plain "hostname contains invalid whitespace")
    let canonical = canonical_web_bot_hostname u.hostname
    fail_if (canonical == "") (plain "hostname must not be empty")
    ok canonical

  unfoldable pub web_bot_authority : String → Result String
  web_bot_authority raw = elim (net.parse_url raw) [
    | none ↦ err (plain "parse")
    | some u ↦ check_url u
  ]

  abbrev unbracketed : String → String
  unbracketed s =
      if first_is b'[' (codes s) && last_is b']' (codes s)
      then trim_last b']' (trim_first b'[' s)
      else s

  unfoldable pub canonical_web_bot_block_authority : String → Result String
  canonical_web_bot_block_authority authority = do
    fail_if
        (not (codes_eq (codes authority) (trim_space (codes authority)))
          || contains_any (47 ∷ 64 ∷ 63 ∷ 35 ∷ 32 ∷ 9 ∷ 13 ∷ 10 ∷ 0 ∷ []) (codes authority))
        (plain "invalid authority")
    let hostname = unbracketed authority
    fail_if
        (hostname == ""
          || contains_any (58 ∷ []) (codes hostname) && not (is_some (net.parse_ip hostname)))
        (plain "invalid authority")
    ok (canonical_web_bot_hostname hostname)

  -- The walk over the fields is in Go's order of a map, so the field is not named.
  abbrev has_blank : WebBotAuthBlock → Bool
  has_blank b =
      is_blank b.signature
      || is_blank b.signature_input
      || is_blank b.signature_agent
      || is_blank b.authority
      || is_blank b.expires_at

  abbrev pub is_bound : Result String → String → Bool
  is_bound (ok bound) authority = bound == authority
  is_bound (err e) authority = false

  abbrev pub parsed_expiry : Option ℤ → ℕ → Result ℕ
  parsed_expiry none now = err (invalid "credentials response has invalid expires_at")
  parsed_expiry (some e) now =
      if ltb now (pos_part e)
      then ok (pos_part e)
      else err (invalid "credentials response is expired")

  unfoldable pub validate_web_bot_auth_block : WebBotAuthBlock → String → ℕ → Result ℕ
  validate_web_bot_auth_block block authority now = do
    fail_if (has_blank block) (invalid "web_bot_auth field must not be empty")
    fail_if (not (is_bound (canonical_web_bot_block_authority block.authority) authority))
        (invalid "web_bot_auth authority does not match requested hostname")
    parsed_expiry (net.parse_time block.expires_at) now

-- webBotAuthExpiryBuffer
abbrev pub web_bot_auth_expiry_buffer : ℕ
web_bot_auth_expiry_buffer = 30 * 1000000000
