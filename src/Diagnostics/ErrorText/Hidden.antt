-- ===== src/Diagnostics/ErrorText/Hidden.antt =====
-- What no verb of fmt prints of an error: a body, a cause, and the secret parts of a URL.
use stripelink.Prelude.{ℕ, ◌≤◌, ◌≡◌, refl, String, some, List, length}
use stripelink.Errors.{Err, ApiError}
use stripelink.Auth.Wire.{Reader}
use stripelink.Client.{BaseUrl, ClientNet}
use stripelink.Diagnostics.{max_diagnostic_bytes, truncate_diagnostic_lem}
use stripelink.Diagnostics.Message.Presentable.{sanitize_diagnostic_text-IsPresentable}
use stripelink.Diagnostics.ErrorText.{
  Verb, structural, other, rendered, details_length, api_error_text, api_error_summary,
  format_api_error, sanitize_url_for_log, diagnostic_of, safe_url_diagnostic, transport_error_text,
  transport_error_summary, format_transport_error,
}

-- Two URLs that differ in their user information, query and fragment only.
pub record SamePlace (u v : BaseUrl) : Type 0 where
  pub absolute : u.absolute ≡ v.absolute
  pub opaque : u.opaque ≡ v.opaque
  pub host : u.host ≡ v.host
  pub scheme : u.scheme ≡ v.scheme
  pub hostname : u.hostname ≡ v.hostname
  pub path : u.path ≡ v.path
  pub raw_path : u.raw_path ≡ v.raw_path

-- Two API errors that say the same, of bodies that may differ.
pub record SameReport (parse : Reader) (a b : ApiError) : Type 0 where
  pub code : a.code ≡ b.code
  pub message : rendered parse a.message ≡ rendered parse b.message
  pub status : a.status ≡ b.status
  pub body : length a.raw_body ≡ length b.raw_body
  pub details : details_length a.details ≡ details_length b.details

pub sanitize_url_for_log-SamePlace :
    (net : ClientNet) (u v : BaseUrl)
    → SamePlace u v
    → sanitize_url_for_log net u ≡ sanitize_url_for_log net v
unfolding sanitize_url_for_log
sanitize_url_for_log-SamePlace net u v s =
    rw (s.absolute, s.opaque, s.host, s.scheme, s.hostname, s.path, s.raw_path) refl

module _ (quote : List ℕ → List ℕ) (parse : Reader) (net : ClientNet) where
  -- However fmt is asked for an APIError, it prints at most 512 bytes, which depend on the code, the
  -- text of the message and the status, and of the body and the details on their lengths alone.
  pub format_api_error-hides :
      (verb : Verb) (a b : ApiError)
      → SameReport parse a b
      → (length (format_api_error quote parse net verb a) ≤ max_diagnostic_bytes)
        × (format_api_error quote parse net verb a ≡ format_api_error quote parse net verb b)
  unfolding format_api_error api_error_summary api_error_text
  format_api_error-hides structural a b s =
      ((truncate_diagnostic_lem _).0, rw (s.code, s.message, s.status, s.body, s.details) refl)
  format_api_error-hides other a b s =
      ((sanitize_diagnostic_text-IsPresentable _).bounded, rw s.message refl)

  diagnostic_of-SamePlace :
      (u v : BaseUrl)
      → SamePlace u v
      → diagnostic_of quote parse net (some u) ≡ diagnostic_of quote parse net (some v)
  diagnostic_of-SamePlace u v s =
      rw (sanitize_url_for_log-SamePlace net u v s, s.absolute, s.opaque, s.host) refl

  -- However fmt is asked for a TransportError, it prints at most 512 bytes, which do not depend on the
  -- cause, nor on the user information, the query and the fragment of the URL.
  pub format_transport_error-hides :
      (verb : Verb) (method url url' : String) (cause cause' : Err) (u v : BaseUrl)
      → net.parse_url url ≡ some u
      → net.parse_url url' ≡ some v
      → SamePlace u v
      → (length (format_transport_error quote parse net verb method url cause)
          ≤ max_diagnostic_bytes)
        × (format_transport_error quote parse net verb method url cause
            ≡ format_transport_error quote parse net verb method url' cause')
  unfolding format_transport_error transport_error_text transport_error_summary safe_url_diagnostic
  format_transport_error-hides structural method url url' cause cause' u v e f s =
      ((truncate_diagnostic_lem _).0, rw (e, f, diagnostic_of-SamePlace u v s) refl)
  format_transport_error-hides other method url url' cause cause' u v e f s =
      ((truncate_diagnostic_lem _).0, rw (e, f, diagnostic_of-SamePlace u v s) refl)
