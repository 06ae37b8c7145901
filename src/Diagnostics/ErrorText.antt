-- ===== src/Diagnostics/ErrorText.antt =====
-- errors.go and transport.go: what fmt prints of an APIError and of a TransportError.
--
-- fmt's %q is the parameter `quote`; net/url is the client's parameter. An error that is nil is not
-- modelled.
pub mod Hidden
use stripelink.Prelude.{
  ℕ, zero, suc, ◌+◌, ◌*◌, ◌/◌, ◌%◌, String, concat, Bool, true, false, not, ◌||◌, Option, none,
  some, List, [], ◌∷◌, ◌++◌, codes, length, ltb, ◌==◌, if◌then◌else◌,
}
use stripelink.Errors.{Err, Message, text, operation, remote, ApiError}
use stripelink.Auth.Wire.{Reader}
use stripelink.Client.{BaseUrl, ClientNet}
use stripelink.Diagnostics.{max_diagnostic_bytes, truncate_diagnostic}
use stripelink.Diagnostics.Utf8.{utf8}
use stripelink.Diagnostics.Message.{
  sanitize_diagnostic_text, remote_failed, extract_api_error_message,
}

abbrev pub bytes : String → List ℕ
bytes s = utf8 (codes s)

-- fmt's %d: a number has fewer digits than it is
unfoldable pub decimal_from : ℕ → ℕ → List ℕ
decimal_from zero n = []
decimal_from (suc fuel) n =
    let front = decimal_from fuel (n / 10) in
    let last : List ℕ = (b'0' + n % 10) ∷ [] in if ltb n 10 then last else front ++ last

abbrev pub decimal : ℕ → List ℕ
decimal n = decimal_from (n + 1) n

-- The text that a message stands for.
unfoldable pub rendered : Reader → Message → List ℕ
rendered parse (text s) = bytes s
rendered parse (operation name status m) =
    bytes name ++ (bytes " (" ++ (decimal status ++ (bytes "): " ++ rendered parse m)))
rendered parse (remote body) = extract_api_error_message parse body

-- %#v, or any other verb
pub data Verb : Type 0 where
  structural other : Verb

abbrev pub details_length : Option (List ℕ) → ℕ
details_length none = 0
details_length (some d) = length d

abbrev pub without_secrets : BaseUrl → BaseUrl
without_secrets u = record u {
  has_user = false;
  raw_query = "";
  force_query = false;
  fragment = "";
  raw_fragment = "";
}

-- sanitizeURLForLog, of a URL that is not nil
unfoldable pub sanitize_url_for_log : ClientNet → BaseUrl → List ℕ
sanitize_url_for_log net u = bytes (net.url_text (without_secrets u))

module _ (quote : List ℕ → List ℕ) (parse : Reader) (net : ClientNet) where
  -- APIError.Error
  unfoldable pub api_error_text : ApiError → List ℕ
  api_error_text e = sanitize_diagnostic_text (rendered parse e.message) remote_failed

  -- APIError.safeSummary
  unfoldable pub api_error_summary : ApiError → List ℕ
  api_error_summary e = truncate_diagnostic (
      bytes "&stripelink.APIError{Code:"
      ++ (quote (sanitize_diagnostic_text (bytes e.code) (codes "api_error"))
          ++ (bytes ", Message:"
              ++ (quote (api_error_text e)
                  ++ (bytes ", Status:"
                      ++ (decimal e.status
                          ++ (bytes ", RawBody:<redacted "
                              ++ (decimal (length e.raw_body)
                                  ++ (bytes " bytes>, Details:<redacted "
                                      ++ (decimal (details_length e.details)
                                          ++ bytes " bytes>}"))))))))))

  -- APIError.Format
  unfoldable pub format_api_error : Verb → ApiError → List ℕ
  format_api_error structural e = api_error_summary e
  format_api_error other e = api_error_text e

  abbrev pub or_redacted : List ℕ → List ℕ
  or_redacted safe = if ltb max_diagnostic_bytes (length safe) then bytes "<redacted-url>" else safe

  abbrev pub diagnostic_of : Option BaseUrl → List ℕ
  diagnostic_of none = bytes "<invalid-url>"
  diagnostic_of (some u) =
      if not u.absolute || u.host == "" || not (u.opaque == "")
      then bytes "<invalid-url>"
      else or_redacted (sanitize_url_for_log net u)

  unfoldable pub safe_url_diagnostic : String → List ℕ
  safe_url_diagnostic raw = diagnostic_of (net.parse_url raw)

  -- TransportError.Error, of the method and the URL
  unfoldable pub transport_error_text : String → String → List ℕ
  transport_error_text method url = truncate_diagnostic (
      bytes "Request failed: "
      ++ (sanitize_diagnostic_text (bytes method) (codes "HTTP")
          ++ (bytes " " ++ safe_url_diagnostic url)))

  -- TransportError.safeSummary; the code is always the same
  unfoldable pub transport_error_summary : String → String → List ℕ
  transport_error_summary method url = truncate_diagnostic (
      bytes "&stripelink.TransportError{Code:"
      ++ (quote (sanitize_diagnostic_text (bytes "transport_error") (codes "transport_error"))
          ++ (bytes ", Method:"
              ++ (quote (sanitize_diagnostic_text (bytes method) (codes "HTTP"))
                  ++ (bytes ", URL:"
                      ++ (quote (safe_url_diagnostic url) ++ bytes ", Err:<redacted>}"))))))

  -- TransportError.Format: of the cause nothing is printed
  unfoldable pub format_transport_error : Verb → String → String → Err → List ℕ
  format_transport_error structural method url cause = transport_error_summary method url
  format_transport_error other method url cause = transport_error_text method url
