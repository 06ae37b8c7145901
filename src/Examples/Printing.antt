-- ===== src/Examples/Printing.antt =====
-- The theorems on what fmt prints of errors, and the log of requests, at concrete inputs: two bodies of the same length, and two
-- URLs with a query each.
use stripelink.Prelude.{
  ℕ, ◌≤◌, ◌≡◌, refl, String, ◌==◌, concat, true, false, none, some, List, [], ◌∷◌, length,
  trim_bytes, All,
}
use stripelink.World.{HttpRequest, Exchange, answered, get, no_body}
use stripelink.Transport.{read_bounded}
use stripelink.Diagnostics.Log.{sorted_header_names, sent_header, attempt_log}
use stripelink.Diagnostics.Log.Shown.{IsOrderly, both_answered, attempt_log-hides}
use stripelink.Errors.{sentinel, canceled, redirect, remote, ApiError}
use stripelink.Auth.Wire.{Reader}
use stripelink.Client.{BaseUrl, ClientNet}
use stripelink.Diagnostics.{max_diagnostic_bytes}
use stripelink.Diagnostics.Message.{extract_api_error_message, unreported}
use stripelink.Diagnostics.ErrorText.{
  structural, other, rendered, format_api_error, format_transport_error,
}
use stripelink.Diagnostics.ErrorText.Hidden.{
  SameReport, SamePlace, format_api_error-hides, format_transport_error-hides,
}

-- Nothing is JSON here.
abbrev no_json : Reader
no_json body = none

abbrev failing : List ℕ → ApiError
failing body = record {
  code = "api_error";
  message = remote body;
  status = 502;
  raw_body = body;
  details = none;
}

abbrev asked : String → BaseUrl
asked query = record {
  absolute = true;
  opaque = "";
  host = "api.link.com";
  scheme = "https";
  has_user = false;
  raw_query = query;
  force_query = false;
  fragment = "";
  raw_fragment = "";
  hostname = "api.link.com";
  path = "/spend";
  raw_path = "";
}

abbrev net : ClientNet
net = record {
  parse_url = λ raw. some (asked raw);
  url_text = λ u. concat u.host (concat u.path u.raw_query);
  is_loopback_ip = λ s. false;
  canonical_key = λ s. s;
  equal_fold = λ s t. s == t;
}

abbrev quote : List ℕ → List ℕ
quote s = s

same_report : SameReport no_json (failing (b'a' ∷ [])) (failing (b'b' ∷ []))
unfolding rendered extract_api_error_message trim_bytes unreported
same_report = record { code = refl; message = refl; status = refl; body = refl; details = refl }

format_api_error-hides_example :
    (length (format_api_error quote no_json net structural (failing (b'a' ∷ [])))
      ≤ max_diagnostic_bytes)
    × (format_api_error quote no_json net structural (failing (b'a' ∷ []))
        ≡ format_api_error quote no_json net structural (failing (b'b' ∷ [])))
format_api_error-hides_example =
    format_api_error-hides quote no_json net structural (failing (b'a' ∷ [])) (failing (b'b' ∷ []))
      same_report

same_place : SamePlace (asked "token=1") (asked "token=2")
same_place = record {
  absolute = refl;
  opaque = refl;
  host = refl;
  scheme = refl;
  hostname = refl;
  path = refl;
  raw_path = refl;
}

format_transport_error-hides_example :
    (length (format_transport_error quote no_json net other "GET" "token=1" (sentinel canceled))
      ≤ max_diagnostic_bytes)
    × (format_transport_error quote no_json net other "GET" "token=1" (sentinel canceled)
        ≡ format_transport_error quote no_json net other "GET" "token=2" (sentinel redirect))
format_transport_error-hides_example =
    format_transport_error-hides quote no_json net other "GET" "token=1" "token=2"
      (sentinel canceled) (sentinel redirect) (asked "token=1") (asked "token=2") refl refl
      same_place

abbrev sent : String → HttpRequest
sent secret = record {
  method = get;
  url = concat "https://api.link.com/spend?token=" secret;
  header = ("X-Trace", secret) ∷ ("Accept", "application/json") ∷ [];
  bearer = some (concat "Bearer " secret);
  body = no_body;
}

-- an answer of one byte
abbrev replied : ℕ → Exchange
replied b = answered 200 (some (record { bytes = b ∷ []; failure = none; close_failure = none }))

names_sorted :
    sorted_header_names (sent_header (sent "a")) ≡ "Accept" ∷ "Authorization" ∷ "X-Trace" ∷ []
unfolding sorted_header_names sent_header
names_sorted = refl

attempt_log-hides_example :
    All IsOrderly (
      attempt_log net 9 true
        (asked "token=1")
        (sent "1")
        1
        (replied b'a')
        5
        (("Set-Cookie", "c") ∷ []))
    × (attempt_log net 9 true
          (asked "token=1")
          (sent "1")
          1
          (replied b'a')
          5
          (("Set-Cookie", "c") ∷ [])
        ≡ attempt_log net 9 true
            (asked "token=2")
            (sent "2")
            1
            (replied b'b')
            5
            (("Set-Cookie", "d") ∷ []))
unfolding read_bounded
attempt_log-hides_example =
    attempt_log-hides net 9 true (asked "token=1") (asked "token=2") (sent "1") (sent "2") 1 5
      (replied b'a') (replied b'b') (("Set-Cookie", "c") ∷ []) (("Set-Cookie", "d") ∷ []) same_place
      (record { method = refl; names = refl; bearer = refl }) (both_answered 200 _ _ refl) refl
