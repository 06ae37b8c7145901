-- ===== src/Diagnostics/Log.antt =====
-- transport.go: what doAttempt writes to the log of a client with Verbose.
--
-- A header is the list of its names with their values, each name once. The URL is the one of the request
-- that net/http has constructed.
pub mod Shown
use stripelink.Prelude.{
  ℕ, String, Bool, true, false, ◌&&◌, ◌||◌, none, some, List, [], ◌∷◌, map, codes, length, ltb, eqb,
  ◌==◌, if◌then◌else◌,
}
use stripelink.Errors.{Result, ok, err}
use stripelink.World.{Method, HttpRequest, Exchange, answered, failed}
use stripelink.Transport.{read_bounded}
use stripelink.Client.{BaseUrl, ClientNet}
use stripelink.Diagnostics.ErrorText.{sanitize_url_for_log}

-- A line of the log: the method, the URL and the number of the attempt, and then, with durations in
-- nanoseconds,
pub data LogRecord : Type 0 where
  -- the names of the header
  request : Method → List ℕ → ℕ → List String → LogRecord
  -- the duration
  request_failed : Method → List ℕ → ℕ → ℕ → LogRecord
  -- the status, the duration, the length of the body and the names of the header
  response : Method → List ℕ → ℕ → ℕ → ℕ → ℕ → List String → LogRecord

-- s <= t, of texts
abbrev pub text_le : List ℕ → List ℕ → Bool
text_le [] t = true
text_le (c ∷ s) [] = false
text_le (c ∷ s) (d ∷ t) = ltb c d || (eqb c d && text_le s t)

abbrev pub name_le : String → String → Bool
name_le a b = text_le (codes a) (codes b)

abbrev pub insert_name : String → List String → List String
insert_name a [] = a ∷ []
insert_name a (b ∷ names) =
    let rest = insert_name a names in if name_le a b then a ∷ b ∷ names else b ∷ rest

abbrev pub sorted : List String → List String
sorted [] = []
sorted (a ∷ names) = insert_name a (sorted names)

abbrev pub names_of : List (String × String) → List String
names_of [] = []
names_of ((name, value) ∷ header) = name ∷ names_of header

unfoldable pub sorted_header_names : List (String × String) → List String
sorted_header_names header = sorted (names_of header)

-- Header.Set("Authorization", value)
abbrev pub set_authorization : String → List (String × String) → List (String × String)
set_authorization value [] = ("Authorization", value) ∷ []
set_authorization value ((name, old) ∷ header) =
    let rest = set_authorization value header in
    if name == "Authorization" then (name, value) ∷ header else (name, old) ∷ rest

unfoldable pub sent_header : HttpRequest → List (String × String)
sent_header r = elim r.bearer [ none ↦ r.header | some value ↦ set_authorization value r.header ]

abbrev pub read_length : Result (List ℕ) → ℕ
read_length (ok contents) = length contents
read_length (err e) = 0

module _ (net : ClientNet) (maximum : ℕ) where
  -- the line after httpClient.Do, which took so long and had such a header in its answer
  abbrev pub after_exchange :
      BaseUrl → HttpRequest → ℕ → Exchange → ℕ → List (String × String) → LogRecord
  after_exchange u r attempt (failed e) duration header =
      request_failed r.method (sanitize_url_for_log net u) attempt duration
  after_exchange u r attempt (answered status body) duration header =
      response r.method (sanitize_url_for_log net u) attempt status duration
        (read_length (read_bounded body maximum)) (sorted_header_names header)

  -- The log of an attempt whose request could be constructed.
  unfoldable pub attempt_log :
      Bool → BaseUrl → HttpRequest → ℕ → Exchange → ℕ → List (String × String) → List LogRecord
  attempt_log false u r attempt exchange duration header = []
  attempt_log true u r attempt exchange duration header =
      request r.method (sanitize_url_for_log net u) attempt (sorted_header_names (sent_header r))
      ∷ after_exchange u r attempt exchange duration header
      ∷ []
