-- ===== src/Examples.antt =====
-- Concrete inputs for the theorems: a memory store, a server that answers every request the same
-- way, and contexts that live or have ended.
pub mod Storage
pub mod Disks
pub mod Files
pub mod Configuration
pub mod Construction
pub mod Signing
pub mod Engine
pub mod Login
pub mod Refresh
pub mod Spending
pub mod Flight
pub mod Reporting
pub mod Texts
pub mod PaymentTokens
pub mod Printing
use stripelink.Prelude.{
  ℕ, ◌+◌, String, Bool, true, false, Option, none, some, List, [], ◌∷◌, eqb, if◌then◌else◌,
}
use stripelink.Prelude.Int.{ℤ, pos}
use stripelink.Errors.{Err, sentinel, canceled, Result, ok, err}
use stripelink.Json.{Json, obj, member, end, str, int}
use stripelink.World.{Env, World, Context, context, Exchange, answered, Stream, HttpRequest}
use stripelink.Transport.{Core}
use stripelink.Session.{AuthTokens, PendingDeviceAuth}
use stripelink.MemoryStorage.{MemoryStorage}

abbrev pub live : Context
live = context (λ _ _. none)

abbrev pub ended : Context
ended = context (λ _ _. some (sentinel canceled))

abbrev pub second_token : AuthTokens
second_token = record {
  access_token = "access";
  refresh_token = "refresh";
  expires_in = pos 3600;
  token_type = "Bearer";
  expires_at = pos 0;
}

abbrev pub token_json : Json
token_json = obj (
    member "access_token" (str "access") (
      member "refresh_token" (str "refresh")
        (member "Expires_In" (int (pos 3600)) (member "token_type" (str "Bearer") end))))

abbrev pub device_json : Json
device_json = obj (
    member "device_code" (str "device") (
      member "user_code" (str "user") (
        member "verification_uri" (str "https://v") (
          member "verification_uri_complete" (str "https://v?c")
            (member "expires_in" (int (pos 600)) (member "interval" (int (pos 5)) end))))))

-- A reader that knows the bodies 1 and 2.
abbrev pub reader : List ℕ → Option Json
reader (c ∷ []) = if eqb c 1 then some token_json else if eqb c 2 then some device_json else none
reader _ = none

abbrev pub body : ℕ → Option Stream
body c = some (record { bytes = c ∷ []; failure = none; close_failure = none })

-- A server that always gives this answer, and nobody else at the store.
abbrev pub env : Exchange → Env MemoryStorage
env answer = record {
  elapsed = λ _. 1000000;
  others = λ _ s. s;
  answer = λ _ _. answer;
  construct = λ _. none;
  parse_json = reader;
  hostname = ok "host";
}

abbrev pub core : Core MemoryStorage
core = record {
  client_name = "agent";
  has_http_client = true;
  get_access_token = some (λ _ _ w. (ok "old", w));
  auth_base_url = "https://login.link.com";
  api_base_url = "https://api.link.com";
  spend_request_base_url = "https://api.link.com";
  manages_session = true;
  max_response_body_bytes = pos 100;
}

abbrev pub waiting : PendingDeviceAuth
waiting = record {
  device_code = "device";
  interval = pos 5;
  expires_at = pos 10000;
  verification_url = "https://v?c";
  phrase = "user";
}

abbrev pub world : MemoryStorage → World MemoryStorage
world s = record { store = s; now = 1000000000; events = 0; sent = []; turns = []; grants = [] }

abbrev pub empty_store : MemoryStorage
empty_store = record { auth = none; pending = none; generation = 0 }

abbrev pub pending_store : MemoryStorage
pending_store = record { auth = none; pending = some waiting; generation = 4 }
