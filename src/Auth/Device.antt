-- ===== src/Auth/Device.antt =====
-- auth.go: InitiateDeviceAuth, PollDeviceAuthOnce, PollDeviceAuth and ResumeDeviceAuth.
--
-- A poll interval is a time.Duration, an int64 of nanoseconds, kept as its 64 bits. PollDeviceAuth
-- is its loop on fuel: `none` means that it was still polling.
pub mod Commit
pub mod Reserve
use stripelink.Prelude.{
  ℕ, zero, suc, ◌+◌, ◌-◌, ◌*◌, ◌/◌, ◌%◌, ◌^◌, String, concat, Bool, true, false, ◌&&◌, ◌||◌, not,
  Option, none, some, List, [], ◌∷◌, leb, ltb, eqb, ◌==◌, is_blank, if◌then◌else◌,
}
use stripelink.Prelude.Int.{ℤ, pos, pos_part, not_positive, max_int64}
use stripelink.Errors.{
  Err, sentinel, plain, wrap, join, api, ApiError, Message, text, authorization_pending, slow_down,
  no_pending_device_auth, device_auth_superseded, is, Result, ok, err, invalid,
}
use stripelink.Json.{Members, string_field, int_field}
use stripelink.World.{
  Env, World, Context, M, ◌>>=◌, ◌>>◌, pure, raise, lift, raise_if, map_err, time_now,
  context_failure, with_deadline, sleep,
}
use stripelink.Transport.{Core}
use stripelink.Session.{
  AuthTokens, PendingDeviceAuth, AuthStorageState, next_generation, same_auth_tokens, unix_milli,
}
use stripelink.Storage.{Storage, Update}
use stripelink.Auth.Wire.{
  FormResponse, second, client_id, default_scope, is_success, decode_required_json, absolute_expiry,
  or_malformed, decode_auth_tokens, oauth_error_code, new_auth_api_error, auth_api_error,
  expired_device_code_error,
}
use stripelink.Auth.Tokens.{post_form, expect_success}

pub record DeviceAuth : Type 0 where
  pub device_code : String
  pub user_code : String
  pub verification_url : String
  pub verification_url_complete : String
  pub expires_in : ℤ
  -- epoch milliseconds
  pub expires_at : ℤ
  -- seconds
  pub interval : ℤ

-- The `wire` struct of InitiateDeviceAuth, as a DeviceAuth with no expiry yet.
unfoldable pub device_of : Members → DeviceAuth × Bool
device_of ms =
    let (device, d) = string_field "device_code" ms in
    let (user, u) = string_field "user_code" ms in
    let (url, v) = string_field "verification_uri" ms in
    let (complete, c) = string_field "verification_uri_complete" ms in
    let (expires_in, e) = int_field "expires_in" ms in
    let (interval, i) = int_field "interval" ms in
    (
      record {
        device_code = device;
        user_code = user;
        verification_url = url;
        verification_url_complete = complete;
        expires_in = expires_in;
        expires_at = pos 0;
        interval = interval;
      },
      d && u && v && c && e && i,
    )

unfoldable pub complete_device : ℕ → DeviceAuth → Result DeviceAuth
complete_device now wire =
    if wire.device_code == ""
      || wire.user_code == ""
      || wire.verification_url == ""
      || wire.verification_url_complete == ""
      || not_positive wire.expires_in
      || not_positive wire.interval
    then err (plain "malformed device authorization response")
    else elim (absolute_expiry now wire.expires_in) [
      | none ↦ err (plain "malformed device authorization response")
      | some t ↦ ok (record wire { expires_at = t })
    ]

unfoldable pub pending_of : DeviceAuth → PendingDeviceAuth
pending_of da = record {
  device_code = da.device_code;
  interval = da.interval;
  expires_at = da.expires_at;
  verification_url = da.verification_url_complete;
  phrase = da.user_code;
}

-- state.PendingDeviceAuth == nil || state.PendingDeviceAuth.DeviceCode != deviceCode
abbrev pub is_pending : String → Option PendingDeviceAuth → Bool
is_pending code none = false
is_pending code (some p) = p.device_code == code

-- state.DeviceAuthGeneration = nextGeneration(state.DeviceAuthGeneration)
abbrev pub bump : AuthStorageState → AuthStorageState
bump state = record state { device_auth_generation = next_generation state.device_auth_generation }

-- The callbacks of the transactions.
unfoldable pub reserve : Update (Option AuthTokens × ℕ)
reserve now state = let next = bump state in ok (next, (state.auth, next.device_auth_generation))

unfoldable pub persist : ℕ → Option AuthTokens → PendingDeviceAuth → Update (Unit {0})
persist generation previous pending now state =
    if not (eqb state.device_auth_generation generation)
      || not (same_auth_tokens state.auth previous)
    then err (sentinel device_auth_superseded)
    else ok (record state { pending_device_auth = some pending }, tt)

unfoldable pub commit : String → AuthTokens → Update (Unit {0})
commit code tokens now state =
    if not (is_pending code state.pending_device_auth)
    then err (sentinel device_auth_superseded)
    else ok (record (bump state) { auth = some tokens; pending_device_auth = none }, tt)

unfoldable pub abandon : String → Update (Unit {0})
abandon code now state =
    if not (is_pending code state.pending_device_auth)
    then ok (state, tt)
    else ok (record (bump state) { pending_device_auth = none }, tt)

abbrev is_expired : ℕ → PendingDeviceAuth → Bool
is_expired now p = leb (pos_part p.expires_at) (unix_milli now)

unfoldable pub resume : Update (Option PendingDeviceAuth)
resume now state = elim state.pending_device_auth [
  | none ↦ ok (state, none)
  | some p ↦
      if is_expired now p
      then ok (record (bump state) { pending_device_auth = none }, none)
      else ok (state, some p)
]

-- At most one client name, and none that is blank.
unfoldable pub effective_name : String → List String → Result String
effective_name default [] = ok default
effective_name default (name ∷ []) =
    if is_blank name then err (invalid "client name must not be empty") else ok name
effective_name default (name ∷ other ∷ names) =
    err (invalid "at most one client name may be supplied")

unfoldable pub connection_label : String → Result String → String
connection_label name (err e) = name
connection_label name (ok hostname) =
    if hostname == "" then name else concat name (concat " on " hostname)

-- time.Duration(seconds) * time.Second of a positive number of seconds, and `+ 5 * time.Second`
abbrev pub duration : ℤ → ℕ
duration seconds = pos_part seconds * second % 2 ^ 64

abbrev pub slower : ℕ → ℕ
slower interval = (interval + 5 * second) % 2 ^ 64

-- The wait of a timer for min(interval, remaining): none for a negative interval.
abbrev pub timer : ℕ → ℕ → ℕ
timer interval remaining =
    if leb (2 ^ 63) interval then 0 else if ltb interval remaining then interval else remaining

abbrev pub initiate_values : String → Result String → List (String × String)
initiate_values name hostname =
    ("client_id", client_id)
    ∷ ("scope", default_scope)
    ∷ ("connection_label", connection_label name hostname)
    ∷ ("client_hint", name)
    ∷ []

abbrev pub poll_values : String → List (String × String)
poll_values device_code =
    ("grant_type", "urn:ietf:params:oauth:grant-type:device_code")
    ∷ ("device_code", device_code)
    ∷ ("client_id", client_id)
    ∷ []

-- What one round of PollDeviceAuth's loop comes to.
pub data Round : Type 0 where
  done : AuthTokens → Round
  again : ℕ → Round

module _ {S : Type 0} (env : Env S) (core : Core S) (storage : Storage env) where
  -- InitiateDeviceAuth from the reservation on
  unfoldable pub request_device_auth : Context → String → Option AuthTokens × ℕ → M S DeviceAuth
  request_device_auth ctx name reserved = do
    r ← post_form env core ctx "/device/code" (initiate_values name env.hostname)
    expect_success env core "Device auth initiation failed" r
    wire ←
        map_err (wrap "decode device authorization response")
          (lift (decode_required_json env.parse_json device_of r.body))
    now ← time_now
    da ← lift (complete_device now wire)
    map_err (wrap "persist pending device authorization")
        (storage.transact ctx (persist reserved.1 reserved.0 (pending_of da)))
    pure da

  unfoldable pub initiate_device_auth : Context → List String → M S DeviceAuth
  initiate_device_auth ctx client_name = do
    context_failure ctx
    name ← lift (effective_name core.client_name client_name)
    reserved ← map_err (wrap "reserve device authorization") (storage.transact ctx reserve)
    request_device_auth ctx name reserved

  -- The terminal error, joined with that of the storage if it could not be cleared.
  unfoldable pub clear_terminal_pending : {A : Type 0} → Context → String → Err → M S A
  clear_terminal_pending ctx code terminal w =
      let (r, w') = storage.transact ctx (abandon code) w in
      (elim r [ ok _ ↦ err terminal | err e ↦ err (join terminal e) ], w')

  -- The error codes of a 400.
  unfoldable pub refuse_poll : Context → String → FormResponse → M S AuthTokens
  refuse_poll ctx device_code r =
      let code = oauth_error_code env.parse_json r.details in
      if not (eqb r.status 400)
      then raise (api (auth_api_error env.parse_json "Token poll failed" r))
      else if code == "authorization_pending"
      then raise (sentinel authorization_pending)
      else if code == "slow_down"
      then raise (join (sentinel authorization_pending) (sentinel slow_down))
      else if code == "expired_token"
      then clear_terminal_pending ctx device_code (
          api (
            new_auth_api_error code (text "Device code expired. Please restart the login flow.") r))
      else if code == "access_denied"
      then clear_terminal_pending ctx device_code
          (api (new_auth_api_error code (text "Authorization denied by user.") r))
      else raise (api (auth_api_error env.parse_json "Token poll failed" r))

  unfoldable pub accept_poll : Context → String → FormResponse → M S AuthTokens
  accept_poll ctx device_code r = do
    now ← time_now
    tokens ←
        map_err (wrap "decode device token response")
          (lift (decode_auth_tokens env.parse_json now r.body))
    map_err (wrap "commit device authorization") (storage.transact ctx (commit device_code tokens))
    pure tokens

  unfoldable pub poll_device_auth_once : Context → String → M S AuthTokens
  poll_device_auth_once ctx device_code = do
    context_failure ctx
    raise_if (is_blank device_code) (invalid "device code must not be empty")
    r ← post_form env core ctx "/device/token" (poll_values device_code)
    if is_success r.status then accept_poll ctx device_code r else refuse_poll ctx device_code r
