-- ===== src/Session.antt =====
-- The persisted session: AuthTokens (types.go), PendingDeviceAuth and AuthStorageState
-- (storage.go), and what storage_codec.go checks and fills in before it commits one.
-- A pointer that may be nil is an `Option`; a value is its own defensive copy.
pub mod Prepared
pub mod Generation
use stripelink.Prelude.{
  ℕ, ◌+◌, ◌-◌, ◌*◌, ◌/◌, ◌^◌, String, Bool, true, false, ◌&&◌, ◌||◌, Option, none, some, eqb, ltb,
  leb, ◌==◌, if◌then◌else◌,
}
use stripelink.Prelude.Int.{ℤ, pos, pos_part, ◌==ℤ◌, not_positive, is_negative, max_int64}
use stripelink.Errors.{Result, ok, err, invalid, fail_if, ◌>>=◌, ◌>>◌}

pub record AuthTokens : Type 0 where
  pub access_token : String
  pub refresh_token : String
  -- seconds
  pub expires_in : ℤ
  pub token_type : String
  -- epoch milliseconds; 0 while it is not known
  pub expires_at : ℤ

pub record PendingDeviceAuth : Type 0 where
  pub device_code : String
  -- seconds
  pub interval : ℤ
  -- epoch milliseconds
  pub expires_at : ℤ
  pub verification_url : String
  pub phrase : String

pub record AuthStorageState : Type 0 where
  pub auth : Option AuthTokens
  pub pending_device_auth : Option PendingDeviceAuth
  pub device_auth_generation : ℕ

-- math.MaxUint64
abbrev pub max_uint64 : ℕ
max_uint64 = 2 ^ 64 - 1

unfoldable pub next_generation : ℕ → ℕ
next_generation current = if eqb current max_uint64 then 1 else current + 1

-- Time.UnixMilli of a time in nanoseconds since the epoch.
abbrev pub unix_milli : ℕ → ℕ
unix_milli t = t / 1000000

-- *a == *b
abbrev pub tokens_eq : AuthTokens → AuthTokens → Bool
tokens_eq a b =
    a.access_token == b.access_token
    && a.refresh_token == b.refresh_token
    && ◌==ℤ◌ a.expires_in b.expires_in
    && a.token_type == b.token_type
    && ◌==ℤ◌ a.expires_at b.expires_at

unfoldable pub same_auth_tokens : Option AuthTokens → Option AuthTokens → Bool
same_auth_tokens none none = true
same_auth_tokens (some a) (some b) = tokens_eq a b
same_auth_tokens _ _ = false

unfoldable pub validate_auth : Option AuthTokens → Result AuthTokens
validate_auth none = err (invalid "auth tokens are required")
validate_auth (some auth) =
    if auth.access_token == ""
      || auth.refresh_token == ""
      || auth.token_type == ""
      || not_positive auth.expires_in
      || is_negative auth.expires_at
    then err (invalid "auth tokens contain missing or invalid fields")
    else ok auth

-- `copy.ExpiresAt == 0` of prepareAuth, at the time `now` in epoch milliseconds.
unfoldable pub fill_expiry : ℕ → AuthTokens → Result AuthTokens
fill_expiry now auth =
    if ◌==ℤ◌ auth.expires_at (pos 0)
    then if ltb ((max_int64 - now) / 1000) (pos_part auth.expires_in)
      then err (invalid "auth token expiry overflows epoch milliseconds")
      else ok (record auth { expires_at = pos (now + pos_part auth.expires_in * 1000) })
    else ok auth

unfoldable pub prepare_auth : ℕ → Option AuthTokens → Result AuthTokens
prepare_auth now auth = do copy ← validate_auth auth; fill_expiry now copy

unfoldable pub validate_pending : Option PendingDeviceAuth → Result PendingDeviceAuth
validate_pending none = err (invalid "pending device auth is required")
validate_pending (some pending) =
    if pending.device_code == ""
      || not_positive pending.interval
      || not_positive pending.expires_at
      || pending.verification_url == ""
      || pending.phrase == ""
    then err (invalid "pending device auth contains missing or invalid fields")
    else ok pending

-- preparePending returns what it validates.
unfoldable pub prepare_pending : Option PendingDeviceAuth → Result PendingDeviceAuth
prepare_pending pending = validate_pending pending

-- A nil field is not prepared.
abbrev pub prepare_some {ℓ} : {A : Type ℓ} → (Option A → Result A) → Option A → Result (Option A)
prepare_some prepare none = ok none
prepare_some prepare (some a) = do b ← prepare (some a); ok (some b)

-- prepareStorageSnapshot, with the generation that its callers store beside its results.
unfoldable pub prepare_storage_snapshot : ℕ → AuthStorageState → Result AuthStorageState
prepare_storage_snapshot now state = do
  auth ← prepare_some (prepare_auth now) state.auth
  pending ← prepare_some prepare_pending state.pending_device_auth
  ok (record state { auth = auth; pending_device_auth = pending })
