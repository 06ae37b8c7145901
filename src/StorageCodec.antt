-- ===== src/StorageCodec.antt =====
-- storage_codec.go: the document that a FileStorage keeps, and the session snapshot in it.
--
-- A json.RawMessage is the value that it holds, a storageState the list of its entries, whose order
-- nothing reads. A number that its Go type cannot hold does not exist there: to encode it is an error.
pub mod RoundTrip
pub mod Decode
use stripelink.Prelude.{
  ℕ, ◌^◌, String, Bool, true, false, ◌&&◌, Option, none, some, List, [], ◌∷◌, leb, eqb, ltb, ◌==◌,
  if◌then◌else◌,
}
use stripelink.Prelude.Int.{ℤ, pos, pos_part, neg_part, ◌==ℤ◌, in_int64}
use stripelink.Errors.{Err, plain, wrap, Result, ok, err, ◌>>=◌, ◌>>◌}
use stripelink.Json.{
  Json, null, int, str, obj, Members, end, member, string_field, int_field, unmarshal,
}
use stripelink.Session.{
  AuthTokens, PendingDeviceAuth, AuthStorageState, max_uint64, next_generation, validate_auth,
  validate_pending, prepare_storage_snapshot,
}
use stripelink.Auth.Wire.{Reader, tokens_of}

-- storageState
abbrev pub Document : Type 0
Document = List (String × Json)

unfoldable pub lookup : String → Document → Option Json
lookup k [] = none
lookup k ((j, v) ∷ d) = if j == k then some v else lookup k d

unfoldable pub insert : String → Json → Document → Document
insert k v [] = (k, v) ∷ []
insert k v ((j, w) ∷ d) = if j == k then (k, v) ∷ d else (j, w) ∷ insert k v d

-- json.Unmarshal into the map: the last of equal names stays.
unfoldable pub document_from : Document → Members → Document
document_from d end = d
document_from d (member k v rest) = document_from (insert k v d) rest

unfoldable pub new_storage_state : Document
new_storage_state =
    ("auth", null) ∷ ("pendingDeviceAuth", null) ∷ ("deviceAuthGeneration", int (pos 0)) ∷ []

-- raw, ok := s[k]; !ok || isJSONNull(raw)
unfoldable pub present : Option Json → Option Json
present (some null) = none
present o = o

abbrev pub blame {ℓ} : {A : Type ℓ} → String → Result A → Result A
blame message (ok a) = ok a
blame message (err e) = err (wrap message e)

-- json.Unmarshal into a PendingDeviceAuth
unfoldable pub pending_fields : Members → PendingDeviceAuth × Bool
pending_fields ms =
    let (code, c) = string_field "device_code" ms in
    let (interval, i) = int_field "interval" ms in
    let (expires_at, e) = int_field "expires_at" ms in
    let (url, u) = string_field "verification_url" ms in
    let (phrase, p) = string_field "phrase" ms in
    (
      record {
        device_code = code;
        interval = interval;
        expires_at = expires_at;
        verification_url = url;
        phrase = phrase;
      },
      c && i && e && u && p,
    )

-- storageState.auth, of what is present under its key
unfoldable pub read_auth : Option Json → Result (Option AuthTokens)
read_auth none = ok none
read_auth (some raw) = do
  auth ← blame "decode auth storage field auth" (unmarshal tokens_of raw)
  valid ← blame "decode auth storage field auth" (validate_auth (some auth))
  ok (some auth)

-- storageState.pending
unfoldable pub read_pending : Option Json → Result (Option PendingDeviceAuth)
read_pending none = ok none
read_pending (some raw) = do
  pending ← blame "decode auth storage field pendingDeviceAuth" (unmarshal pending_fields raw)
  valid ← blame "decode auth storage field pendingDeviceAuth" (validate_pending (some pending))
  ok (some pending)

-- storageState.deviceAuthGeneration
unfoldable pub read_generation : Option Json → Result ℕ
read_generation none = ok 0
read_generation (some (int (pos g))) =
    if leb g max_uint64
    then ok g
    else err
        (wrap "decode auth storage field deviceAuthGeneration" (plain "json: cannot unmarshal"))
read_generation (some _) =
    err (wrap "decode auth storage field deviceAuthGeneration" (plain "json: cannot unmarshal"))

abbrev pub auth_field : Document → Result (Option AuthTokens)
auth_field d = read_auth (present (lookup "auth" d))

abbrev pub pending_field : Document → Result (Option PendingDeviceAuth)
pending_field d = read_pending (present (lookup "pendingDeviceAuth" d))

abbrev pub generation_field : Document → Result ℕ
generation_field d = read_generation (present (lookup "deviceAuthGeneration" d))

unfoldable pub snapshot : Document → Result AuthStorageState
snapshot d = do
  auth ← auth_field d
  pending ← pending_field d
  generation ← generation_field d
  ok (record { auth = auth; pending_device_auth = pending; device_auth_generation = generation })

-- if _, ok := state[k]; !ok { state[k] = v }
unfoldable pub with_default : String → Json → Document → Document
with_default k v d = elim (lookup k d) [ none ↦ insert k v d | some _ ↦ d ]

unfoldable pub decode_object : Members → Result Document
decode_object ms = do
  let d = document_from [] ms
  auth ← auth_field d
  pending ← pending_field d
  let filled = with_default "pendingDeviceAuth" null (with_default "auth" null d)
  generation ← generation_field filled
  ok (with_default "deviceAuthGeneration" (int (pos 0)) filled)

-- The text is one value, with nothing after it, or `failure` says why not.
unfoldable pub decode_storage_state : Reader → Err → List ℕ → Result Document
decode_storage_state parse failure content = elim (parse content) [
  | none ↦ err (wrap "decode auth storage file" failure)
  | some (obj ms) ↦ decode_object ms
  | some _ ↦ err (plain "decode auth storage file: top-level value must be an object")
]

abbrev json_of_int : ℤ → Result Json
json_of_int z = if in_int64 z then ok (int z) else err (plain "not an int64")

-- omitzero
abbrev omit_zero : String → ℤ → Json → Members
omit_zero name z j = if ◌==ℤ◌ z (pos 0) then end else member name j end

-- json.Marshal of AuthTokens
unfoldable pub json_of_tokens : AuthTokens → Result Json
json_of_tokens a = do
  expires_in ← json_of_int a.expires_in
  expires_at ← json_of_int a.expires_at
  ok (
      obj (
        member "access_token" (str a.access_token) (
          member "refresh_token" (str a.refresh_token) (
            member "expires_in" expires_in (
              member "token_type" (str a.token_type)
                (omit_zero "expires_at" a.expires_at expires_at))))))

-- json.Marshal of PendingDeviceAuth
unfoldable pub json_of_pending : PendingDeviceAuth → Result Json
json_of_pending p = do
  interval ← json_of_int p.interval
  expires_at ← json_of_int p.expires_at
  ok (
      obj (
        member "device_code" (str p.device_code) (
          member "interval" interval (
            member "expires_at" expires_at (
              member "verification_url" (str p.verification_url)
                (member "phrase" (str p.phrase) end))))))

-- fmt.Sprintf("%d", generation)
unfoldable pub json_of_generation : ℕ → Result Json
json_of_generation g = if leb g max_uint64 then ok (int (pos g)) else err (plain "not a uint64")

abbrev pub or_null : {A : Type 0} → (A → Result Json) → Option A → Result Json
or_null encode none = ok null
or_null encode (some a) = encode a

unfoldable pub replace_snapshot : ℕ → Document → AuthStorageState → Result Document
replace_snapshot now d state = do
  c ← prepare_storage_snapshot now state
  auth ← blame "encode auth tokens" (or_null json_of_tokens c.auth)
  pending ← blame "encode pending device auth" (or_null json_of_pending c.pending_device_auth)
  generation ← json_of_generation c.device_auth_generation
  ok (
      insert "deviceAuthGeneration" generation
        (insert "pendingDeviceAuth" pending (insert "auth" auth d)))

-- bumpDeviceAuthGeneration: nothing, if the field is no generation.
unfoldable pub bump_generation : Document → Document
bump_generation d = elim (generation_field d) [
  | err _ ↦ d
  | ok g ↦ insert "deviceAuthGeneration" (int (pos (next_generation g))) d
]

-- The callback of Clear: every key goes, and the generation is bumped from nothing.
unfoldable pub cleared_state : Document
cleared_state = bump_generation (insert "pendingDeviceAuth" null (insert "auth" null []))
