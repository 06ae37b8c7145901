-- ===== src/StorageCodec/RoundTrip.antt =====
-- What is stored in a document is what is read from it.
use stripelink.Prelude.{
  ℕ, String, ◌≡◌, ◌≢◌, refl, ◌∙◌, subst, On, Option, none, some, [], ◌∷◌, ◌==◌, eq_iff,
  if◌then◌else◌, arith,
}
use stripelink.Errors.{Result, ok, err, >>=-eq-ok}
use stripelink.Json.{Json, null, string_field, int_field, unmarshal}
use stripelink.Session.{
  AuthTokens, PendingDeviceAuth, AuthStorageState, validate_auth, validate_pending,
  prepare_storage_snapshot,
}
use stripelink.Session.Prepared.{
  IsPreparedAuth, IsPreparedPending, prepare_storage_snapshot-IsPrepared,
}
use stripelink.Auth.Wire.{tokens_of}
use stripelink.StorageCodec.{
  Document, lookup, insert, blame, pending_fields, present, read_auth, read_pending,
  read_generation, auth_field, pending_field, generation_field, snapshot, json_of_tokens,
  json_of_pending, json_of_generation, or_null, replace_snapshot,
}

pub lookup-insert :
    (j k : String) (v : Json) (d : Document)
    → lookup j (insert k v d) ≡ (if k == j then some v else lookup j d)
unfolding lookup insert
lookup-insert j k v [] = refl
lookup-insert j k v ((i, w) ∷ d) =
    ground (arith, eq_iff k j, eq_iff i k, eq_iff i j, lookup-insert j k v d)

json_of_tokens_lem :
    (a : AuthTokens) (j : Json) → json_of_tokens a ≡ ok j → unmarshal tokens_of j ≡ ok a
unfolding json_of_tokens tokens_of string_field int_field
json_of_tokens_lem a j h = ground arith

json_of_pending_lem :
    (p : PendingDeviceAuth) (j : Json)
    → json_of_pending p ≡ ok j
    → unmarshal pending_fields j ≡ ok p
unfolding json_of_pending pending_fields string_field int_field
json_of_pending_lem p j h = ground arith

json_of_generation_lem :
    (g : ℕ) (j : Json) → json_of_generation g ≡ ok j → read_generation (present (some j)) ≡ ok g
unfolding json_of_generation read_generation present
json_of_generation_lem g j h = ground arith

validate_auth_prepared : (a : AuthTokens) → IsPreparedAuth a → validate_auth (some a) ≡ ok a
unfolding validate_auth
validate_auth_prepared a h =
    ground (arith, eq_iff a.access_token "", eq_iff a.refresh_token "", eq_iff a.token_type "")

present_tokens : (a : AuthTokens) (j : Json) → json_of_tokens a ≡ ok j → present (some j) ≡ some j
unfolding json_of_tokens present
present_tokens a j h = ground arith

present_pending :
    (p : PendingDeviceAuth) (j : Json) → json_of_pending p ≡ ok j → present (some j) ≡ some j
unfolding json_of_pending present
present_pending p j h = ground arith

read_auth_null : read_auth (present (some null)) ≡ ok none
unfolding read_auth present
read_auth_null = refl

read_auth_lem :
    (o : Option AuthTokens) (j : Json)
    → or_null json_of_tokens o ≡ ok j
    → On IsPreparedAuth o
    → read_auth (present (some j)) ≡ ok o
unfolding read_auth
read_auth_lem none j h v =
    subst (λ x. read_auth (present (some x)) ≡ ok none) (ground arith) read_auth_null
read_auth_lem (some a) j h v =
    rw (present_tokens a j h, json_of_tokens_lem a j h, validate_auth_prepared a v) refl

validate_pending_prepared :
    (p : PendingDeviceAuth) → IsPreparedPending p → validate_pending (some p) ≡ ok p
unfolding validate_pending
validate_pending_prepared p h =
    ground (arith, eq_iff p.device_code "", eq_iff p.verification_url "", eq_iff p.phrase "")

read_pending_null : read_pending (present (some null)) ≡ ok none
unfolding read_pending present
read_pending_null = refl

read_pending_lem :
    (o : Option PendingDeviceAuth) (j : Json)
    → or_null json_of_pending o ≡ ok j
    → On IsPreparedPending o
    → read_pending (present (some j)) ≡ ok o
unfolding read_pending
read_pending_lem none j h v =
    subst (λ x. read_pending (present (some x)) ≡ ok none) (ground arith) read_pending_null
read_pending_lem (some p) j h v =
    rw (present_pending p j h, json_of_pending_lem p j h, validate_pending_prepared p v) refl

-- What a replacement leaves under a key.
replaced :
    (k : String) (a p g : Json) (d : Document)
    → lookup k (insert "deviceAuthGeneration" g (insert "pendingDeviceAuth" p (insert "auth" a d)))
      ≡ (if "deviceAuthGeneration" == k
          then some g
          else if "pendingDeviceAuth" == k
          then some p
          else if "auth" == k
          then some a
          else lookup k d)
replaced k a p g d = simp lookup-insert

-- The entries of a document that are not the session's.
abbrev pub IsForeign : String → Type 0
IsForeign k = (k ≢ "auth") × (k ≢ "pendingDeviceAuth") × (k ≢ "deviceAuthGeneration")

pub blame-ok : {A : Type 0} (m : String) (r : Result A) (a : A) → blame m r ≡ ok a → r ≡ ok a
blame-ok m (ok b) a h = h
blame-ok m (err e) a h = cc

pub snapshot_of :
    (d : Document) (s : AuthStorageState)
    → auth_field d ≡ ok s.auth
    → pending_field d ≡ ok s.pending_device_auth
    → generation_field d ≡ ok s.device_auth_generation
    → snapshot d ≡ ok s
unfolding snapshot
snapshot_of d s a p g = rw (a, p, g) refl

-- The parts that a replacement puts together.
record Replaced (now : ℕ) (d e : Document) (s : AuthStorageState) : Type 0 where
  c : AuthStorageState
  auth : Json
  pending : Json
  generation : Json
  prepared : prepare_storage_snapshot now s ≡ ok c
  auth_json : or_null json_of_tokens c.auth ≡ ok auth
  pending_json : or_null json_of_pending c.pending_device_auth ≡ ok pending
  generation_json : json_of_generation c.device_auth_generation ≡ ok generation
  whole :
      insert "deviceAuthGeneration" generation
        (insert "pendingDeviceAuth" pending (insert "auth" auth d))
      ≡ e

replace_snapshot-Replaced :
    (now : ℕ) (d e : Document) (s : AuthStorageState)
    → replace_snapshot now d s ≡ ok e
    → Replaced now d e s
unfolding replace_snapshot
replace_snapshot-Replaced now d e s h =
    let (c, prepared, h1) = >>=-eq-ok (prepare_storage_snapshot now s) _ h in
    let (a, ea, h2) = >>=-eq-ok (blame "encode auth tokens" (or_null json_of_tokens c.auth)) _ h1 in
    let (p, ep, h3) =
      >>=-eq-ok (blame "encode pending device auth" (or_null json_of_pending c.pending_device_auth))
        _ h2 in
    let (g, eg, h4) = >>=-eq-ok (json_of_generation c.device_auth_generation) _ h3 in
    record {
      c = c;
      auth = a;
      pending = p;
      generation = g;
      prepared = prepared;
      auth_json = blame-ok _ _ _ ea;
      pending_json = blame-ok _ _ _ ep;
      generation_json = eg;
      whole = ground (arith, h4);
    }

-- A session that is put into a document is what is read from it afterwards, as it was prepared, and
-- every entry of the document that is not the session's stays.
pub snapshot-replace_snapshot :
    (now : ℕ) (d e : Document) (s : AuthStorageState)
    → replace_snapshot now d s ≡ ok e
    → ((c : AuthStorageState) × (prepare_storage_snapshot now s ≡ ok c) × (snapshot e ≡ ok c))
      × ((k : String) → IsForeign k → lookup k e ≡ lookup k d)
snapshot-replace_snapshot now d e s h =
    let r = replace_snapshot-Replaced now d e s h in
    let fine = (prepare_storage_snapshot-IsPrepared now s r.c r.prepared).0 in
    let at = λ (k : String).
      subst
        (λ (x : Document). lookup k x ≡ (
          if "deviceAuthGeneration" == k
          then some r.generation
          else if "pendingDeviceAuth" == k
          then some r.pending
          else if "auth" == k
          then some r.auth
          else lookup k d))
        r.whole (replaced k r.auth r.pending r.generation d) in
    (
      (
        r.c,
        r.prepared,
        snapshot_of e r.c (rw (at "auth") (read_auth_lem r.c.auth r.auth r.auth_json fine.auth))
            (rw (at "pendingDeviceAuth")
              (read_pending_lem r.c.pending_device_auth r.pending r.pending_json fine.pending))
            (rw (at "deviceAuthGeneration")
              (json_of_generation_lem r.c.device_auth_generation r.generation r.generation_json)),
      ),
      λ k (na, np, ng).
          at k
          ∙ ground (
            arith,
            eq_iff "deviceAuthGeneration" k,
            eq_iff "pendingDeviceAuth" k,
            eq_iff "auth" k,
          ),
    )
