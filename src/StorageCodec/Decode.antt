-- ===== src/StorageCodec/Decode.antt =====
-- Reading a document's text gives the session that the document holds.
use stripelink.Prelude.{
  ℕ, String, ◌≡◌, refl, ◌∙◌, inl, inr, true, false, none, some, List, [], ◌==◌, arith, Option-cases,
}
use stripelink.Prelude.Int.{pos}
use stripelink.Errors.{Err, ok, >>=-eq-ok}
use stripelink.Json.{Json, null, int, obj, Members}
use stripelink.Session.{AuthStorageState}
use stripelink.Auth.Wire.{Reader}
use stripelink.StorageCodec.{
  Document, lookup, insert, document_from, present, read_generation, auth_field, pending_field,
  generation_field, snapshot, with_default, decode_object, decode_storage_state,
}
use stripelink.StorageCodec.RoundTrip.{lookup-insert, snapshot_of}

-- Two documents with the same entries.
abbrev pub SameEntries : Document → Document → Type 0
SameEntries d e = (k : String) → lookup k d ≡ lookup k e

pub snapshot-SameEntries : (d e : Document) → SameEntries d e → snapshot d ≡ snapshot e
unfolding snapshot
snapshot-SameEntries d e h = rw (h "auth", h "pendingDeviceAuth", h "deviceAuthGeneration") refl

-- The fields of a snapshot.
record Fields (d : Document) (s : AuthStorageState) : Type 0 where
  auth : auth_field d ≡ ok s.auth
  pending : pending_field d ≡ ok s.pending_device_auth
  generation : generation_field d ≡ ok s.device_auth_generation

snapshot-Fields : (d : Document) (s : AuthStorageState) → snapshot d ≡ ok s → Fields d s
unfolding snapshot
snapshot-Fields d s h =
    let (a, ea, h1) = >>=-eq-ok (auth_field d) _ h in
    let (p, ep, h2) = >>=-eq-ok (pending_field d) _ h1 in
    let (g, eg, h3) = >>=-eq-ok (generation_field d) _ h2 in
    record {
      auth = ground (arith, ea, h3);
      pending = ground (arith, ep, h3);
      generation = ground (arith, eg, h3);
    }

with_default_absent :
    (k : String) (v : Json) (d : Document) → lookup k d ≡ none → with_default k v d ≡ insert k v d
unfolding with_default
with_default_absent k v d h = ground (arith, h)

with_default_there :
    (k : String) (v x : Json) (d : Document) → lookup k d ≡ some x → with_default k v d ≡ d
unfolding with_default
with_default_there k v x d h = ground (arith, h)

lookup-with_default_ne :
    (j k : String) (v : Json) (d : Document)
    → (k == j) ≡ false
    → lookup j (with_default k v d) ≡ lookup j d
lookup-with_default_ne j k v d ne = elim (Option-cases (lookup k d)) [
  | inl e ↦ rw (with_default_absent k v d e, lookup-insert j k v d, ne) refl
  | inr (x, e) ↦ rw (with_default_there k v x d e) refl
]

-- A default of null is as good as no entry.
present-with_default :
    (k : String) (d : Document)
    → (k == k) ≡ true
    → present (lookup k (with_default k null d)) ≡ present (lookup k d)
unfolding present
present-with_default k d same = elim (Option-cases (lookup k d)) [
  | inl e ↦ rw (with_default_absent k null d e, lookup-insert k k null d, same, e) refl
  | inr (x, e) ↦ rw (with_default_there k null x d e) refl
]

generation-with_default :
    (d : Document) (g : ℕ)
    → generation_field d ≡ ok g
    → generation_field (with_default "deviceAuthGeneration" (int (pos 0)) d) ≡ ok g
unfolding present read_generation
generation-with_default d g h = elim (Option-cases (lookup "deviceAuthGeneration" d)) [
  | inl e ↦
      rw
        (
          with_default_absent "deviceAuthGeneration" (int (pos 0)) d e,
          lookup-insert "deviceAuthGeneration" "deviceAuthGeneration" (int (pos 0)) d,
        )
        (rw e at h)
  | inr (x, e) ↦ rw (with_default_there "deviceAuthGeneration" (int (pos 0)) x d e) h
]

abbrev filled_of : Document → Document
filled_of d = with_default "pendingDeviceAuth" null (with_default "auth" null d)

-- What decoding adds to an object leaves its session as it is.
snapshot-decode_object :
    (ms : Members) (s : AuthStorageState)
    → snapshot (document_from [] ms) ≡ ok s
    → (d : Document) × (decode_object ms ≡ ok d) × (snapshot d ≡ ok s)
unfolding decode_object
snapshot-decode_object ms s h =
    let d = document_from [] ms in
    let f = snapshot-Fields d s h in
    let g : generation_field (filled_of d) ≡ ok s.device_auth_generation =
      rw
        (
          lookup-with_default_ne "deviceAuthGeneration" "pendingDeviceAuth" null
              (with_default "auth" null d) refl,
          lookup-with_default_ne "deviceAuthGeneration" "auth" null d refl,
        )
        f.generation in
    let whole = with_default "deviceAuthGeneration" (int (pos 0)) (filled_of d) in
    let a : auth_field whole ≡ ok s.auth =
      rw
        (
          lookup-with_default_ne "auth" "deviceAuthGeneration" (int (pos 0)) (filled_of d) refl,
          lookup-with_default_ne "auth" "pendingDeviceAuth" null (with_default "auth" null d) refl,
          present-with_default "auth" d refl,
        )
        f.auth in
    let p : pending_field whole ≡ ok s.pending_device_auth =
      rw
        (
          lookup-with_default_ne "pendingDeviceAuth" "deviceAuthGeneration" (int (pos 0))
              (filled_of d) refl,
          present-with_default "pendingDeviceAuth" (with_default "auth" null d) refl,
          lookup-with_default_ne "pendingDeviceAuth" "auth" null d refl,
        )
        f.pending in
    (
      whole,
      rw (f.auth, f.pending, g) refl,
      snapshot_of whole s a p (generation-with_default (filled_of d) s.device_auth_generation g),
    )

decode_storage_state_object :
    (parse : Reader) (failure : Err) (content : List ℕ) (ms : Members)
    → parse content ≡ some (obj ms)
    → decode_storage_state parse failure content ≡ decode_object ms
unfolding decode_storage_state
decode_storage_state_object parse failure content ms h = ground (arith, h)

-- A text that stands for an object is decoded to the object's session.
pub snapshot-decode_storage_state :
    (parse : Reader) (failure : Err) (content : List ℕ) (ms : Members) (s : AuthStorageState)
    → parse content ≡ some (obj ms)
    → snapshot (document_from [] ms) ≡ ok s
    → (d : Document) × (decode_storage_state parse failure content ≡ ok d) × (snapshot d ≡ ok s)
snapshot-decode_storage_state parse failure content ms s read h =
    let (d, e, kept) = snapshot-decode_object ms s h in
    (d, decode_storage_state_object parse failure content ms read ∙ e, kept)
