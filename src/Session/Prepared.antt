-- ===== src/Session/Prepared.antt =====
-- What prepareStorageSnapshot accepts, and what it makes of it.
use stripelink.Prelude.{
  ℕ, ◌≤◌, ◌≡◌, ◌≢◌, refl, Option, none, some, On, refl, subst, arith, eq_iff, ◌<◌,
}
use stripelink.Prelude.Int.{pos_part, neg_part, max_int64}
use stripelink.Errors.{Result, ok, >>=-eq-ok}
use stripelink.Session.{
  AuthTokens, PendingDeviceAuth, AuthStorageState, validate_auth, fill_expiry, prepare_auth,
  validate_pending, prepare_pending, prepare_some, prepare_storage_snapshot,
}

-- Credentials that may be stored: no empty text, a positive life time and an absolute expiry.
pub record IsPreparedAuth (a : AuthTokens) : Type 0 where
  pub access : a.access_token ≢ ""
  pub refresh : a.refresh_token ≢ ""
  pub kind : a.token_type ≢ ""
  pub lifetime : 0 < pos_part a.expires_in
  pub expiry : 0 < pos_part a.expires_at

validate_auth_lem :
    (a b : AuthTokens)
    → validate_auth (some a) ≡ ok b
    → (b ≡ a)
      × (a.access_token ≢ "")
      × (a.refresh_token ≢ "")
      × (a.token_type ≢ "")
      × (0 < pos_part a.expires_in)
      × (neg_part a.expires_at ≡ 0)
unfolding validate_auth
validate_auth_lem a b h =
    ground (arith, eq_iff a.access_token "", eq_iff a.refresh_token "", eq_iff a.token_type "")

fill_expiry_lem :
    (now : ℕ) (a b : AuthTokens)
    → fill_expiry now a ≡ ok b
    → neg_part a.expires_at ≡ 0
    → 0 < pos_part a.expires_in
    → (b.access_token ≡ a.access_token)
      × (b.refresh_token ≡ a.refresh_token)
      × (b.token_type ≡ a.token_type)
      × (b.expires_in ≡ a.expires_in)
      × (0 < pos_part b.expires_at)
unfolding fill_expiry
fill_expiry_lem now a b h n l = ground arith

-- What is accepted may be stored.
prepare_auth-IsPreparedAuth :
    (now : ℕ) (a b : AuthTokens) → prepare_auth now (some a) ≡ ok b → IsPreparedAuth b
unfolding prepare_auth
prepare_auth-IsPreparedAuth now a b h =
    let (c, e, f) = >>=-eq-ok (validate_auth (some a)) (fill_expiry now) h in
    ground (arith, validate_auth_lem a c, fill_expiry_lem now c b)

-- At a time, and from an expiry, that an int64 holds, the expiry that prepareAuth leaves is one that an
-- int64 holds, and is not negative.
prepare_auth_bounds :
    (now : ℕ) (a b : AuthTokens)
    → now ≤ max_int64
    → pos_part a.expires_at ≤ max_int64
    → prepare_auth now (some a) ≡ ok b
    → (pos_part b.expires_at ≤ max_int64) × (neg_part b.expires_at ≡ 0)
unfolding prepare_auth validate_auth fill_expiry
prepare_auth_bounds now a b hn ha h = ground arith

pub record IsPreparedPending (p : PendingDeviceAuth) : Type 0 where
  pub device : p.device_code ≢ ""
  pub interval : 0 < pos_part p.interval
  pub expiry : 0 < pos_part p.expires_at
  pub url : p.verification_url ≢ ""
  pub phrase : p.phrase ≢ ""

prepare_pending-IsPreparedPending :
    (p q : PendingDeviceAuth) → prepare_pending (some p) ≡ ok q → (q ≡ p) × IsPreparedPending p
unfolding prepare_pending validate_pending
prepare_pending-IsPreparedPending p q h =
    ground (arith, eq_iff p.device_code "", eq_iff p.verification_url "", eq_iff p.phrase "")

-- Each credential of a state that is there may be stored.
pub record IsPrepared (s : AuthStorageState) : Type 0 where
  pub auth : On IsPreparedAuth s.auth
  pub pending : On IsPreparedPending s.pending_device_auth

-- Prepared credentials pass unchanged, at any time.
prepare_auth_again :
    (now : ℕ) (a : AuthTokens) → IsPreparedAuth a → prepare_auth now (some a) ≡ ok a
unfolding prepare_auth validate_auth fill_expiry
prepare_auth_again now a h =
    ground (arith, eq_iff a.access_token "", eq_iff a.refresh_token "", eq_iff a.token_type "")

prepare_pending_again :
    (p : PendingDeviceAuth) → IsPreparedPending p → prepare_pending (some p) ≡ ok p
unfolding prepare_pending validate_pending
prepare_pending_again p h =
    ground (arith, eq_iff p.device_code "", eq_iff p.verification_url "", eq_iff p.phrase "")

module _ {A : Type 0} (prepare : Option A → Result A) (P : A → Type 0) where
  prepare_some-On :
      ((a b : A) → prepare (some a) ≡ ok b → P b)
      → (o p : Option A) → prepare_some prepare o ≡ ok p
      → On P p
  prepare_some-On keep none p h = ground arith
  prepare_some-On keep (some a) none h = tt
  prepare_some-On keep (some a) (some b) h = keep a b (ground arith)

  prepare_some_again :
      ((a : A) → P a → prepare (some a) ≡ ok a)
      → (o : Option A) → On P o
      → prepare_some prepare o ≡ ok o
  prepare_some_again again none h = refl
  prepare_some_again again (some a) h = rw (again a h)

pub prepare_storage_snapshot-IsPrepared :
    (now : ℕ) (s t : AuthStorageState)
    → prepare_storage_snapshot now s ≡ ok t
    → IsPrepared t × (t.device_auth_generation ≡ s.device_auth_generation)
unfolding prepare_storage_snapshot
prepare_storage_snapshot-IsPrepared now s t h =
    let (a, ea, rest) = >>=-eq-ok (prepare_some (prepare_auth now) s.auth) _ h in
    let (p, ep, same) = >>=-eq-ok (prepare_some prepare_pending s.pending_device_auth) _ rest in
    let auths =
      prepare_some-On (prepare_auth now) IsPreparedAuth (prepare_auth-IsPreparedAuth now) s.auth a
        ea in
    let pendings =
      prepare_some-On prepare_pending IsPreparedPending prepared s.pending_device_auth p ep in
    (
      record {
        auth = subst (On IsPreparedAuth) (ground (arith, same)) auths;
        pending = subst (On IsPreparedPending) (ground (arith, same)) pendings;
      },
      ground (arith, same),
    )
  where
    prepared : (p q : PendingDeviceAuth) → prepare_pending (some p) ≡ ok q → IsPreparedPending q
    prepared p q e = let (same, h) = prepare_pending-IsPreparedPending p q e in rw same h

prepare_some-prepare_pending :
    (o p : Option PendingDeviceAuth) → prepare_some prepare_pending o ≡ ok p → p ≡ o
unfolding prepare_pending validate_pending
prepare_some-prepare_pending none p h = ground arith
prepare_some-prepare_pending (some x) p h = ground arith

-- The pending flow and the generation are stored as they are given.
pub prepare_storage_snapshot_keeps :
    (now : ℕ) (s t : AuthStorageState)
    → prepare_storage_snapshot now s ≡ ok t
    → (t.pending_device_auth ≡ s.pending_device_auth)
      × (t.device_auth_generation ≡ s.device_auth_generation)
unfolding prepare_storage_snapshot
prepare_storage_snapshot_keeps now s t h =
    let (a, ea, rest) = >>=-eq-ok (prepare_some (prepare_auth now) s.auth) _ h in
    let (p, ep, same) = >>=-eq-ok (prepare_some prepare_pending s.pending_device_auth) _ rest in
    (
      ground (arith, same, prepare_some-prepare_pending s.pending_device_auth p ep),
      ground (arith, same),
    )

-- A prepared state is stored as it is, at any time.
pub prepare_storage_snapshot_again :
    (now : ℕ) (s : AuthStorageState) → IsPrepared s → prepare_storage_snapshot now s ≡ ok s
unfolding prepare_storage_snapshot
prepare_storage_snapshot_again now s h = rw (
  prepare_some_again (prepare_auth now) IsPreparedAuth (prepare_auth_again now) s.auth h.auth,
  prepare_some_again prepare_pending IsPreparedPending prepare_pending_again s.pending_device_auth
      h.pending,
)
