-- ===== src/FileStorage/Generation.antt =====
-- Clear of FileStorage against the login flow's generation.
use stripelink.Prelude.{ℕ, ◌≡◌, refl, Option, none, some, arith}
use stripelink.Errors.{sentinel, device_auth_superseded, ok, err}
use stripelink.Session.{
  AuthTokens, PendingDeviceAuth, AuthStorageState, next_generation, same_auth_tokens,
}
use stripelink.StorageCodec.{
  snapshot, cleared_state, bump_generation, insert, lookup, present, read_auth, read_pending,
  read_generation,
}
use stripelink.Auth.Device.{reserve, persist}

abbrev pub nothing : AuthStorageState
nothing = record { auth = none; pending_device_auth = none; device_auth_generation = 1 }

-- A cleared document starts again at the first generation.
pub snapshot-cleared_state : snapshot cleared_state ≡ ok nothing
unfolding snapshot cleared_state bump_generation insert lookup present read_auth read_pending
    read_generation next_generation
snapshot-cleared_state = refl

-- A login that was reserved as the first one, on a state without credentials whose generation was 0,
-- is not superseded by a Clear of FileStorage: the session that Clear leaves has the generation that
-- the login has reserved, and the login's flow is persisted into it. On a state whose generation had
-- been bumped, as MemoryStorage.Clear does it, the same call is refused.
pub persist-cleared_state :
    (s t : AuthStorageState) (now later : ℕ) (p : PendingDeviceAuth) (out : Option AuthTokens × ℕ)
    → s.auth ≡ none
    → s.device_auth_generation ≡ 0
    → reserve now s ≡ ok (t, out)
    → ((c : AuthStorageState) × (snapshot cleared_state ≡ ok c)
        × (persist out.1 out.0 p later c ≡ ok (record c { pending_device_auth = some p }, tt)))
      × (persist out.1 out.0 p later
            (record nothing { device_auth_generation = next_generation t.device_auth_generation })
          ≡ err (sentinel device_auth_superseded))
unfolding reserve persist next_generation same_auth_tokens
persist-cleared_state s t now later p out a g h =
    ((nothing, snapshot-cleared_state, ground arith), ground arith)
