-- ===== src/MemoryStorage.antt =====
-- memory_storage.go: the in-memory AuthStorage. Its fields are written under the gate only, and
-- `unlock` is where an operation returns.
pub mod Contract
use stripelink.Prelude.{ℕ, Option, none, some}
use stripelink.Errors.{Result, ok, err}
use stripelink.World.{Env, World, Context, M, ◌>>=◌, ◌>>◌, pure, lift, time_now, context_failure}
use stripelink.Session.{
  AuthTokens, PendingDeviceAuth, AuthStorageState, next_generation, unix_milli,
  prepare_storage_snapshot,
}
use stripelink.Storage.{Update, lock}

pub record MemoryStorage : Type 0 where
  pub auth : Option AuthTokens
  pub pending : Option PendingDeviceAuth
  pub generation : ℕ

-- the copy that Load and Transact make
abbrev pub view : MemoryStorage → AuthStorageState
view s = record {
  auth = s.auth;
  pending_device_auth = s.pending;
  device_auth_generation = s.generation;
}

abbrev get_store : M MemoryStorage MemoryStorage
get_store w = (ok w.store, w)

abbrev put_store : MemoryStorage → M MemoryStorage (Unit {0})
put_store s w = (ok tt, record w { store = s })

module _ (env : Env MemoryStorage) where
  unfoldable pub load : Context → M MemoryStorage (Option AuthStorageState)
  load ctx = do lock env ctx; s ← get_store; pure (some (view s))

  -- Transact while it holds the gate
  unfoldable pub transact_locked : {B : Type 0} → Context → Update B → M MemoryStorage B
  transact_locked ctx update = do
    s ← get_store
    now ← time_now
    out ← lift (update now (view s))
    context_failure ctx
    c ← lift (prepare_storage_snapshot (unix_milli now) out.0)
    put_store (record {
      auth = c.auth;
      pending = c.pending_device_auth;
      generation = c.device_auth_generation;
    })
    pure out.1

  unfoldable pub transact : {B : Type 0} → Context → Update B → M MemoryStorage B
  transact ctx update = do lock env ctx; transact_locked ctx update

  unfoldable pub clear : Context → M MemoryStorage (Unit {0})
  clear ctx = do
    lock env ctx
    s ← get_store
    put_store (record { auth = none; pending = none; generation = next_generation s.generation })
