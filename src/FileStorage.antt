-- ===== src/FileStorage.antt =====
-- storage.go and storage_codec.go (withState): the AuthStorage that keeps a session in a
-- file, on a system with flock.
mod Replacement
unfoldable pub use Replacement.{replacement}
pub mod Path
pub mod Silence
pub mod Waiting
pub mod Reading
pub mod Transaction
pub mod Commit
pub mod Removal
pub mod Generation
pub mod Resuming
pub mod Clearing
pub mod Granted
pub mod Contract
use stripelink.Prelude.{
  ℕ, String, zero, suc, ◌*◌, ◌^◌, ◌≡◌, Bool, true, false, not, ◌&&◌, Option, none, some, List,
  length, ltb, if◌then◌else◌,
}
use stripelink.Errors.{Err, plain, wrap, join, sentinel, storage_too_large, Result, ok, err}
use stripelink.Json.{codes_eq}
use stripelink.World.{
  Env, Context, M, ◌>>=◌, ◌>>◌, pure, raise, raise_if, lift, wait, sleep, map_err, time_now,
  context_failure,
}
use stripelink.Session.{AuthStorageState, unix_milli}
use stripelink.Storage.{Update, lock}
use stripelink.StorageCodec.{
  Document, new_storage_state, decode_storage_state, snapshot, blame, replace_snapshot,
  cleared_state,
}
use stripelink.Disk.{
  File, Node, absent, file, irregular, Disk, Call, lstat, mkdir_all, open_lock, stat_lock,
  secure_lock, flock, open_file, stat_file, read, create_temp, sync_temp, close_temp, remove_temp,
  rename, remove_file, sync_directory, chmod_file, chmod_temp, write_temp, System, call, get_disk,
  on_error, tried,
}
use stripelink.StorageFile.{
  inspect, acquire_storage_lock, sync_storage_directory, read_storage_state, write_storage_state,
  checked, decode,
}

-- A write of a document, or nothing to write, and what the callback hands out.
abbrev pub Change : Type 0 → Type 0
Change B = Option Document × B

abbrev pub Action : Type 0 → Type 0
Action B = Document → Bool → M Disk (Change B)

module _ (env : Env Disk) (sys : System) where
  unfoldable pub write_change : {B : Type 0} → Context → Change B → M Disk B
  write_change ctx (none, b) = pure b
  write_change ctx (some state, b) = do write_storage_state env sys ctx state; pure b

  module _ {B : Type 0} (ctx : Context) (action : Action B) where
    -- withState while it holds the lock file
    unfoldable pub under_lock : M Disk B
    under_lock = do
      found ← read_storage_state env sys
      change ← action found.0 found.1
      write_change ctx change

    -- withState from the lock file on
    unfoldable pub with_locked : M Disk B
    with_locked = do acquire_storage_lock env sys ctx; context_failure ctx; under_lock

    -- with the directory
    unfoldable pub with_created : M Disk B
    with_created = do checked env sys "create auth storage directory" mkdir_all; with_locked

    -- without a file and a directory: the callback may be called again
    unfoldable pub after_probe : Change B → M Disk B
    after_probe (none, b) = pure b
    after_probe (some state, b) = with_created

    unfoldable pub with_existing : Bool → Bool → M Disk B
    with_existing create exists =
        if create
        then with_created
        else if exists
        then with_locked
        else (action new_storage_state false >>= after_probe)

    unfoldable pub with_state : Bool → M Disk B
    with_state create = do lock env ctx; exists ← inspect env sys; with_existing create exists

  unfoldable pub load_action : Action (Option AuthStorageState)
  load_action raw _ = do s ← lift (snapshot raw); pure (none, some s)

  unfoldable pub load : Context → M Disk (Option AuthStorageState)
  load ctx = with_state ctx load_action false

  unfoldable pub transact_action : {B : Type 0} → Context → Update B → Action B
  transact_action ctx update raw _ = do
    s ← lift (snapshot raw)
    now ← time_now
    out ← lift (update now s)
    context_failure ctx
    change ← lift (replacement sys (unix_milli now) raw out.0)
    pure (change, out.1)

  unfoldable pub transact : {B : Type 0} → Context → Update B → M Disk B
  transact ctx update = with_state ctx (transact_action ctx update) true

  unfoldable pub clear_action : Action (Unit {0})
  clear_action raw exists = pure (if exists then some cleared_state else none, tt)

  unfoldable pub clear : Context → M Disk (Unit {0})
  clear ctx = with_state ctx clear_action false

  -- Delete under the lock, of what is at the path
  unfoldable pub delete_existing : Bool → M Disk (Unit {0})
  delete_existing false = pure tt
  delete_existing true = do
    checked env sys "delete auth storage file" remove_file
    sync_storage_directory env sys

  unfoldable pub delete_locked : Context → Bool → M Disk (Unit {0})
  delete_locked ctx false = pure tt
  delete_locked ctx true = do
    acquire_storage_lock env sys ctx
    context_failure ctx
    exists ← inspect env sys
    delete_existing exists

  unfoldable pub delete : Context → M Disk (Unit {0})
  delete ctx = do lock env ctx; exists ← inspect env sys; delete_locked ctx exists

  -- The session that the disk holds: nothing, where the file cannot be read as one.
  abbrev zero_state : AuthStorageState
  zero_state = record { auth = none; pending_device_auth = none; device_auth_generation = 0 }

  abbrev or_zero : Result AuthStorageState → AuthStorageState
  or_zero (ok s) = s
  or_zero (err e) = zero_state

  abbrev view_document : Result Document → AuthStorageState
  view_document (ok d) = or_zero (snapshot d)
  view_document (err e) = zero_state

  abbrev view_node : Node → AuthStorageState
  view_node absent = zero_state
  view_node irregular = zero_state
  view_node (file f) = view_document (decode env sys f.content)

  abbrev pub view : Disk → AuthStorageState
  view d = view_node d.node
