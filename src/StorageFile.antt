-- ===== src/StorageFile.antt =====
-- storage_codec.go, storage_lock_unix.go and storage_lock_other.go, with the storage_sync files: how a
-- file store takes its lock, reads its file and replaces it, on a system with flock and on one without.
pub mod Cleanup
pub mod Filling
pub mod Writing
use stripelink.Prelude.{
  ℕ, String, zero, suc, ◌*◌, ◌^◌, ◌≡◌, Bool, true, false, not, ◌&&◌, Option, none, some, List,
  length, ltb, if◌then◌else◌,
}
use stripelink.Errors.{Err, plain, wrap, join, sentinel, storage_too_large, Result, ok, err}
use stripelink.Json.{codes_eq}
use stripelink.World.{
  Env, Context, M, ◌>>=◌, ◌>>◌, pure, raise, raise_if, lift, wait, note_grant, sleep, map_err,
  time_now, context_failure,
}
use stripelink.Session.{AuthStorageState, unix_milli}
use stripelink.Storage.{Update, lock}
use stripelink.StorageCodec.{
  Document, new_storage_state, decode_storage_state, snapshot, blame, replace_snapshot,
  cleared_state,
}
use stripelink.Disk.{
  File, Node, absent, file, irregular, Disk, Call, lstat, mkdir_all, open_lock, stat_lock,
  secure_lock, flock, open_file, stat_file, read, create_temp, sync_temp, close_temp, remove_temp,
  rename, remove_file, sync_directory, chmod_file, chmod_temp, write_temp, System, call, get_disk,
  on_error, tried,
}

-- 1 << 20, kept shut: nothing but its size is read of it.
unfoldable pub max_auth_file_bytes : ℕ
max_auth_file_bytes = 2 ^ 20

abbrev pub irregular_path : Err
irregular_path = plain "auth storage path is not a regular file"

-- info.Mode().IsRegular, where there is a file
abbrev pub expect_regular : Node → Result Bool
expect_regular absent = ok false
expect_regular (file f) = ok true
expect_regular irregular = err irregular_path

module _ (env : Env Disk) (sys : System) where
  abbrev run : Call → M Disk (Unit {0})
  run = call env sys

  -- if err := <call>; err != nil { return fmt.Errorf("<message>: %w", err) }
  abbrev pub checked : String → Call → M Disk (Unit {0})
  checked message c = map_err (wrap message) (run c)

  -- os.Lstat, whether the file exists, and the test of its mode
  unfoldable pub inspect : M Disk Bool
  inspect = do checked "inspect auth storage file" lstat; d ← get_disk; lift (expect_regular d.node)

  -- The loop of acquireStorageLock, by the number of refusals, the answers EWOULDBLOCK and EAGAIN; others act
  -- before each try. The last try is granted, or fails with another error.
  unfoldable pub try_lock : Context → ℕ → M Disk (Unit {0})
  try_lock ctx zero = do wait env; checked "acquire auth storage lock" flock; note_grant
  try_lock ctx (suc refusals) = do
    map_err (wrap "acquire auth storage lock") (sleep env ctx (10 * 1000000))
    try_lock ctx refusals

  -- acquireStorageLock, of what the system answers: whether the file is regular, and the refusals
  unfoldable pub acquire : Context → Bool → ℕ → M Disk (Unit {0})
  acquire ctx regular refusals = do
    checked "open auth storage lock" open_lock
    checked "inspect auth storage lock" stat_lock
    raise_if (not regular) (wrap "validate auth storage lock" (plain "path is not a regular file"))
    checked "secure auth storage lock" secure_lock
    try_lock ctx refusals

  -- acquireStorageLock without flock: the lock file is opened, and nobody is waited for
  unfoldable pub open_unlocked : Context → Bool → M Disk (Unit {0})
  open_unlocked ctx regular = do
    context_failure ctx
    checked "inspect auth storage lock" stat_lock
    raise_if (not regular) (plain "auth storage lock path is not a regular file")
    checked "open auth storage lock" open_lock
    checked "secure auth storage lock" secure_lock

  unfoldable pub acquire_storage_lock : Context → M Disk (Unit {0})
  acquire_storage_lock ctx w =
      let regular = sys.lock_regular w.events in
      (if sys.has_flock then acquire ctx regular (sys.busy w.events) else open_unlocked ctx regular)
        w

  -- syncDirectory, which does nothing where there is no flock
  unfoldable pub sync_storage_directory : M Disk (Unit {0})
  sync_storage_directory =
      if sys.has_flock then checked "sync auth storage directory" sync_directory else pure tt

  abbrev pub decode : List ℕ → Result Document
  decode content = decode_storage_state env.parse_json (sys.syntax_error content) content

  -- openCredentialFile opens the file and then looks what it is, or looks and then opens a regular one.
  unfoldable pub look_or_open : M Disk (Unit {0})
  look_or_open =
      if sys.has_flock
      then checked "open auth storage file" open_file
      else checked "open auth storage file" stat_file

  unfoldable pub confirm : Node → M Disk (Unit {0})
  confirm absent = pure tt
  confirm irregular = if sys.has_flock then checked "open auth storage file" stat_file else pure tt
  confirm (file f) =
      if sys.has_flock
      then checked "open auth storage file" stat_file
      else checked "open auth storage file" open_file

  -- openCredentialFile and the rest of readStorageState, of what is at the path
  unfoldable pub read_file : Node → M Disk (Document × Bool)
  read_file absent = pure (new_storage_state, false)
  read_file irregular = do
    confirm irregular
    raise (wrap "open auth storage file" (plain "path is not a regular file"))
  read_file (file f) = do
    confirm (file f)
    checked "open auth storage file" (chmod_file 0o600)
    checked "read auth storage file" read
    raise_if (ltb max_auth_file_bytes (length f.content)) (sentinel storage_too_large)
    d ← lift (decode f.content)
    pure (d, true)

  unfoldable pub read_storage_state : M Disk (Document × Bool)
  read_storage_state = do look_or_open; d ← get_disk; read_file d.node

  -- The deferred removal tries again where the first has failed.
  unfoldable pub settle_removal : Err → Result (Unit {0}) → M Disk (Unit {0})
  settle_removal cause (ok _) = raise cause
  settle_removal cause (err e) = do
    closed ← tried (run close_temp)
    again ← tried (run remove_temp)
    raise (join cause (wrap "remove temporary auth storage file" e))

  unfoldable pub cleanup : Err → M Disk (Unit {0})
  cleanup cause = do
    closed ← tried (run close_temp)
    removed ← tried (run remove_temp)
    settle_removal cause removed

  unfoldable pub fail : String → Err → M Disk (Unit {0})
  fail message e = do closed ← tried (run close_temp); cleanup (wrap message e)

  unfoldable pub step_or_fail : String → Call → M Disk (Unit {0})
  step_or_fail message c = on_error (run c) (fail message)

  unfoldable pub live_or_cleanup : Context → M Disk (Unit {0})
  live_or_cleanup ctx = on_error (context_failure ctx) cleanup

  abbrev discard : M Disk Bool → M Disk (Unit {0})
  discard m = do exists ← m; pure tt

  unfoldable pub validate_storage_destination : M Disk (Unit {0})
  validate_storage_destination = discard inspect

  -- writeStorageState while there is a temporary file
  unfoldable pub fill_temp : Context → List ℕ → M Disk (Unit {0})
  fill_temp ctx content = do
    live_or_cleanup ctx
    step_or_fail "secure temporary auth storage file" (chmod_temp 0o600)
    live_or_cleanup ctx
    step_or_fail "write temporary auth storage file" (write_temp content)
    live_or_cleanup ctx
    step_or_fail "sync temporary auth storage file" sync_temp
    live_or_cleanup ctx
    on_error (checked "close temporary auth storage file" close_temp) cleanup
    live_or_cleanup ctx
    on_error validate_storage_destination cleanup
    live_or_cleanup ctx
    on_error (checked "replace auth storage file" rename) cleanup

  -- writeStorageState from the encoded text on
  unfoldable pub write_content : Context → List ℕ → M Disk (Unit {0})
  write_content ctx content = do
    context_failure ctx
    checked "create temporary auth storage file" create_temp
    fill_temp ctx content
    sync_storage_directory

  unfoldable pub write_storage_state : Context → Document → M Disk (Unit {0})
  write_storage_state ctx state = do
    context_failure ctx
    validate_storage_destination
    context_failure ctx
    content ← lift (blame "encode auth storage file" (sys.marshal state))
    write_content ctx content
