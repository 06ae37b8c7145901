-- ===== src/Disk.antt =====
-- The file system as FileStorage meets it: the credential file, its temporary files, and the calls
-- of os, syscall and storageFileOps, each of which may fail at any event.
--
-- While a call runs time passes, and no one else changes the store: the calls stand between the
-- gate, the lock file and their release. What a call does is a parameter, with the documentation as
-- the hypothesis `Documented`.
pub mod Triple
use stripelink.Prelude.{
  ℕ, zero, suc, ◌+◌, ◌≡◌, Bool, true, false, Option, none, some, List, [], ◌∷◌,
}
use stripelink.Errors.{Err, plain, wrap, Result, ok, err}
use stripelink.World.{World, Env, Context, M, ◌>>=◌, ◌>>◌, pure, raise, wait, sleep, map_err}
use stripelink.Json.{obj, Members}
use stripelink.StorageCodec.{Document, document_from}
use stripelink.StorageCodec.Decode.{SameEntries}

-- A regular file; `synced` says that fsync has been called since it was written.
pub record File : Type 0 where
  pub content : List ℕ
  pub mode : ℕ
  pub synced : Bool

-- What is at the path.
pub data Node : Type 0 where
  absent : Node
  file : File → Node
  irregular : Node

pub record Disk : Type 0 where
  pub node : Node
  -- the temporary files, the latest first
  pub temps : List File
  -- whether the directory has been synced since a rename or a removal
  pub directory_synced : Bool

pub data Call : Type 0 where
  lstat mkdir_all open_lock stat_lock secure_lock flock open_file stat_file read : Call
  create_temp sync_temp close_temp remove_temp rename remove_file sync_directory : Call
  chmod_file chmod_temp : ℕ → Call
  write_temp : List ℕ → Call

abbrev pub on_latest : (File → File) → List File → List File
on_latest f [] = []
on_latest f (t ∷ ts) = f t ∷ ts

abbrev pub drop_latest : List File → List File
drop_latest [] = []
drop_latest (t ∷ ts) = ts

abbrev pub put_in_place : List File → Disk → Disk
put_in_place [] d = d
put_in_place (t ∷ ts) d = record d { node = file t; temps = ts; directory_synced = false }

abbrev pub with_mode : ℕ → Node → Node
with_mode mode absent = absent
with_mode mode irregular = irregular
with_mode mode (file f) = file (record f { mode = mode })

-- What a call is documented to do where it succeeds.
abbrev pub effect : Call → Disk → Disk
effect create_temp d = record d {
  temps = record { content = []; mode = 0o600; synced = false } ∷ d.temps;
}
effect (chmod_temp mode) d = record d { temps = on_latest (λ t. record t { mode = mode }) d.temps }
effect (write_temp text) d = record d {
  temps = on_latest (λ t. record t { content = text; synced = false }) d.temps;
}
effect sync_temp d = record d { temps = on_latest (λ t. record t { synced = true }) d.temps }
effect remove_temp d = record d { temps = drop_latest d.temps }
effect rename d = put_in_place d.temps d
effect remove_file d = record d { node = absent; directory_synced = false }
effect sync_directory d = record d { directory_synced = true }
effect (chmod_file mode) d = record d { node = with_mode mode d.node }
effect _ d = d

-- And where it fails: `text` is what a write has left.
abbrev pub failed_effect : Call → List ℕ → Disk → Disk
failed_effect (write_temp _) text d = effect (write_temp text) d
failed_effect _ text d = d

-- The system, and the functions of encoding/json on a document.
pub record System : Type 0 where
  -- a call at an event: its error, and what it leaves. A missing file is no error here: the disk
  -- tells of it.
  pub invoke : Call → ℕ → Disk → Option Err × Disk
  -- whether the program is built for a system with flock: darwin, linux and the BSDs
  pub has_flock : Bool
  -- that the lock file is no irregular file
  pub lock_regular : ℕ → Bool
  -- how often flock answers EWOULDBLOCK from an event on
  pub busy : ℕ → ℕ
  -- json.Marshal of a storageState
  pub marshal : Document → Result (List ℕ)
  -- the decoder's error for a text that is not one value
  pub syntax_error : List ℕ → Err

-- What the documentation says of the system: each call has its effect or fails, and a marshalled
-- document is read as an object with the entries of the document.
pub record Documented (env : Env Disk) (sys : System) : Type 0 where
  pub done :
      (c : Call) (n : ℕ) (d : Disk)
      → (sys.invoke c n d).0 ≡ none
      → (sys.invoke c n d).1 ≡ effect c d
  pub failed :
      (c : Call) (n : ℕ) (d : Disk) (e : Err)
      → (sys.invoke c n d).0 ≡ some e
      → (text : List ℕ) × ((sys.invoke c n d).1 ≡ failed_effect c text d)
  pub marshalled :
      (d : Document) (b : List ℕ)
      → sys.marshal d ≡ ok b
      → (ms : Members) × (env.parse_json b ≡ some (obj ms)) × SameEntries (document_from [] ms) d

abbrev outcome_of : Option Err → Result (Unit {0})
outcome_of none = ok tt
outcome_of (some e) = err e

unfoldable pub call : Env Disk → System → Call → M Disk (Unit {0})
call env sys c w =
    let (o, d) = sys.invoke c w.events w.store in
    (
      outcome_of o,
      record w { store = d; now = w.now + env.elapsed w.events; events = w.events + 1 },
    )

abbrev pub get_disk : M Disk Disk
get_disk w = (ok w.store, w)

-- if err := m; err != nil { return handler(err) }
abbrev recover : {A : Type 0} → Result A → (Err → M Disk A) → M Disk A
recover (ok a) h w = (ok a, w)
recover (err e) h w = h e w

abbrev pub on_error : {A : Type 0} → M Disk A → (Err → M Disk A) → M Disk A
on_error m h w = let (r, w') = m w in recover r h w'

abbrev pub tried : {A : Type 0} → M Disk A → M Disk (Result A)
tried m w = let (r, w') = m w in (ok r, w')
