-- ===== src/Examples/Disks.antt =====
-- A file store at concrete inputs: a system whose calls all succeed, and an encoding of the documents
-- that hold no more than a generation.
use stripelink.Prelude.{
  ℕ, String, ◌≡◌, refl, ap, Bool, true, false, ◌&&◌, Option, none, some, List, [], ◌∷◌, ◌==◌,
  eq_iff, arith,
}
use stripelink.Prelude.Int.{pos}
use stripelink.Errors.{plain, sentinel, canceled, Result, ok, err}
use stripelink.Json.{Json, null, bool, int, real, str, arr, obj, Members, end, member}
use stripelink.World.{Env, World, failed}
use stripelink.StorageCodec.{Document, document_from, lookup, insert}
use stripelink.StorageCodec.Decode.{SameEntries}
use stripelink.Disk.{file, Disk, effect, System, Documented}

abbrev simple_members : ℕ → Members
simple_members n =
    member "auth" null
      (member "pendingDeviceAuth" null (member "deviceAuthGeneration" (int (pos n)) end))

abbrev parse_simple : List ℕ → Option Json
parse_simple (n ∷ []) = some (obj (simple_members n))
parse_simple _ = none

abbrev null_json : Json → Bool
null_json null = true
null_json _ = false

abbrev generation_of : Json → Option ℕ
generation_of (int (pos n)) = some n
generation_of _ = none

abbrev refused_document : Result (List ℕ)
refused_document = err (plain "another document")

marshal_generation : Bool → Option ℕ → Result (List ℕ)
marshal_generation true (some n) = ok (n ∷ [])
marshal_generation _ _ = refused_document

pub marshal_simple : Document → Result (List ℕ)
marshal_simple ((a, x) ∷ (p, y) ∷ (g, z) ∷ []) =
    marshal_generation
      ((a == "auth")
        && null_json x
        && (p == "pendingDeviceAuth")
        && null_json y
        && (g == "deviceAuthGeneration"))
      (generation_of z)
marshal_simple _ = refused_document

null_json-null : (j : Json) → null_json j ≡ true → j ≡ null
null_json-null null h = refl
null_json-null (bool b) h = cc
null_json-null (int z) h = cc
null_json-null (real s) h = cc
null_json-null (str s) h = cc
null_json-null (arr i) h = cc
null_json-null (obj m) h = cc

generation_of-int : (j : Json) (n : ℕ) → generation_of j ≡ some n → j ≡ int (pos n)
generation_of-int j n h = ground arith

marshal_generation_lem :
    (t : Bool) (o : Option ℕ) (b : List ℕ)
    → marshal_generation t o ≡ ok b
    → (t ≡ true) × ((n : ℕ) × (o ≡ some n) × (b ≡ n ∷ []))
unfolding marshal_generation
marshal_generation_lem true (some n) b h = (refl, (n, refl, ground arith))
marshal_generation_lem true none b h = cc
marshal_generation_lem false (some n) b h = cc
marshal_generation_lem false none b h = cc

simple_entries :
    (a p g : String) (x y z : Json) (n : ℕ)
    → ((a == "auth")
        && null_json x
        && (p == "pendingDeviceAuth")
        && null_json y
        && (g == "deviceAuthGeneration"))
      ≡ true
    → generation_of z ≡ some n
    → SameEntries (document_from [] (simple_members n)) ((a, x) ∷ (p, y) ∷ (g, z) ∷ [])
unfolding document_from insert lookup
simple_entries a p g x y z n h e k = ground (
  arith,
  eq_iff a "auth",
  eq_iff p "pendingDeviceAuth",
  eq_iff g "deviceAuthGeneration",
  null_json-null x,
  null_json-null y,
  generation_of-int z n,
)

marshal_simple_lem :
    (d : Document) (b : List ℕ)
    → marshal_simple d ≡ ok b
    → (ms : Members) × (parse_simple b ≡ some (obj ms)) × SameEntries (document_from [] ms) d
unfolding marshal_simple
marshal_simple_lem [] b h = cc
marshal_simple_lem (x ∷ []) b h = cc
marshal_simple_lem (x ∷ y ∷ []) b h = cc
marshal_simple_lem ((a, x) ∷ (p, y) ∷ (g, z) ∷ []) b h =
    let (tests, (n, e, same)) = marshal_generation_lem _ (generation_of z) b h in
    (simple_members n, ap parse_simple same, simple_entries a p g x y z n tests e)
marshal_simple_lem (x ∷ y ∷ z ∷ u ∷ d) b h = cc

abbrev pub disk_env : Env Disk
disk_env = record {
  elapsed = λ _. 1000000;
  others = λ _ d. d;
  answer = λ _ _. failed (sentinel canceled);
  construct = λ _. none;
  parse_json = parse_simple;
  hostname = ok "host";
}

-- flock is refused twice
abbrev pub sys : System
sys = record {
  invoke = λ c n d. (none, effect c d);
  has_flock = true;
  lock_regular = λ _. true;
  busy = λ _. 2;
  marshal = marshal_simple;
  syntax_error = λ _. plain "unexpected end of JSON input";
}

pub sys-Documented : Documented disk_env sys
sys-Documented = record {
  done = λ c n d h. refl;
  failed = λ c n d e h. cc;
  marshalled = marshal_simple_lem;
}

abbrev pub stored_disk : Disk
stored_disk = record {
  node = file (record { content = 4 ∷ []; mode = 0o644; synced = true });
  temps = [];
  directory_synced = true;
}

abbrev pub disk_world : World Disk
disk_world = record {
  store = stored_disk;
  now = 1000000000;
  events = 0;
  sent = [];
  turns = [];
  grants = [];
}
