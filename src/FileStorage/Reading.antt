-- ===== src/FileStorage/Reading.antt =====
-- readStorageState: what is read is what the file holds, and reading does not change it.
use stripelink.Prelude.{
  List, ℕ, ◌≡◌, refl, sym, ap, ◌∙◌, Bool, true, false, none, length, ltb, arith,
}
use stripelink.Errors.{ok, wrap, plain, sentinel, storage_too_large}
use stripelink.World.{Env, M, pure, lift, raise_if, map_err}
use stripelink.Session.{AuthStorageState}
use stripelink.StorageCodec.{
  Document, decode_storage_state, lookup, present, read_auth, read_pending, read_generation,
  new_storage_state, snapshot,
}
use stripelink.Disk.{
  Call, failed_effect, File, Node, absent, file, irregular, Disk, open_file, stat_file, chmod_file,
  read, System, Documented, effect, with_mode, call, get_disk,
}
use stripelink.Disk.Triple.{
  Triple, Triple-if, Triple-bind, Triple-given, Triple-pure, Triple-lift, Triple-raise,
  Triple-raise_if, Triple-map_err, Triple-get_disk, Triple-weaken, Triple-call,
}
use stripelink.StorageFile.{
  look_or_open, confirm, read_file, read_storage_state, max_auth_file_bytes,
}
use stripelink.FileStorage.{view}

pub snapshot-new_storage_state :
    snapshot new_storage_state
    ≡ ok (record { auth = none; pending_device_auth = none; device_auth_generation = 0 })
unfolding snapshot new_storage_state lookup present read_auth read_pending read_generation
snapshot-new_storage_state = refl

module _ (env : Env Disk) (sys : System) (documented : Documented env sys) (old : Disk) where
  -- The disk holds the same session as before.
  abbrev pub Kept : Disk → Type 0
  Kept d = view env sys d ≡ view env sys old

  -- What has been read is the document that the disk holds.
  pub record Found (found : Document × Bool) (d : Disk) : Type 0 where
    pub kept : Kept d
    pub faithful : (s : AuthStorageState) → snapshot found.0 ≡ ok s → s ≡ view env sys old
    pub missing : found.1 ≡ false → old.node ≡ absent

  Found-absent : (d : Disk) → d ≡ old → absent ≡ old.node → Found (new_storage_state, false) d
  Found-absent d same e = record {
    kept = ap (view env sys) same;
    faithful = λ s h. rw (sym e) (ground (arith, h, snapshot-new_storage_state));
    missing = λ h. sym e;
  }

  Kept-chmod_file : (mode : ℕ) (d : Disk) → Kept d → Kept (effect (chmod_file mode) d)
  Kept-chmod_file mode d kept = same d.node ∙ kept
    where
      same :
          (n : Node)
          → view env sys (record d { node = with_mode mode n })
            ≡ view env sys (record d { node = n })
      same absent = refl
      same irregular = refl
      same (file f) = refl

  Found-file :
      (f : File) (raw : Document) (d : Disk)
      → file f ≡ old.node
      → decode_storage_state env.parse_json (sys.syntax_error f.content) f.content ≡ ok raw
      → Kept d
      → Found (raw, true) d
  Found-file f raw d e decoded kept = record {
    kept = kept;
    faithful = λ s h. rw (sym e, decoded, h) refl;
    missing = λ h. cc;
  }

  -- a look at the file, or an opening of it
  abbrev Looks : Call → Type 0
  Looks c = (effect c old ≡ old) × ((text : List ℕ) → failed_effect c text old ≡ old)

  -- which leaves the file and what was stored
  abbrev Opens : M Disk (Unit {0}) → Type 0
  Opens = Triple (λ d. d ≡ old) (λ _ d. d ≡ old) Kept

  look-Opens :
      (c : Call) → Looks c → Opens (map_err (wrap "open auth storage file") (call env sys c))
  look-Opens c (same, refused) = Triple-map_err (wrap "open auth storage file") (call env sys c) (
      Triple-call env sys documented c (λ d e. rw e same)
        (λ d text refuses e. rw e (ap (view env sys) (refused text))))

  stat_file-Opens : Opens (map_err (wrap "open auth storage file") (call env sys stat_file))
  stat_file-Opens = look-Opens stat_file (refl, λ text. refl)

  open_file-Opens : Opens (map_err (wrap "open auth storage file") (call env sys open_file))
  open_file-Opens = look-Opens open_file (refl, λ text. refl)

  confirm-Opens : (n : Node) → Opens (confirm env sys n)
  unfolding confirm
  confirm-Opens absent = Triple-pure tt (λ d e. e)
  confirm-Opens irregular = Triple-if sys.has_flock _ _ stat_file-Opens (Triple-pure tt (λ d e. e))
  confirm-Opens (file f) = Triple-if sys.has_flock _ _ stat_file-Opens open_file-Opens

  read_file-Found :
      (n : Node) → n ≡ old.node → Triple (λ d. d ≡ old) Found Kept (read_file env sys n)
  unfolding read_file
  read_file-Found absent e =
      Triple-pure (new_storage_state, false) (λ d same. Found-absent d same e)
  read_file-Found irregular e = Triple-bind _ _ (confirm-Opens irregular) λ _.
      Triple-raise (wrap "open auth storage file" (plain "path is not a regular file"))
        (λ d k. ap (view env sys) k)
  read_file-Found (file f) e = Triple-bind _ _ (confirm-Opens (file f)) λ _.
      Triple-bind {Q = λ _. Kept} _ _
        (Triple-map_err _ (call env sys (chmod_file 0o600)) (
          Triple-call env sys documented (chmod_file 0o600)
            (λ d k. Kept-chmod_file 0o600 d (ap (view env sys) k))
            (λ d text refuses k. ap (view env sys) k)))
        λ _.
          Triple-bind {Q = λ _. Kept} _ _
            (Triple-map_err _ (call env sys read)
              (Triple-call env sys documented read (λ d k. k) (λ d text refuses k. k)))
            λ _.
              Triple-bind {Q = λ _. Kept} (raise_if _ _) _
                (Triple-raise_if (ltb max_auth_file_bytes (length f.content))
                  (sentinel storage_too_large))
                λ _.
                  Triple-bind
                    {Q = λ raw d.
                      (decode_storage_state env.parse_json (sys.syntax_error f.content) f.content
                        ≡ ok raw)
                      × Kept d}
                    (lift
                      (decode_storage_state env.parse_json (sys.syntax_error f.content) f.content))
                    (λ raw. pure (raw, true)) (Triple-lift _ (λ raw d g k. (g, k)) (λ d k. k))
                    λ raw. Triple-pure (raw, true) (λ d (g, k). Found-file f raw d e g k)

  pub read_storage_state-Found : Triple (λ d. d ≡ old) Found Kept (read_storage_state env sys)
  unfolding read_storage_state look_or_open
  read_storage_state-Found =
      Triple-bind {Q = λ _ d. d ≡ old} _ _
        (Triple-if sys.has_flock _ _ open_file-Opens stat_file-Opens)
        λ _.
          Triple-bind get_disk (λ d. read_file env sys d.node) Triple-get_disk
            λ d.
              Triple-weaken (read_file env sys d.node)
                (Triple-given (read_file env sys d.node)
                  λ (same : d ≡ old). read_file-Found d.node (ap (λ (x : Disk). x.node) same))
                (λ now (a, b). (sym a ∙ b, b)) (λ now k. k)
