-- ===== src/FileStorage/Removal.antt =====
-- FileStorage.Delete: where it returns there is no file.
use stripelink.Prelude.{◌≡◌, refl, ap, ◌∙◌, Bool, true, false, arith}
use stripelink.Errors.{ok, wrap}
use stripelink.World.{World, Env, Context, M, lift, context_failure}
use stripelink.Storage.{lock}
use stripelink.Disk.{
  Node, absent, file, irregular, Disk, lstat, remove_file, sync_directory, System, Documented, call,
  get_disk,
}
use stripelink.Disk.Triple.{
  Triple, Triple-if, Triple-bind, Triple-map_err, Triple-get_disk, Triple-lift, Triple-pure,
  Triple-call,
}
use stripelink.StorageFile.{expect_regular, inspect, sync_storage_directory}
use stripelink.FileStorage.{delete_existing, delete_locked, delete}

abbrev Anything : Disk → Type 0
Anything d = Unit {0}

abbrev Gone : Disk → Type 0
Gone d = d.node ≡ absent

Triple-Anything : {A : Type 0} (m : M Disk A) → Triple Anything (λ _. Anything) Anything m
Triple-Anything m = record { good = λ w a p e. tt; bad = λ w x p e. tt }

expect_regular-absent :
    (n : Node) (exists : Bool) → expect_regular n ≡ ok exists → exists ≡ false → n ≡ absent
expect_regular-absent absent exists h e = refl
expect_regular-absent irregular exists h e = cc
expect_regular-absent (file f) exists h e = absurd (ground arith)

module _ (env : Env Disk) (sys : System) (documented : Documented env sys) where
  -- A file that `inspect` does not find is not there.
  abbrev pub Missing : Bool → Disk → Type 0
  Missing exists d = exists ≡ false → d.node ≡ absent

  pub inspect-Missing : Triple Anything Missing Anything (inspect env sys)
  unfolding inspect
  inspect-Missing =
      Triple-bind {Q = λ _. Anything} _ _
        (Triple-map_err (wrap "inspect auth storage file") (call env sys lstat)
          (Triple-call env sys documented lstat (λ d p. tt) (λ d text refuses p. tt)))
        λ _.
          Triple-bind {Q = λ d now. (now ≡ d) × Unit {0}} get_disk
            (λ d. lift (expect_regular d.node)) Triple-get_disk
            λ d.
              Triple-lift (expect_regular d.node)
                (λ exists now h p e.
                  ap (λ (x : Disk). x.node) p.0 ∙ expect_regular-absent d.node exists h e)
                (λ now p. tt)

  delete_existing-Gone :
      (exists : Bool)
      → Triple (Missing exists) (λ _. Gone) Anything (delete_existing env sys exists)
  unfolding delete_existing sync_storage_directory
  delete_existing-Gone false = Triple-pure tt (λ d missing. missing refl)
  delete_existing-Gone true =
      Triple-bind {Q = λ _. Gone} _ _
        (Triple-map_err (wrap "delete auth storage file") (call env sys remove_file)
          (Triple-call env sys documented remove_file (λ d p. refl) (λ d text refuses p. tt)))
        λ _.
          Triple-if sys.has_flock _ _
            (Triple-map_err (wrap "sync auth storage directory") (call env sys sync_directory) (
              Triple-call env sys documented sync_directory (λ d gone. gone)
                (λ d text refuses p. tt)))
            (Triple-pure tt (λ d gone. gone))

  delete_locked-Gone :
      (ctx : Context) (exists : Bool)
      → Triple (Missing exists) (λ _. Gone) Anything (delete_locked env sys ctx exists)
  unfolding delete_locked
  delete_locked-Gone ctx false = Triple-pure tt (λ d missing. missing refl)
  delete_locked-Gone ctx true =
      Triple-bind {Q = λ _. Anything} _ _ (record { good = λ w a p e. tt; bad = λ w x p e. tt })
        λ _. Triple-bind (context_failure ctx) _ (Triple-Anything (context_failure ctx)) λ _.
          Triple-bind (inspect env sys) (delete_existing env sys) inspect-Missing
            λ exists. delete_existing-Gone exists

  -- On a system that does as it is documented, a Delete that succeeds leaves no file at the path.
  delete-absent :
      (ctx : Context) (w : World Disk)
      → (delete env sys ctx w).0 ≡ ok tt
      → (delete env sys ctx w).1.store.node ≡ absent
  unfolding delete
  delete-absent ctx w h = t.good w tt tt h
    where
      t : Triple Anything (λ _. Gone) Anything (delete env sys ctx)
      t = Triple-bind (lock env ctx) _ (Triple-Anything (lock env ctx)) λ _.
          Triple-bind (inspect env sys) (delete_locked env sys ctx) inspect-Missing
            λ exists. delete_locked-Gone ctx exists
