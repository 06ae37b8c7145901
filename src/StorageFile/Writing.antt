-- ===== src/StorageFile/Writing.antt =====
-- writeStorageState: what it leaves at the path and beside it, wherever it stops.
use stripelink.Prelude.{ℕ, ◌≡◌, ◌⊎◌, refl, inl, inr, true, false, List, [], arith}
use stripelink.Errors.{Err, Result, ok, err, Result-cases}
use stripelink.World.{World, Env, Context, lift, context_failure}
use stripelink.StorageCodec.{Document, blame}
use stripelink.StorageCodec.RoundTrip.{blame-ok}
use stripelink.Disk.{Disk, System, Documented, call, create_temp, sync_directory}
use stripelink.Disk.Triple.{
  Triple, Triple-pure, Triple-if_known, Triple-bind, Triple-given, Triple-lift, Triple-map_err,
  Triple-weaken, Triple-context_failure, Triple-call,
}
use stripelink.StorageFile.{fill_temp, sync_storage_directory, write_content, write_storage_state}
use stripelink.StorageFile.Filling.{Installed, fill_temp-Installed}
use stripelink.StorageFile.Cleanup.{
  Untouched, Unwritten, Pending, Any, validate_storage_destination-keeps,
}

module _ (env : Env Disk) (sys : System) (documented : Documented env sys) (old : Disk) where
  -- Some text of the document is at the path.
  pub record Published (state : Document) (d : Disk) : Type 0 where
    pub content : List ℕ
    pub marshalled : sys.marshal state ≡ ok content
    pub installed : Installed env sys documented old content d

  module _ (ctx : Context) (state : Document) where
    -- Where a write fails, the old file is there, or the directory could not be synced.
    abbrev pub Torn : Disk → Type 0
    Torn d = (Unwritten env sys documented old) d ⊎ Published state d

    abbrev pub Written : Unit {0} → Disk → Type 0
    Written _ d = Published state d × (sys.has_flock ≡ true → d.directory_synced ≡ true)

    Untouched-Torn : (d : Disk) → (Untouched env sys documented old) d → Torn d
    Untouched-Torn d u = inl (record { node = u.node; temps = λ _. u.temps })

    sync-Written :
        (content : List ℕ)
        → sys.marshal state ≡ ok content
        → Triple
            (Installed env sys documented old content)
            Written
            Torn
            (sync_storage_directory env sys)
    unfolding sync_storage_directory
    sync-Written content marshalled =
        Triple-if_known sys.has_flock _ _
          (λ yes_flock. Triple-map_err _ (call env sys sync_directory) (
            Triple-call env sys documented sync_directory
              (λ d i. (
                record {
                  content = content;
                  marshalled = marshalled;
                  installed = record { node = i.node; temps = i.temps };
                },
                λ e. refl,
              ))
              (λ d text refuses i.
                inr (record { content = content; marshalled = marshalled; installed = i }))))
          (λ without.
            Triple-pure tt λ d i.
              (record { content = content; marshalled = marshalled; installed = i }, λ e. cc))

    write_content-Written :
        (content : List ℕ)
        → sys.marshal state ≡ ok content
        → Triple (Untouched env sys documented old) Written Torn (write_content env sys ctx content)
    unfolding write_content
    write_content-Written content marshalled =
        Triple-bind (context_failure ctx) _
          (Triple-weaken _ (Triple-context_failure ctx) (λ d u. u) Untouched-Torn)
          λ _.
            Triple-bind {Q = λ _. Pending env sys documented old Any} _ _
              (Triple-map_err _ (call env sys create_temp) (
                Triple-call env sys documented create_temp
                  (λ d u. record {
                    temp = record { content = []; mode = 0o600; synced = false };
                    node = u.node;
                    temps = ground (arith, u.temps);
                    state = tt;
                  })
                  (λ d text refuses u. Untouched-Torn d u)))
              λ _.
                Triple-bind {Q = λ _. Installed env sys documented old content}
                  (fill_temp env sys ctx content) _
                  (Triple-weaken _ (fill_temp-Installed env sys documented old content ctx)
                    (λ d p. p) (λ d u. inl u))
                  λ _. sync-Written content marshalled

    pub write_storage_state-Written :
        Triple
          (Untouched env sys documented old)
          Written
          Torn
          (write_storage_state env sys ctx state)
    unfolding write_storage_state
    write_storage_state-Written =
        Triple-bind (context_failure ctx) _
          (Triple-weaken _ (Triple-context_failure ctx) (λ d u. u) Untouched-Torn)
          λ _.
            Triple-bind _ _
              (Triple-weaken _
                (validate_storage_destination-keeps env sys documented old
                  (Untouched env sys documented old))
                (λ d u. u) Untouched-Torn)
              λ _.
                Triple-bind (context_failure ctx) _
                  (Triple-weaken _ (Triple-context_failure ctx) (λ d u. u) Untouched-Torn)
                  λ _.
                    Triple-bind
                      {Q = λ content d.
                        (sys.marshal state ≡ ok content) × (Untouched env sys documented old) d}
                      (lift (blame "encode auth storage file" (sys.marshal state)))
                      (write_content env sys ctx)
                      (Triple-lift (blame "encode auth storage file" (sys.marshal state))
                        (λ content d e u. (blame-ok _ (sys.marshal state) content e, u))
                        Untouched-Torn)
                      λ content.
                        Triple-given (write_content env sys ctx content)
                          (write_content-Written content)

  -- How writeStorageState ends over the disk `old`.
  pub data Ending (state : Document) : Result (Unit {0}) → Disk → Type 0 where
    -- the text of the document is at the path, whole, synced and for the owner only, no temporary
    -- file is left, and the directory has been synced where a program can do so
    written :
        {r : Result (Unit {0})} {d : Disk}
        → r ≡ ok tt
        → Published state d
        → (sys.has_flock ≡ true → d.directory_synced ≡ true)
        → Ending state r d
    -- an error that leaves the old file, and a temporary one at most where that cannot be removed
    unwritten :
        {r : Result (Unit {0})} {d : Disk} (e : Err)
        → r ≡ err e
        → Unwritten env sys documented old d
        → Ending state r d
    -- an error of the last sync: the text is there all the same
    unsettled :
        {r : Result (Unit {0})} {d : Disk} (e : Err)
        → r ≡ err e
        → Published state d
        → Ending state r d

module _ (env : Env Disk) (sys : System) (documented : Documented env sys) where
  -- On a system that does as it is documented, writeStorageState returns only when the whole encoded
  -- document is at the path, synced, with mode 0600, beside no temporary file that was not there
  -- before, in a directory that is synced on a system with flock. Where it fails the old file is at the path, with a temporary file
  -- left only if removals fail; or the new file is there as above, but the directory is not synced.
  pub write_storage_state-Ending :
      (ctx : Context) (state : Document) (w : World Disk)
      → let o = write_storage_state env sys ctx state w in
        Ending env sys documented w.store state o.0 o.1.store
  write_storage_state-Ending ctx state w =
      let t = write_storage_state-Written env sys documented w.store ctx state in
      let untouched : Untouched env sys documented w.store w.store = record {
        node = refl;
        temps = refl;
      } in
      elim (Result-cases (write_storage_state env sys ctx state w).0) [
        | inl (a, e) ↦ let d = t.good w a untouched e in written e d.0 d.1
        | inr (x, e) ↦ torn x e (t.bad w x untouched e)
      ]
    where
      torn :
          {r : Result (Unit {0})} {d : Disk} (x : Err)
          → r ≡ err x
          → Torn env sys documented w.store ctx state d
          → Ending env sys documented w.store state r d
      torn x e (inl u) = unwritten x e u
      torn x e (inr p) = unsettled x e p
