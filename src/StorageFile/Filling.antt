-- ===== src/StorageFile/Filling.antt =====
-- writeStorageState while there is a temporary file: the file that it leaves at the path.
use stripelink.Prelude.{ℕ, String, ◌≡◌, refl, true, false, List, arith}
use stripelink.World.{M, ◌>>=◌, Env, Context}
use stripelink.Disk.{
  File, file, Disk, effect, System, Documented, call, sync_temp, close_temp, rename, chmod_temp,
  write_temp, on_error,
}
use stripelink.Disk.Triple.{
  Triple, Triple-bind, Triple-map_err, Triple-weaken, Triple-on_error, Triple-call,
}
use stripelink.StorageFile.{cleanup, checked, live_or_cleanup, step_or_fail, fill_temp}
use stripelink.StorageFile.Cleanup.{
  Unwritten, Pending, Any, Pending-Any, cleanup-Unwritten, close-Pending, live_or_cleanup-Pending,
  step_or_fail-Pending, keeps-Pending, validate_storage_destination-keeps,
}

module _ (env : Env Disk) (sys : System) (documented : Documented env sys) (old : Disk) where
  module _ (content : List ℕ) where
    abbrev Secured : File → Type 0
    Secured t = t.mode ≡ 0o600

    abbrev Filled : File → Type 0
    Filled t = (t.content ≡ content) × (t.mode ≡ 0o600)

    abbrev Durable : File → Type 0
    Durable t = (t.content ≡ content) × (t.mode ≡ 0o600) × (t.synced ≡ true)

    -- The document is at the path, whole, synced and for the owner only.
    pub record Installed (d : Disk) : Type 0 where
      pub node : d.node ≡ file (record { content = content; mode = 0o600; synced = true })
      pub temps : d.temps ≡ old.temps

    rename-Installed :
        (d : Disk) → Pending env sys documented old Durable d → Installed (effect rename d)
    rename-Installed d p = record { node = ground arith; temps = ground arith }

    -- A step of a live context, which turns a temporary file of `S` into one of `T`, and what follows.
    guarded-Pending :
        {Q : Unit {0} → Disk → Type 0} (ctx : Context) (S : File → Type 0) (T : Disk → Type 0)
        {step rest : M Disk (Unit {0})}
        → Triple (Pending env sys documented old S) (λ _. T) (Unwritten env sys documented old) step
        → Triple T Q (Unwritten env sys documented old) rest
        → Triple
            (Pending env sys documented old S)
            Q
            (Unwritten env sys documented old)
            (live_or_cleanup env sys ctx >>= λ _. step >>= λ _. rest)
    guarded-Pending ctx S T hs hr =
        Triple-bind _ _ (live_or_cleanup-Pending env sys documented old S ctx)
          λ _. Triple-bind _ _ hs λ _. hr

    chmod-Secured :
        (message : String)
        → Triple
            (Pending env sys documented old Any)
            (λ _. Pending env sys documented old Secured)
            (Unwritten env sys documented old)
            (step_or_fail env sys message (chmod_temp 0o600))
    chmod-Secured message =
        step_or_fail-Pending env sys documented old Any Secured message (chmod_temp 0o600)
          (λ d p. record {
            temp = record p.temp { mode = 0o600 };
            node = p.node;
            temps = ground arith;
            state = refl;
          })
          (λ d text p. p)

    write-Filled :
        (message : String)
        → Triple
            (Pending env sys documented old Secured)
            (λ _. Pending env sys documented old Filled)
            (Unwritten env sys documented old)
            (step_or_fail env sys message (write_temp content))
    write-Filled message =
        step_or_fail-Pending env sys documented old Secured Filled message (write_temp content)
          (λ d p. record {
            temp = record p.temp { content = content; synced = false };
            node = p.node;
            temps = ground arith;
            state = (refl, p.state);
          })
          (λ d text p. record {
            temp = record p.temp { content = text; synced = false };
            node = p.node;
            temps = ground arith;
            state = tt;
          })

    sync-Durable :
        (message : String)
        → Triple
            (Pending env sys documented old Filled)
            (λ _. Pending env sys documented old Durable)
            (Unwritten env sys documented old)
            (step_or_fail env sys message sync_temp)
    sync-Durable message =
        step_or_fail-Pending env sys documented old Filled Durable message sync_temp
          (λ d p. record {
            temp = record p.temp { synced = true };
            node = p.node;
            temps = ground arith;
            state = (p.state.0, p.state.1, refl);
          })
          (λ d text p. Pending-Any env sys documented old Filled d p)

    rename_or_cleanup-Installed :
        (message : String)
        → Triple
            (Pending env sys documented old Durable)
            (λ _. Installed)
            (Unwritten env sys documented old)
            (on_error (checked env sys message rename) (cleanup env sys))
    rename_or_cleanup-Installed message =
        Triple-on_error _ (cleanup env sys)
          (Triple-map_err _ (call env sys rename)
            (Triple-call env sys documented rename rename-Installed (λ d text refuses p. p)))
          λ e.
            Triple-weaken (cleanup env sys e) (cleanup-Unwritten env sys documented old e)
              (Pending-Any env sys documented old Durable) (λ d u. u)

    pub fill_temp-Installed :
        (ctx : Context)
        → Triple
            (Pending env sys documented old Any)
            (λ _. Installed)
            (Unwritten env sys documented old)
            (fill_temp env sys ctx content)
    unfolding fill_temp
    fill_temp-Installed ctx = guarded-Pending ctx Any _ (chmod-Secured _) (
        guarded-Pending ctx Secured _ (write-Filled _) (
          guarded-Pending ctx Filled _ (sync-Durable _) (
            guarded-Pending ctx Durable _
              (keeps-Pending env sys documented old Durable _ (
                Triple-map_err _ (call env sys close_temp)
                  (close-Pending env sys documented old Durable)))
              (guarded-Pending ctx Durable _
                (keeps-Pending env sys documented old Durable _ (
                  validate_storage_destination-keeps env sys documented old
                    (Pending env sys documented old Durable)))
                (Triple-bind _ _ (live_or_cleanup-Pending env sys documented old Durable ctx)
                  λ _. rename_or_cleanup-Installed _)))))
