-- ===== src/FileStorage/Contract.antt =====
-- FileStorage keeps the contract of AuthStorage.
use stripelink.Prelude.{◌≡◌, refl, sym, ap, ◌∙◌, inl, inr, Bool, true, false, some, arith}
use stripelink.Errors.{Result-cases}
use stripelink.World.{World, Env, Context}
use stripelink.Storage.{Update, Alone-Others, here, Loaded, Transacted, Cleared, Storage}
use stripelink.Storage.Waits.{Transacted-resumes, Loaded-resumes, Cleared-resumes}
use stripelink.StorageCodec.{snapshot}
use stripelink.Disk.{Disk, System, Documented}
use stripelink.StorageFile.{read_storage_state}
use stripelink.FileStorage.{
  write_change, under_lock, after_probe, with_existing, load_action, load, transact_action,
  transact, clear_action, clear, view,
}
use stripelink.FileStorage.Silence.{read_storage_state-Silent}
use stripelink.FileStorage.Reading.{read_storage_state-Found, snapshot-new_storage_state}
use stripelink.FileStorage.Removal.{Missing}
use stripelink.FileStorage.Commit.{under_lock-Held}
use stripelink.FileStorage.Resuming.{with_locked-Resumes, with_created-Resumes, with_state-Resumes}
use stripelink.FileStorage.Clearing.{Cleared-with_existing}

module _ (env : Env Disk) (sys : System) (documented : Documented env sys) where
  pub transact-Transacted :
      {B : Type 0} (ctx : Context) (update : Update B) (w : World Disk)
      → Transacted env (view env sys) update w (transact env sys ctx update w)
  unfolding transact with_existing
  transact-Transacted ctx update =
      let r = Transacted-resumes {env = env} (view env sys) update in
      with_state-Resumes env sys documented r ctx (transact_action env sys ctx update) true
        (λ w exists missing.
          with_created-Resumes env sys documented r ctx (transact_action env sys ctx update) locked
            w)
    where
      locked :
          (w : World Disk)
          → Transacted env
              (view env sys)
              update
              w
              (under_lock env sys ctx (transact_action env sys ctx update) w)
      locked w =
          let h = under_lock-Held env sys documented ctx update w in
          record {
            quiet = h.alone.quiet;
            time = h.time;
            mid = w.store;
            began = h.began;
            ended = h.ended;
            reached = Alone-Others env h.alone;
            outcome = h.outcome;
          }

  Loaded-under_lock :
      (ctx : Context) (w : World Disk)
      → Loaded env (view env sys) w (under_lock env sys ctx (load_action env sys) w)
  unfolding under_lock load_action write_change
  Loaded-under_lock ctx w =
      let t = read_storage_state-Found env sys documented w.store in
      let q = (read_storage_state-Silent env sys).at w in
      elim (Result-cases (read_storage_state env sys w).0) [
        | inr (x, e) ↦ rw e (record {
          quiet = q.quiet;
          mid = w.store;
          reached = Alone-Others env q;
          same = t.bad w x refl e;
          copy = λ s h. cc;
        })
        | inl (found, e) ↦
            let f = t.good w found refl e in
            rw e (elim (Result-cases (snapshot found.0)) [
              | inr (x, bad) ↦ rw bad (record {
                quiet = q.quiet;
                mid = w.store;
                reached = Alone-Others env q;
                same = f.kept;
                copy = λ s h. cc;
              })
              | inl (s, good) ↦ rw good (record {
                quiet = q.quiet;
                mid = w.store;
                reached = Alone-Others env q;
                same = f.kept;
                copy = λ o h.
                    let out : o ≡ some s = ground arith in
                    out ∙ ap some (f.faithful s good ∙ sym f.kept);
              })
            ])
      ]

  Loaded-with_existing :
      (ctx : Context) (exists : Bool) (w : World Disk)
      → Missing env sys documented exists w.store
      → Loaded env (view env sys) w (with_existing env sys ctx (load_action env sys) false exists w)
  unfolding with_existing after_probe load_action
  Loaded-with_existing ctx true w missing =
      with_locked-Resumes env sys documented (Loaded-resumes (view env sys)) ctx
        (load_action env sys) (Loaded-under_lock ctx) w
  Loaded-with_existing ctx false w missing = rw snapshot-new_storage_state (record {
    quiet = record { sent = refl; clock = omega arith };
    mid = w.store;
    reached = here;
    same = refl;
    copy = λ o h. rw (missing refl) (ground arith);
  })

  -- On a system that does as it is documented, FileStorage.Load sends nothing, leaves the session in the
  -- file as others have left it, and what it returns is that session.
  pub load_keeps_contract :
      (ctx : Context) (w : World Disk) → Loaded env (view env sys) w (load env sys ctx w)
  unfolding load
  load_keeps_contract ctx =
      with_state-Resumes env sys documented (Loaded-resumes (view env sys)) ctx
        (load_action env sys) false (λ w exists missing. Loaded-with_existing ctx exists w missing)

  -- On a system that does as it is documented, FileStorage.Clear sends nothing, and leaves a session with
  -- neither credentials nor a pending flow, or returns an error over the session that others have left.
  pub clear_keeps_contract :
      (ctx : Context) (w : World Disk) → Cleared env (view env sys) w (clear env sys ctx w)
  unfolding clear
  clear_keeps_contract ctx =
      with_state-Resumes env sys documented (Cleared-resumes (view env sys)) ctx
        (clear_action env sys) false
        (λ w exists missing. Cleared-with_existing env sys documented ctx exists w missing)

  -- FileStorage is an AuthStorage.
  abbrev pub file_storage : Storage env
  file_storage = record {
    view = view env sys;
    load = load env sys;
    transact = transact env sys;
    clear = clear env sys;
    load-Loaded = load_keeps_contract;
    transact-Transacted = transact-Transacted;
    clear-Cleared = clear_keeps_contract;
  }
