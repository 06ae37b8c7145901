-- ===== src/FileStorage/Clearing.antt =====
-- Clear of FileStorage, with a file and without one.
use stripelink.Prelude.{◌≡◌, ◌⊎◌, refl, sym, ◌∙◌, inl, inr, Bool, true, false, none, some, arith}
use stripelink.Errors.{Err, Result, err, Result-cases}
use stripelink.World.{World, Env, Context, ◌>>=◌}
use stripelink.Storage.{Alone, Alone-trans, Alone-Others, here, Cleared}
use stripelink.Storage.Waits.{Cleared-resumes}
use stripelink.StorageCodec.{Document, cleared_state}
use stripelink.Disk.{absent, Disk, System, Documented}
use stripelink.StorageFile.{read_storage_state}
use stripelink.FileStorage.{
  write_change, under_lock, after_probe, with_existing, clear_action, view,
}
use stripelink.FileStorage.Silence.{read_storage_state-Silent, write_change-Silent}
use stripelink.FileStorage.Reading.{Found, read_storage_state-Found}
use stripelink.FileStorage.Removal.{Missing}
use stripelink.FileStorage.Generation.{nothing, snapshot-cleared_state}
use stripelink.FileStorage.Commit.{Ended, write_change-Ended}
use stripelink.FileStorage.Resuming.{with_locked-Resumes}

module _ (env : Env Disk) (sys : System) (documented : Documented env sys) where
  Ended-cleared :
      (w w1 : World Disk) (o : Result (Unit {0}) × World Disk)
      → view env sys w1.store ≡ view env sys w.store
      → Ended env sys documented w1.store nothing tt o
      → ((view env sys o.1.store).auth ≡ none)
          × ((view env sys o.1.store).pending_device_auth ≡ none)
        ⊎ (view env sys o.1.store ≡ view env sys w.store) × ((e : Err) × (o.0 ≡ err e))
  Ended-cleared w w1 o kept z = elim (z.ends) [
    | inl (r, new) ↦ inl (emptied o.1.store new)
    | inr (x, r, inl old) ↦ inr (old ∙ kept, (x, r))
    | inr (x, r, inr new) ↦ inl (emptied o.1.store new)
  ]
    where
      emptied :
          (d : Disk)
          → view env sys d ≡ nothing
          → ((view env sys d).auth ≡ none) × ((view env sys d).pending_device_auth ≡ none)
      emptied d e = rw e (refl, refl)

  missing-cleared :
      (old d : Disk)
      → old.node ≡ absent
      → view env sys d ≡ view env sys old
      → ((view env sys d).auth ≡ none) × ((view env sys d).pending_device_auth ≡ none)
  missing-cleared old d gone same = rw (same, gone) (refl, refl)

  clear_action-Cleared :
      (ctx : Context) (raw : Document) (exists : Bool) (w w1 : World Disk)
      → Alone w w1
      → Found env sys documented w.store (raw, exists) w1.store
      → Cleared env
          (view env sys)
          w
          ((clear_action env sys raw exists >>= λ change. write_change env sys ctx change) w1)
  unfolding clear_action write_change
  clear_action-Cleared ctx raw true w w1 alone f =
      let z =
        write_change-Ended env sys documented ctx raw nothing (some cleared_state, tt) w1
          snapshot-cleared_state (λ s h. f.faithful s h ∙ sym f.kept) in
      let a =
        Alone-trans alone ((write_change-Silent env sys ctx (some cleared_state, tt)).at w1) in
      record {
        quiet = a.quiet;
        mid = w.store;
        reached = Alone-Others env a;
        cleared = Ended-cleared w w1 _ f.kept z;
      }
  clear_action-Cleared ctx raw false w w1 alone f = record {
    quiet = alone.quiet;
    mid = w.store;
    reached = Alone-Others env alone;
    cleared = inl (missing-cleared w.store w1.store (f.missing refl) f.kept);
  }

  Cleared-under_lock :
      (ctx : Context) (w : World Disk)
      → Cleared env (view env sys) w (under_lock env sys ctx (clear_action env sys) w)
  unfolding under_lock clear_action
  Cleared-under_lock ctx w =
      let t = read_storage_state-Found env sys documented w.store in
      let q = (read_storage_state-Silent env sys).at w in
      elim (Result-cases (read_storage_state env sys w).0) [
        | inr (x, e) ↦ rw e (record {
          quiet = q.quiet;
          mid = w.store;
          reached = Alone-Others env q;
          cleared = inr (t.bad w x refl e, (x, refl));
        })
        | inl (found, e) ↦
            let f = t.good w found refl e in
            rw e (clear_action-Cleared ctx found.0 found.1 w (read_storage_state env sys w).1 q f)
      ]

  pub Cleared-with_existing :
      (ctx : Context) (exists : Bool) (w : World Disk)
      → Missing env sys documented exists w.store
      → Cleared env
          (view env sys)
          w
          (with_existing env sys ctx (clear_action env sys) false exists w)
  unfolding with_existing after_probe clear_action
  Cleared-with_existing ctx true w missing =
      with_locked-Resumes env sys documented (Cleared-resumes (view env sys)) ctx
        (clear_action env sys) (Cleared-under_lock ctx) w
  Cleared-with_existing ctx false w missing = record {
    quiet = record { sent = refl; clock = omega arith };
    mid = w.store;
    reached = here;
    cleared = inl (missing-cleared w.store w.store (missing refl) refl);
  }
