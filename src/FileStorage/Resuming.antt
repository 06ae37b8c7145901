-- ===== src/FileStorage/Resuming.antt =====
-- withState leaves the disk to the others until it holds the lock file.
use stripelink.Prelude.{Bool}
use stripelink.Errors.{Result}
use stripelink.World.{World, Env, Context, context_failure}
use stripelink.Storage.{lock}
use stripelink.Storage.Waits.{
  Waits-lock, Waits-map_err, Waits-context_failure, Resumes, Resumes-bind, Resumes-then,
}
use stripelink.Disk.{Disk, mkdir_all, System, Documented, call}
use stripelink.StorageFile.{inspect}
use stripelink.FileStorage.{
  Action, under_lock, with_locked, with_created, with_existing, with_state,
}
use stripelink.FileStorage.Waiting.{inspect-Waits, acquire_storage_lock-Waits, Waits-mkdir_all}
use stripelink.FileStorage.Removal.{Missing, inspect-Missing}

module _ (env : Env Disk) (sys : System) (documented : Documented env sys) where
  module _ {B : Type 0} {R : World Disk → Result B × World Disk → Type 0} (resumes : Resumes env R)
      (ctx : Context) (action : Action B) where
    pub with_locked-Resumes :
        ((w : World Disk) → R w (under_lock env sys ctx action w))
        → (w : World Disk) → R w (with_locked env sys ctx action w)
    unfolding with_locked
    with_locked-Resumes h =
        Resumes-then resumes _ _ (acquire_storage_lock-Waits env sys documented ctx)
          (Resumes-then resumes (context_failure ctx) _ (Waits-context_failure env ctx) h)

    pub with_created-Resumes :
        ((w : World Disk) → R w (under_lock env sys ctx action w))
        → (w : World Disk) → R w (with_created env sys ctx action w)
    unfolding with_created
    with_created-Resumes h =
        Resumes-then resumes _ _
          (Waits-map_err env _ (call env sys mkdir_all) (Waits-mkdir_all env sys documented))
          (with_locked-Resumes h)

    pub with_state-Resumes :
        (create : Bool)
        → ((w : World Disk) (exists : Bool)
            → Missing env sys documented exists w.store
            → R w (with_existing env sys ctx action create exists w))
        → (w : World Disk) → R w (with_state env sys ctx action create w)
    unfolding with_state
    with_state-Resumes create h = Resumes-then resumes (lock env ctx) _ (Waits-lock env ctx) (
        Resumes-bind resumes (λ exists w. Missing env sys documented exists w.store)
          (inspect env sys) _ (inspect-Waits env sys documented)
          (λ w exists e. (inspect-Missing env sys documented).good w exists tt e) h)
