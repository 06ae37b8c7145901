-- ===== src/FileStorage/Waiting.antt =====
-- Up to the lock file FileStorage leaves the disk to the others.
use stripelink.Prelude.{ℕ, zero, suc, ◌*◌, ◌≡◌, refl, ◌∙◌, inl, inr, Bool, List, arith}
use stripelink.Errors.{wrap, Result-cases}
use stripelink.World.{World, Env, Context, sleep, note_grant}
use stripelink.Storage.{here}
use stripelink.Storage.Waits.{
  Waits, still, Waits-bind, Waits-map_err, Waits-if, Waits-sleep, Waits-lift, Waits-raise_if,
  Waits-context_failure, Waits-wait, Waits-lock,
}
use stripelink.Disk.{
  Disk, Call, lstat, open_lock, stat_lock, secure_lock, flock, mkdir_all, effect, failed_effect,
  System, Documented, call, get_disk,
}
use stripelink.Disk.Triple.{Triple, Triple-call}
use stripelink.StorageFile.{inspect, try_lock, acquire, acquire_storage_lock, open_unlocked}
use stripelink.FileStorage.Silence.{Silent-call}

module _ (env : Env Disk) (sys : System) (documented : Documented env sys) where
  Waits-call :
      (c : Call)
      → ((d : Disk) → effect c d ≡ d)
      → ((d : Disk) (text : List ℕ) → failed_effect c text d ≡ d)
      → Waits env (call env sys c)
  Waits-call c good bad = record {
    at = λ w. still ((Silent-call env sys c).at w) (elim (Result-cases (call env sys c w).0) [
      | inl (a, e) ↦ (t w).good w a refl e
      | inr (x, e) ↦ (t w).bad w x refl e
    ]);
  }
    where
      t :
          (w : World Disk)
          → Triple (λ d. d ≡ w.store) (λ _ d. d ≡ w.store) (λ d. d ≡ w.store) (call env sys c)
      t w =
          Triple-call env sys documented c (λ d p. good d ∙ p) (λ d text refuses p. bad d text ∙ p)

  Waits-get_disk : Waits env get_disk
  Waits-get_disk = record {
    at = λ w.
        still
          (record {
            quiet = record { sent = refl; clock = omega arith };
            turns = refl;
            grants = refl;
          })
          refl;
  }

  Waits-lstat : Waits env (call env sys lstat)
  Waits-lstat = Waits-call lstat (λ d. refl) (λ d text. refl)

  pub Waits-mkdir_all : Waits env (call env sys mkdir_all)
  Waits-mkdir_all = Waits-call mkdir_all (λ d. refl) (λ d text. refl)

  Waits-open_lock : Waits env (call env sys open_lock)
  Waits-open_lock = Waits-call open_lock (λ d. refl) (λ d text. refl)

  Waits-stat_lock : Waits env (call env sys stat_lock)
  Waits-stat_lock = Waits-call stat_lock (λ d. refl) (λ d text. refl)

  Waits-secure_lock : Waits env (call env sys secure_lock)
  Waits-secure_lock = Waits-call secure_lock (λ d. refl) (λ d text. refl)

  Waits-note_grant : Waits env note_grant
  Waits-note_grant = record {
    at = λ w. record { quiet = record { sent = refl; clock = omega arith }; reached = here };
  }

  Waits-flock : Waits env (call env sys flock)
  Waits-flock = Waits-call flock (λ d. refl) (λ d text. refl)

  ruleset lock_rules = (
    Waits-bind, Waits-map_err, Waits-lift, Waits-raise_if, Waits-context_failure, Waits-wait,
    Waits-lock, Waits-get_disk, Waits-lstat, Waits-mkdir_all, Waits-open_lock, Waits-stat_lock,
    Waits-secure_lock, Waits-flock, Waits-note_grant,
  )

  pub inspect-Waits : Waits env (inspect env sys)
  unfolding inspect
  inspect-Waits = search lock_rules

  try_lock-Waits : (ctx : Context) (n : ℕ) → Waits env (try_lock env sys ctx n)
  unfolding try_lock
  try_lock-Waits ctx zero = search lock_rules
  try_lock-Waits ctx (suc n) =
      Waits-bind env _ (λ _. try_lock env sys ctx n)
        (Waits-map_err env (wrap "acquire auth storage lock") (sleep env ctx (10 * 1000000))
          (Waits-sleep env ctx _))
        (λ _. try_lock-Waits ctx n)

  acquire-Waits : (ctx : Context) (b : Bool) (n : ℕ) → Waits env (acquire env sys ctx b n)
  unfolding acquire
  acquire-Waits ctx b n = search (lock_rules, try_lock-Waits) depth 20

  open_unlocked-Waits : (ctx : Context) (b : Bool) → Waits env (open_unlocked env sys ctx b)
  unfolding open_unlocked
  open_unlocked-Waits ctx b = search lock_rules depth 20

  pub acquire_storage_lock-Waits : (ctx : Context) → Waits env (acquire_storage_lock env sys ctx)
  unfolding acquire_storage_lock
  acquire_storage_lock-Waits ctx = record {
    at = λ w.
        (Waits-if env sys.has_flock _ _
            (acquire-Waits ctx (sys.lock_regular w.events) (sys.busy w.events))
            (open_unlocked-Waits ctx (sys.lock_regular w.events))).at
          w;
  }
