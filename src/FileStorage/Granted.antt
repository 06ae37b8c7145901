-- ===== src/FileStorage/Granted.antt =====
-- A transaction of FileStorage that returns was granted the lock file, once, on a system with flock.
use stripelink.Prelude.{
  ℕ, zero, suc, ◌*◌, ◌≡◌, refl, ap, ◌∙◌, inl, inr, Bool, true, false, not, ◌∷◌, if◌then◌else◌,
}
use stripelink.Errors.{Err, Result, ok, wrap, Result-cases}
use stripelink.World.{
  World, M, Env, Context, ◌>>=◌, ◌>>◌, lift, raise_if, map_err, sleep, wait, note_grant,
  context_failure,
}
use stripelink.Storage.{Update, lock}
use stripelink.Disk.{
  Disk, Call, mkdir_all, open_lock, stat_lock, secure_lock, flock, System, Documented, call,
  get_disk,
}
use stripelink.StorageFile.{inspect, checked, try_lock, acquire, acquire_storage_lock}
use stripelink.FileStorage.{
  under_lock, with_locked, with_created, with_existing, with_state, transact_action, transact,
}
use stripelink.FileStorage.Commit.{under_lock-Held}

-- No lock file is granted.
record Keeps {A : Type 0} (m : M Disk A) : Type 0 where
  at : (w : World Disk) → (m w).1.grants ≡ w.grants

-- Where it returns, one is.
pub record Takes {A : Type 0} (m : M Disk A) : Type 0 where
  pub at : (w : World Disk) (a : A) → (m w).0 ≡ ok a → (n : ℕ) × ((m w).1.grants ≡ n ∷ w.grants)

Keeps-bind :
    {A B : Type 0} (m : M Disk A) (f : A → M Disk B)
    → Keeps m
    → ((a : A) → Keeps (f a))
    → Keeps (m >>= f)
Keeps-bind m f hm hf = record {
  at = λ w. elim (Result-cases (m w).0) [
    | inl (x, e) ↦ rw e ((hf x).at (m w).1 ∙ hm.at w)
    | inr (x, e) ↦ rw e (hm.at w)
  ];
}

Keeps-map_err : {A : Type 0} (f : Err → Err) (m : M Disk A) → Keeps m → Keeps (map_err f m)
Keeps-map_err f m h = record { at = λ w. h.at w }

Keeps-lift : {A : Type 0} (r : Result A) → Keeps (lift r)
Keeps-lift r = record { at = λ w. refl }

Keeps-raise_if : (b : Bool) (e : Err) → Keeps (raise_if b e)
Keeps-raise_if true e = record { at = λ w. refl }
Keeps-raise_if false e = record { at = λ w. refl }

Takes-behind :
    {A B : Type 0} (m : M Disk A) (f : A → M Disk B)
    → Keeps m
    → ((a : A) → Takes (f a))
    → Takes (m >>= f)
Takes-behind m f hm hf = record {
  at = λ w b. elim (Result-cases (m w).0) [
    | inl (x, e) ↦
        rw e (λ h.
          let (n, granted) = (hf x).at (m w).1 b h in (n, granted ∙ ap (λ g. n ∷ g) (hm.at w)))
    | inr (x, e) ↦ rw e (λ h. cc)
  ];
}

Takes-before :
    {A B : Type 0} (m : M Disk A) (f : A → M Disk B)
    → Takes m
    → ((a : A) → Keeps (f a))
    → Takes (m >>= f)
Takes-before m f hm hf = record {
  at = λ w b. elim (Result-cases (m w).0) [
    | inl (x, e) ↦ rw e (λ h. let (n, granted) = hm.at w x e in (n, (hf x).at (m w).1 ∙ granted))
    | inr (x, e) ↦ rw e (λ h. cc)
  ];
}

Takes-if :
    {A : Type 0} (b : Bool) (m n : M Disk A) → b ≡ true → Takes m → Takes (if b then m else n)
Takes-if true m n e h = h
Takes-if false m n e h = cc

module _ (env : Env Disk) (sys : System) where
  Keeps-call : (c : Call) → Keeps (call env sys c)
  unfolding call
  Keeps-call c = record { at = λ w. refl }

  Keeps-context_failure : (ctx : Context) → Keeps (context_failure ctx)
  Keeps-context_failure ctx = record { at = λ w. refl }

  Keeps-wait : Keeps (wait env)
  Keeps-wait = record { at = λ w. refl }

  Keeps-sleep : (ctx : Context) (d : ℕ) → Keeps (sleep env ctx d)
  Keeps-sleep ctx d = record { at = λ w. refl }

  Keeps-get_disk : Keeps get_disk
  Keeps-get_disk = record { at = λ w. refl }

  ruleset keeps_rules = (
    Keeps-bind, Keeps-map_err, Keeps-lift, Keeps-raise_if, Keeps-call, Keeps-context_failure,
    Keeps-wait, Keeps-get_disk,
  )

  lock-Keeps : (ctx : Context) → Keeps (lock env ctx)
  unfolding lock
  lock-Keeps ctx = search keeps_rules

  inspect-Keeps : Keeps (inspect env sys)
  unfolding inspect
  inspect-Keeps = search keeps_rules

  granted : Takes {A = Unit {0}} note_grant
  granted = record { at = λ w a h. (w.events, refl) }

  try_lock-Takes : (ctx : Context) (n : ℕ) → Takes (try_lock env sys ctx n)
  unfolding try_lock
  try_lock-Takes ctx zero =
      Takes-behind (wait env >> checked env sys "acquire auth storage lock" flock) _
        (search keeps_rules) (λ a. granted)
  try_lock-Takes ctx (suc n) =
      Takes-behind (map_err (wrap "acquire auth storage lock") (sleep env ctx (10 * 1000000))) _
        (Keeps-map_err _ (sleep env ctx (10 * 1000000)) (Keeps-sleep ctx _))
        (λ a. try_lock-Takes ctx n)

  acquire-Takes : (ctx : Context) (b : Bool) (n : ℕ) → Takes (acquire env sys ctx b n)
  unfolding acquire
  acquire-Takes ctx b n =
      Takes-behind (checked env sys "open auth storage lock" open_lock) _ (search keeps_rules) λ _.
        Takes-behind (checked env sys "inspect auth storage lock" stat_lock) _ (search keeps_rules)
          λ _. Takes-behind (raise_if (not b) _) _ (Keeps-raise_if _ _) λ _.
            Takes-behind (checked env sys "secure auth storage lock" secure_lock) _
              (search keeps_rules) λ _. try_lock-Takes ctx n

  acquire_storage_lock-Takes :
      (ctx : Context) → sys.has_flock ≡ true → Takes (acquire_storage_lock env sys ctx)
  unfolding acquire_storage_lock
  acquire_storage_lock-Takes ctx flocks = record {
    at = λ w.
        (Takes-if sys.has_flock _ _ flocks
            (acquire-Takes ctx (sys.lock_regular w.events) (sys.busy w.events))).at
          w;
  }

  module _ {B : Type 0} (documented : Documented env sys) (ctx : Context) (update : Update B) where
    under_lock-Keeps : Keeps (under_lock env sys ctx (transact_action env sys ctx update))
    under_lock-Keeps = record {
      at = λ w. (under_lock-Held env sys documented ctx update w).alone.grants;
    }

    pub transact-Takes : sys.has_flock ≡ true → Takes (transact env sys ctx update)
    unfolding transact with_state with_existing with_created with_locked
    transact-Takes flocks = Takes-behind (lock env ctx) _ (lock-Keeps ctx) λ _.
        Takes-behind (inspect env sys) _ inspect-Keeps λ exists.
          Takes-behind (checked env sys "create auth storage directory" mkdir_all) _
            (search keeps_rules)
            λ _.
              Takes-before (acquire_storage_lock env sys ctx) _
                (acquire_storage_lock-Takes ctx flocks)
                λ _.
                  Keeps-bind (context_failure ctx) _ (Keeps-context_failure ctx)
                    λ _. under_lock-Keeps
