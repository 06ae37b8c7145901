-- ===== src/StorageFile/Cleanup.antt =====
-- The steps of writeStorageState while there is a temporary file, and its removal.
use stripelink.Prelude.{ℕ, ◌≡◌, String, none, List, ◌∷◌, arith}
use stripelink.Errors.{Err, Result, ok, err, wrap, join}
use stripelink.World.{Env, Context, M, context_failure}
use stripelink.Disk.{
  File, Disk, Call, effect, failed_effect, System, Documented, call, tried, on_error, get_disk,
  close_temp, remove_temp, lstat,
}
use stripelink.Disk.Triple.{
  Triple, Triple-bind, Triple-pure, Triple-lift, Triple-raise, Triple-map_err, Triple-weaken,
  Triple-on_error, After, Triple-tried, Triple-tried_either, Triple-context_failure,
  Triple-get_disk, Refuses, Triple-call,
}
use stripelink.StorageFile.{
  inspect, settle_removal, cleanup, fail, step_or_fail, live_or_cleanup,
  validate_storage_destination,
}

-- Removing a temporary file always succeeds.
abbrev pub Removes : System → Type 0
Removes sys = (n : ℕ) (d : Disk) → (sys.invoke remove_temp n d).0 ≡ none

-- Any temporary file will do.
abbrev pub Any : File → Type 0
Any t = Unit {0}

module _ (env : Env Disk) (sys : System) (documented : Documented env sys) (old : Disk) where
  -- The path and the temporary files are as before.
  pub record Untouched (d : Disk) : Type 0 where
    pub node : d.node ≡ old.node
    pub temps : d.temps ≡ old.temps

  -- There is one more temporary file, of which `S` holds.
  pub record Pending (S : File → Type 0) (d : Disk) : Type 0 where
    pub temp : File
    pub node : d.node ≡ old.node
    pub temps : d.temps ≡ temp ∷ old.temps
    pub state : S temp

  -- The write has failed, and left a temporary file at most where that cannot be removed.
  pub record Unwritten (d : Disk) : Type 0 where
    pub node : d.node ≡ old.node
    pub temps : Removes sys → d.temps ≡ old.temps

  pub close-Pending :
      (S : File → Type 0)
      → Triple (Pending S) (λ _. Pending S) (Pending S) (call env sys close_temp)
  close-Pending S = Triple-call env sys documented close_temp (λ d p. p) (λ d text refuses p. p)

  -- what is left where the removal was refused
  abbrev Stuck : Disk → Type 0
  Stuck d = Pending Any d × ((d' : Disk) × Refuses env sys documented remove_temp d')

  -- `E` after an attempt: the refusal is no error of the attempt itself
  remove-Untouched : Triple (Pending Any) (λ _. Untouched) Stuck (call env sys remove_temp)
  remove-Untouched =
      Triple-call env sys documented remove_temp (λ d p. ground arith)
        (λ d text refuses p. (p, (d, refuses)))

  Stuck-refused : (d : Disk) → Stuck d → ¬ Removes sys
  Stuck-refused d (p, (d', (n, (e, refused)))) removes = ground (arith, removes n d')

  remove-Unwritten : Triple Stuck (λ _. Unwritten) Unwritten (call env sys remove_temp)
  remove-Unwritten =
      Triple-call env sys documented remove_temp
        (λ d s. record { node = s.0.node; temps = λ removes. absurd (Stuck-refused d s removes) })
        (λ d text refuses s. record {
          node = s.0.node;
          temps = λ removes. absurd (Stuck-refused d s removes);
        })

  settle_removal-Unwritten :
      {Q : Unit {0} → Disk → Type 0} (cause : Err) (r : Result (Unit {0}))
      → Triple (After (λ _. Untouched) Stuck r) Q Unwritten (settle_removal env sys cause r)
  unfolding settle_removal
  settle_removal-Unwritten cause (ok a) =
      Triple-raise cause (λ d u. record { node = u.node; temps = λ _. u.temps })
  settle_removal-Unwritten cause (err e) =
      Triple-bind _ _
        (Triple-tried_either Stuck (call env sys close_temp) Stuck
          (Triple-call env sys documented close_temp (λ d s. s) (λ d text refuses s. s)))
        λ _.
          Triple-bind _ _
            (Triple-tried_either Stuck (call env sys remove_temp) Unwritten remove-Unwritten)
            λ _. Triple-raise (join cause (wrap "remove temporary auth storage file" e)) (λ d u. u)

  pub cleanup-Unwritten :
      {Q : Unit {0} → Disk → Type 0} (cause : Err)
      → Triple (Pending Any) Q Unwritten (cleanup env sys cause)
  unfolding cleanup
  cleanup-Unwritten cause =
      Triple-bind _ _
        (Triple-tried_either (Pending Any) (call env sys close_temp) (Pending Any)
          (close-Pending Any))
        λ _.
          Triple-bind _ _
            (Triple-tried (Pending Any) (call env sys remove_temp) (λ _. Untouched) Stuck
              remove-Untouched)
            λ r. settle_removal-Unwritten cause r

  module _ (S : File → Type 0) where
    pub Pending-Any : (d : Disk) → Pending S d → Pending Any d
    Pending-Any d p = record { temp = p.temp; node = p.node; temps = p.temps; state = tt }

    pub live_or_cleanup-Pending :
        (ctx : Context)
        → Triple (Pending S) (λ _. Pending S) Unwritten (live_or_cleanup env sys ctx)
    unfolding live_or_cleanup
    live_or_cleanup-Pending ctx =
        Triple-on_error (context_failure ctx) (cleanup env sys) (Triple-context_failure ctx)
          λ e. Triple-weaken (cleanup env sys e) (cleanup-Unwritten e) Pending-Any (λ d u. u)

    pub step_or_fail-Pending :
        (T : File → Type 0) (message : String) (c : Call)
        → ((d : Disk) → Pending S d → Pending T (effect c d))
        → ((d : Disk) (text : List ℕ) → Pending S d → Pending Any (failed_effect c text d))
        → Triple (Pending S) (λ _. Pending T) Unwritten (step_or_fail env sys message c)
    unfolding step_or_fail fail
    step_or_fail-Pending T message c good bad =
        Triple-on_error (call env sys c) (fail env sys message)
          (Triple-call env sys documented c good (λ d text refuses p. bad d text p))
          λ e.
            Triple-bind (tried (call env sys close_temp)) _
              (Triple-tried_either (Pending Any) (call env sys close_temp) (Pending Any)
                (close-Pending Any))
              λ _. cleanup-Unwritten (wrap message e)

    -- for what does not touch the disk
    pub keeps-Pending :
        (m : M Disk (Unit {0}))
        → Triple (Pending S) (λ _. Pending S) (Pending S) m
        → Triple (Pending S) (λ _. Pending S) Unwritten (on_error m (cleanup env sys))
    keeps-Pending m h =
        Triple-on_error m (cleanup env sys) h
          λ e. Triple-weaken (cleanup env sys e) (cleanup-Unwritten e) Pending-Any (λ d u. u)

  -- inspect touches nothing.
  inspect-keeps : (P : Disk → Type 0) → Triple P (λ _. P) P (inspect env sys)
  unfolding inspect
  inspect-keeps P =
      Triple-bind _ _
        (Triple-map_err _ (call env sys lstat)
          (Triple-call env sys documented {Q = P} lstat (λ d p. p) (λ d text refuses p. p)))
        λ _.
          Triple-bind get_disk _ Triple-get_disk
            λ d. Triple-lift _ (λ a now e p. p.1) (λ now p. p.1)

  pub validate_storage_destination-keeps :
      (P : Disk → Type 0) → Triple P (λ _. P) P (validate_storage_destination env sys)
  unfolding validate_storage_destination
  validate_storage_destination-keeps P =
      Triple-bind (inspect env sys) _ (inspect-keeps P) λ _. Triple-pure tt (λ d p. p)
