-- ===== src/FileStorage/Silence.antt =====
-- With its lock FileStorage sends no request, its clock does not run back, and others do not act.
use stripelink.Prelude.{ℕ, refl, inl, inr, String, none, some, List, arith}
use stripelink.Errors.{Err, Result, ok, err, Result-cases}
use stripelink.World.{Env, Context, M}
use stripelink.StorageCodec.{Document}
use stripelink.Storage.{Alone-trans}
use stripelink.Storage.Silent.{Silent-if, Silent, silent_rules}
use stripelink.Disk.{
  Node, absent, file, irregular, Disk, Call, System, call, get_disk, on_error, tried,
}
use stripelink.StorageFile.{
  inspect, sync_storage_directory, look_or_open, confirm, read_file, read_storage_state,
  settle_removal, cleanup, fail, step_or_fail, live_or_cleanup, validate_storage_destination,
  fill_temp, write_content, write_storage_state,
}
use stripelink.FileStorage.{Change, write_change}

module _ (env : Env Disk) (sys : System) where
  pub Silent-call : (c : Call) → Silent (call env sys c)
  unfolding call
  Silent-call c = record {
    at = λ w. record {
      quiet = record { sent = refl; clock = omega arith };
      turns = refl;
      grants = refl;
    };
  }

  Silent-get_disk : Silent get_disk
  Silent-get_disk = record {
    at = λ w. record {
      quiet = record { sent = refl; clock = omega arith };
      turns = refl;
      grants = refl;
    };
  }

  Silent-on_error :
      {A : Type 0} (m : M Disk A) (h : Err → M Disk A)
      → Silent m
      → ((e : Err) → Silent (h e))
      → Silent (on_error m h)
  Silent-on_error m h hm hh = record {
    at = λ w. elim (Result-cases (m w).0) [
      | inl (x, e) ↦ rw e (hm.at w)
      | inr (x, e) ↦ rw e (Alone-trans (hm.at w) ((hh x).at (m w).1))
    ];
  }

  Silent-tried : {A : Type 0} (m : M Disk A) → Silent m → Silent (tried m)
  Silent-tried m h = record { at = λ w. h.at w }

  ruleset disk_rules = (silent_rules, Silent-call, Silent-get_disk, Silent-on_error, Silent-tried)

  inspect-Silent : Silent (inspect env sys)
  unfolding inspect
  inspect-Silent = search disk_rules

  sync_storage_directory-Silent : Silent (sync_storage_directory env sys)
  unfolding sync_storage_directory
  sync_storage_directory-Silent =
      Silent-if sys.has_flock _ _ (search disk_rules) (search disk_rules)

  look_or_open-Silent : Silent (look_or_open env sys)
  unfolding look_or_open
  look_or_open-Silent = Silent-if sys.has_flock _ _ (search disk_rules) (search disk_rules)

  confirm-Silent : (n : Node) → Silent (confirm env sys n)
  unfolding confirm
  confirm-Silent absent = search disk_rules
  confirm-Silent irregular = Silent-if sys.has_flock _ _ (search disk_rules) (search disk_rules)
  confirm-Silent (file f) = Silent-if sys.has_flock _ _ (search disk_rules) (search disk_rules)

  read_file-Silent : (n : Node) → Silent (read_file env sys n)
  unfolding read_file
  read_file-Silent absent = search disk_rules
  read_file-Silent irregular = search (disk_rules, confirm-Silent)
  read_file-Silent (file f) = search (disk_rules, confirm-Silent) depth 20

  pub read_storage_state-Silent : Silent (read_storage_state env sys)
  unfolding read_storage_state
  read_storage_state-Silent = search (disk_rules, look_or_open-Silent, read_file-Silent)

  settle_removal-Silent : (e : Err) (r : Result (Unit {0})) → Silent (settle_removal env sys e r)
  unfolding settle_removal
  settle_removal-Silent e (ok a) = search disk_rules
  settle_removal-Silent e (err x) = search disk_rules

  cleanup-Silent : (e : Err) → Silent (cleanup env sys e)
  unfolding cleanup
  cleanup-Silent e = search (disk_rules, settle_removal-Silent)

  fail-Silent : (message : String) (e : Err) → Silent (fail env sys message e)
  unfolding fail
  fail-Silent message e = search (disk_rules, cleanup-Silent)

  step_or_fail-Silent : (message : String) (c : Call) → Silent (step_or_fail env sys message c)
  unfolding step_or_fail
  step_or_fail-Silent message c = search (disk_rules, fail-Silent)

  live_or_cleanup-Silent : (ctx : Context) → Silent (live_or_cleanup env sys ctx)
  unfolding live_or_cleanup
  live_or_cleanup-Silent ctx = search (disk_rules, cleanup-Silent)

  validate_storage_destination-Silent : Silent (validate_storage_destination env sys)
  unfolding validate_storage_destination
  validate_storage_destination-Silent = search (disk_rules, inspect-Silent)

  fill_temp-Silent : (ctx : Context) (content : List ℕ) → Silent (fill_temp env sys ctx content)
  unfolding fill_temp
  fill_temp-Silent ctx content =
      search
        (
          disk_rules, live_or_cleanup-Silent, step_or_fail-Silent, cleanup-Silent,
          validate_storage_destination-Silent,
        )
        depth 40

  write_content-Silent :
      (ctx : Context) (content : List ℕ) → Silent (write_content env sys ctx content)
  unfolding write_content
  write_content-Silent ctx content =
      search (disk_rules, sync_storage_directory-Silent, fill_temp-Silent)

  write_storage_state-Silent :
      (ctx : Context) (state : Document) → Silent (write_storage_state env sys ctx state)
  unfolding write_storage_state
  write_storage_state-Silent ctx state =
      search (disk_rules, validate_storage_destination-Silent, write_content-Silent)

  pub write_change-Silent :
      {B : Type 0} (ctx : Context) (change : Change B) → Silent (write_change env sys ctx change)
  unfolding write_change
  write_change-Silent ctx (none, b) = search disk_rules
  write_change-Silent ctx (some state, b) = search (disk_rules, write_storage_state-Silent)
