-- ===== src/Examples/Storage.antt =====
-- The theorems on sessions and stores at concrete inputs.
use stripelink.Prelude.{◌≡◌, refl, some, []}
use stripelink.Prelude.Int.{pos}
use stripelink.Errors.{Err, ok, err, sentinel, canceled}
use stripelink.World.{answered, status_of}
use stripelink.Session.{
  AuthStorageState, prepare_auth, validate_auth, fill_expiry, prepare_storage_snapshot,
  prepare_pending, validate_pending,
}
use stripelink.Session.Prepared.{prepare_storage_snapshot-IsPrepared, IsPrepared}
use stripelink.Storage.{Transacted, Others, lock}
use stripelink.MemoryStorage.{view, transact}
use stripelink.MemoryStorage.Contract.{transact_loses_nothing, transact_rollback}
use stripelink.Auth.Device.{abandon}
use stripelink.Examples.{live, ended, second_token, waiting, env, world, pending_store, body}

abbrev stored : AuthStorageState
stored = record {
  auth = some (record second_token { expires_at = pos 3600007 });
  pending_device_auth = some waiting;
  device_auth_generation = 3;
}

stored-IsPrepared : IsPrepared stored
unfolding prepare_storage_snapshot prepare_auth validate_auth fill_expiry prepare_pending
    validate_pending
stored-IsPrepared =
    (prepare_storage_snapshot-IsPrepared 7
      (record {
        auth = some second_token;
        pending_device_auth = some waiting;
        device_auth_generation = 3;
      })
      stored refl).0

transact_loses_nothing_example :
    let e = env (answered 200 (body 1)) in
    let w = world pending_store in
    let o = transact e live (abandon "device") w in
    Transacted e view (abandon "device") w o
    × ((x : Err)
        → (lock e live w).0 ≡ ok tt
        → status_of live (lock e live w).1.events (lock e live w).1.now ≡ err x
        → ((f : Err) × (o.0 ≡ err f)) × (o.1.store ≡ (lock e live w).1.store))
transact_loses_nothing_example =
    transact_loses_nothing (env (answered 200 (body 1))) live (abandon "device")
      (world pending_store) tt

transact_rollback_example :
    let o = transact (env (answered 200 (body 1))) ended (abandon "device") (world pending_store) in
    Others (env (answered 200 (body 1))) pending_store [] o.1.store o.1.turns
unfolding transact lock status_of
transact_rollback_example =
    transact_rollback (env (answered 200 (body 1))) ended (abandon "device") (world pending_store)
      (sentinel canceled) refl
