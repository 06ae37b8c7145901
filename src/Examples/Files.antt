-- ===== src/Examples/Files.antt =====
-- The theorems on the file store at concrete inputs.
use stripelink.Prelude.{String, ◌≡◌, refl, none, some, [], ◌∷◌}
use stripelink.Prelude.Int.{pos}
use stripelink.Errors.{sentinel, ok, err}
use stripelink.Json.{null, int, str, obj, end, member}
use stripelink.World.{World}
use stripelink.Session.{
  AuthStorageState, next_generation, prepare_storage_snapshot, prepare_auth, validate_auth,
  fill_expiry, prepare_pending, validate_pending,
}
use stripelink.Errors.{device_auth_superseded}
use stripelink.Storage.{Loaded, Cleared}
use stripelink.StorageCodec.{
  new_storage_state, snapshot, cleared_state, replace_snapshot, json_of_tokens, json_of_pending,
  json_of_generation,
}
use stripelink.StorageCodec.RoundTrip.{snapshot-replace_snapshot, IsForeign}
use stripelink.StorageFile.{write_storage_state}
use stripelink.FileStorage.{load, clear, view}
use stripelink.StorageFile.Writing.{Ending, write_storage_state-Ending}
use stripelink.FileStorage.Contract.{load_keeps_contract, clear_keeps_contract}
use stripelink.FileStorage.Generation.{nothing, persist-cleared_state}
use stripelink.Auth.Device.{reserve, persist}
use stripelink.Examples.{live, second_token, waiting}
use stripelink.StorageCodec.{Document, lookup, insert}
use stripelink.Disk.{Disk}
use stripelink.Examples.Disks.{disk_env, sys, sys-Documented, stored_disk, disk_world}

load_keeps_contract_example :
    Loaded disk_env (view disk_env sys) disk_world (load disk_env sys live disk_world)
load_keeps_contract_example = load_keeps_contract disk_env sys sys-Documented live disk_world

clear_keeps_contract_example :
    Cleared disk_env (view disk_env sys) disk_world (clear disk_env sys live disk_world)
clear_keeps_contract_example = clear_keeps_contract disk_env sys sys-Documented live disk_world

write_storage_state-Ending_example :
    let o = write_storage_state disk_env sys live new_storage_state disk_world in
    Ending disk_env sys sys-Documented stored_disk new_storage_state o.0 o.1.store
write_storage_state-Ending_example =
    write_storage_state-Ending disk_env sys sys-Documented live new_storage_state disk_world

persist-cleared_state_example :
    ((c : AuthStorageState) × (snapshot cleared_state ≡ ok c)
      × (persist 1 none waiting 9 c ≡ ok (record c { pending_device_auth = some waiting }, tt)))
    × (persist 1 none waiting 9 (record nothing { device_auth_generation = next_generation 1 })
        ≡ err (sentinel device_auth_superseded))
unfolding reserve next_generation
persist-cleared_state_example =
    persist-cleared_state
      (record { auth = none; pending_device_auth = none; device_auth_generation = 0 })
      (record { auth = none; pending_device_auth = none; device_auth_generation = 1 }) 7 9 waiting
      (none, 1) refl refl refl

abbrev foreign_document : Document
foreign_document = ("theme", str "dark") ∷ ("auth", null) ∷ []

abbrev session : AuthStorageState
session = record {
  auth = some (record second_token { expires_at = pos 3600007 });
  pending_device_auth = some waiting;
  device_auth_generation = 3;
}

abbrev session_document : Document
session_document =
    ("theme", str "dark")
    ∷ (
      "auth",
      obj (
          member "access_token" (str "access") (
            member "refresh_token" (str "refresh") (
              member "expires_in" (int (pos 3600)) (
                member "token_type" (str "Bearer")
                  (member "expires_at" (int (pos 3600007)) end))))),
    )
    ∷ (
      "pendingDeviceAuth",
      obj (
          member "device_code" (str "device") (
            member "interval" (int (pos 5)) (
              member "expires_at" (int (pos 10000)) (
                member "verification_url" (str "https://v?c")
                  (member "phrase" (str "user") end))))),
    )
    ∷ ("deviceAuthGeneration", int (pos 3))
    ∷ []

snapshot-replace_snapshot_example :
    ((c : AuthStorageState) × (prepare_storage_snapshot 7 session ≡ ok c)
      × (snapshot session_document ≡ ok c))
    × ((k : String) → IsForeign k → lookup k session_document ≡ lookup k foreign_document)
unfolding replace_snapshot prepare_storage_snapshot prepare_auth validate_auth fill_expiry
    prepare_pending validate_pending json_of_tokens json_of_pending json_of_generation insert
snapshot-replace_snapshot_example =
    snapshot-replace_snapshot 7 foreign_document session_document session refl
