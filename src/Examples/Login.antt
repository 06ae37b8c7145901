-- ===== src/Examples/Login.antt =====
-- The theorems on the login flow at concrete inputs.
use stripelink.Prelude.{
  ℕ, ◌+◌, ◌*◌, ◌/◌, ◌^◌, ◌≤◌, ◌≡◌, ◌≢◌, refl, none, some, [], ◌∷◌, arith, is_blank,
}
use stripelink.Prelude.Int.{pos, pos_part, max_int64}
use stripelink.Errors.{sentinel, device_auth_superseded, ok, err}
use stripelink.Json.{string_field, int_field}
use stripelink.World.{answered, status_of}
use stripelink.Transport.{perform, engine, do_attempt, http_request, receive, read_bounded}
use stripelink.Session.{
  AuthTokens, AuthStorageState, next_generation, prepare_auth, validate_auth, fill_expiry,
  same_auth_tokens, prepare_storage_snapshot, prepare_pending, validate_pending,
}
use stripelink.Session.Prepared.{IsPreparedAuth}
use stripelink.Storage.{lock}
use stripelink.MemoryStorage.{transact_locked, transact}
use stripelink.MemoryStorage.Contract.{memory_storage}
use stripelink.Auth.Wire.{
  second, tokens_of, decode_required_json, absolute_expiry, complete_tokens, decode_auth_tokens,
}
use stripelink.Auth.Wire.Decode.{decode_auth_tokens_lem}
use stripelink.Auth.Tokens.{post_form}
use stripelink.Auth.Device.{
  DeviceAuth, device_of, complete_device, pending_of, reserve, persist, commit, effective_name,
  duration, timer, accept_poll, initiate_device_auth, request_device_auth, poll_device_auth_once,
}
use stripelink.Auth.Device.Commit.{LoggedIn, poll_device_auth_once-LoggedIn}
use stripelink.Auth.Device.Reserve.{Initiated, initiate_device_auth-Initiated, persist-reserve}
use stripelink.Auth.Poll.{poll_device_auth}
use stripelink.Auth.Poll.Termination.{poll_device_auth-ne-none, overflowing_interval_spins}
use stripelink.Examples.{
  live, second_token, env, core, waiting, world, body, empty_store, pending_store, reader,
}

abbrev device : DeviceAuth
device = record {
  device_code = "device";
  user_code = "user";
  verification_url = "https://v";
  verification_url_complete = "https://v?c";
  expires_in = pos 600;
  expires_at = pos 601002;
  interval = pos 5;
}

poll_device_auth-ne-none_example :
    (poll_device_auth
      (env (answered 400 (body 1)))
      core
      (memory_storage (env (answered 400 (body 1))))
      700
      live
      (some device)
      (world pending_store)).0
    ≢ ok none
poll_device_auth-ne-none_example =
    poll_device_auth-ne-none (env (answered 400 (body 1))) core
      (memory_storage (env (answered 400 (body 1)))) 700 live device (world pending_store)
      (omega arith) (omega arith)

abbrev granted : AuthTokens
granted = record second_token { expires_at = pos 3601001 }

poll_device_auth_once-LoggedIn_example :
    LoggedIn
      (memory_storage (env (answered 200 (body 1))))
      pending_store
      []
      "device"
      granted
      (poll_device_auth_once
        (env (answered 200 (body 1)))
        core
        (memory_storage (env (answered 200 (body 1))))
        live
        "device"
        (world pending_store)).1
unfolding poll_device_auth_once post_form perform engine do_attempt http_request receive
    read_bounded accept_poll decode_auth_tokens decode_required_json tokens_of complete_tokens
    absolute_expiry string_field int_field transact transact_locked lock status_of commit
    next_generation prepare_storage_snapshot prepare_auth validate_auth fill_expiry prepare_pending
    is_blank
poll_device_auth_once-LoggedIn_example =
    poll_device_auth_once-LoggedIn (env (answered 200 (body 1))) core
      (memory_storage (env (answered 200 (body 1)))) live "device" (world pending_store) granted
      refl

initiate_device_auth-Initiated_example :
    Initiated
      (memory_storage (env (answered 200 (body 2))))
      empty_store
      []
      device
      (initiate_device_auth
        (env (answered 200 (body 2)))
        core
        (memory_storage (env (answered 200 (body 2))))
        live
        []
        (world empty_store)).1
unfolding initiate_device_auth request_device_auth post_form perform engine do_attempt http_request
    receive read_bounded decode_required_json device_of complete_device absolute_expiry string_field
    int_field transact transact_locked lock status_of reserve persist next_generation
    prepare_storage_snapshot prepare_auth validate_auth fill_expiry prepare_pending validate_pending
    is_blank effective_name pending_of same_auth_tokens
initiate_device_auth-Initiated_example =
    initiate_device_auth-Initiated (env (answered 200 (body 2))) core
      (memory_storage (env (answered 200 (body 2)))) live [] (world empty_store) device refl

reserved : AuthStorageState
reserved = record { auth = none; pending_device_auth = none; device_auth_generation = 1 }

persist-reserve_example :
    (persist 0 none waiting 0
        (record { auth = none; pending_device_auth = none; device_auth_generation = 1 })
      ≡ err (sentinel device_auth_superseded))
    × (◌≢◌ {A = ℕ} 1 0)
unfolding reserve next_generation
persist-reserve_example =
    persist-reserve (record { auth = none; pending_device_auth = none; device_auth_generation = 0 })
      (record { auth = none; pending_device_auth = none; device_auth_generation = 1 }) 0 0 none
      waiting (none, 1) (omega arith) refl

decode_auth_tokens_lem_example :
    IsPreparedAuth granted
    × (pos_part (pos 3600) * second ≤ max_int64)
    × (granted.expires_at ≡ pos ((1001000000 + pos_part (pos 3600) * second) / 1000000))
unfolding decode_auth_tokens decode_required_json tokens_of complete_tokens absolute_expiry
    string_field int_field
decode_auth_tokens_lem_example = decode_auth_tokens_lem reader 1001000000 (1 ∷ []) granted refl

abbrev spinning : DeviceAuth
spinning = record device { interval = pos (1 * 2 ^ 55); expires_at = pos 600000 }

overflowing_interval_spins_example : timer (duration (pos (1 * 2 ^ 55))) 599000000000 ≡ 0
unfolding complete_device absolute_expiry
overflowing_interval_spins_example =
    overflowing_interval_spins 1 0 599000000000 (record spinning { expires_at = pos 0 }) spinning
      refl refl
