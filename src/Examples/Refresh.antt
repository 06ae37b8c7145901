-- ===== src/Examples/Refresh.antt =====
-- The theorems on the token source and on logout at concrete inputs.
use stripelink.Prelude.{
  ◌+◌, ◌*◌, ◌≤◌, ◌≡◌, ◌≢◌, ◌⊎◌, refl, true, false, Option, none, some, is_blank,
}
use stripelink.Prelude.Int.{pos, pos_part}
use stripelink.Json.{string_field, int_field}
use stripelink.World.{answered, status_of}
use stripelink.Transport.{
  AccessTokenRequest, perform, engine, do_attempt, http_request, receive, read_bounded,
}
use stripelink.Session.{
  AuthTokens, PendingDeviceAuth, prepare_auth, validate_auth, fill_expiry, prepare_storage_snapshot,
  prepare_pending,
}
use stripelink.Storage.{lock}
use stripelink.MemoryStorage.{MemoryStorage, view, load, clear, transact_locked, transact}
use stripelink.MemoryStorage.Contract.{memory_storage}
use stripelink.Auth.Wire.{
  tokens_of, decode_required_json, absolute_expiry, complete_tokens, decode_auth_tokens,
}
use stripelink.Auth.Tokens.{post_form, refresh_token, revoke_token, logout}
use stripelink.Auth.Logout.{logout-SignedOut}
use stripelink.TokenProvider.{token_expiry_skew, token_needs_refresh, decide, rotate, run_refresh}
use stripelink.TokenProvider.Persist.{Holds, run_refresh-Holds}
use stripelink.TokenProvider.Requests.{decide-refresh}
use stripelink.Examples.{live, second_token, env, core, world, body}

abbrev old : AuthTokens
old = record second_token { access_token = "old"; expires_at = pos 3600000 }

abbrev gentle : AccessTokenRequest
gentle = record { force_refresh = false; rejected_token = "" }

decide-refresh_example :
    (◌≡◌ {A = Option AuthTokens} (some old) (some old))
    × (old.access_token ≢ "")
    × (old.refresh_token ≢ "")
    × (gentle.force_refresh ≡ true
        → (gentle.rejected_token ≡ "") ⊎ (gentle.rejected_token ≡ old.access_token))
    × (gentle.force_refresh ≡ false
        → pos_part old.expires_at * 1000000 ≤ 3550000000000 + token_expiry_skew)
unfolding decide token_needs_refresh
decide-refresh_example = decide-refresh 3550000000000 gentle (some old) old refl

abbrev old_store : MemoryStorage
old_store = record { auth = some old; pending = none; generation = 2 }

run_refresh-Holds_example :
    Holds
      (view
        (run_refresh
          (env (answered 200 (body 1)))
          core
          (memory_storage (env (answered 200 (body 1))))
          live
          old
          (world old_store)).1.store)
      (record second_token { expires_at = pos 3601001 })
unfolding run_refresh refresh_token post_form perform engine do_attempt http_request receive
    read_bounded decode_auth_tokens decode_required_json tokens_of complete_tokens absolute_expiry
    string_field int_field transact transact_locked lock status_of rotate prepare_storage_snapshot
    prepare_auth validate_auth fill_expiry prepare_pending is_blank
run_refresh-Holds_example =
    run_refresh-Holds (env (answered 200 (body 1))) core
      (memory_storage (env (answered 200 (body 1)))) live old (world old_store)
      (record second_token { expires_at = pos 3601001 }) refl

logout-SignedOut_example :
    (◌≡◌ {A = Option AuthTokens} none none) × (◌≡◌ {A = Option PendingDeviceAuth} none none)
unfolding logout revoke_token post_form perform engine do_attempt http_request receive read_bounded
    load clear lock status_of is_blank
logout-SignedOut_example =
    logout-SignedOut (env (answered 200 (body 1))) core
      (memory_storage (env (answered 200 (body 1)))) live (world old_store) refl
