-- ===== src/Auth/Poll.antt =====
-- auth.go: PollDeviceAuth and ResumeDeviceAuth, the loop over PollDeviceAuthOnce.
--
-- Fuel counts rounds: `none` means that the loop was still polling when it ran out.
mod Clock
pub mod Rounds
pub mod Termination
use stripelink.Prelude.{
  ℕ, zero, suc, ◌+◌, ◌-◌, ◌*◌, ◌/◌, ◌%◌, ◌^◌, String, Bool, true, false, ◌&&◌, ◌||◌, not, Option,
  none, some, leb, ltb, eqb, is_blank, if◌then◌else◌,
}
use stripelink.Prelude.Int.{ℤ, pos, pos_part, not_positive, max_int64}
use stripelink.Errors.{
  Err, sentinel, wrap, api, authorization_pending, slow_down, no_pending_device_auth, is, Result,
  ok, err, invalid,
}
use stripelink.World.{
  Env, World, Context, M, ◌>>=◌, ◌>>◌, pure, raise, lift, raise_if, map_err, time_now,
  context_failure, with_deadline, sleep,
}
use stripelink.Transport.{Core}
use stripelink.Session.{AuthTokens, PendingDeviceAuth}
use stripelink.Storage.{Storage}
use stripelink.Auth.Wire.{second, expired_device_code_error}
use stripelink.Auth.Device.{
  DeviceAuth, resume, duration, slower, timer, Round, done, again, clear_terminal_pending,
  poll_device_auth_once,
}

-- time.Until: at most the longest Duration.
abbrev pub until : ℕ → ℕ → ℕ
until now expires = let rest = expires - now in if ltb max_int64 rest then max_int64 else rest

-- time.UnixMilli
abbrev pub of_unix_milli : ℤ → ℕ
of_unix_milli t = pos_part t * 1000000

module _ {S : Type 0} (env : Env S) (core : Core S) (storage : Storage env) where
  module _ (ctx : Context) (device_code : String) (expires : ℕ) where
    -- if the flow has expired { return a.clearTerminalPending(…, expiredDeviceCodeError()) }
    unfoldable pub stop_if_expired : M S (Unit {0})
    stop_if_expired = do
      now ← time_now
      if leb expires now
          then clear_terminal_pending env core storage ctx device_code
              (api expired_device_code_error)
          else pure tt

    -- What a round makes of the poll's result.
    unfoldable pub after_poll : ℕ → Result AuthTokens → M S Round
    after_poll interval (ok tokens) = pure (done tokens)
    after_poll interval (err e) =
        if is slow_down e
        then pure (again (slower interval))
        else if is authorization_pending e
        then pure (again interval)
        else do context_failure ctx; stop_if_expired; raise e

    unfoldable pub poll : ℕ → M S Round
    poll interval w =
        let (r, w') =
          poll_device_auth_once env core storage (with_deadline ctx expires) device_code w in
        after_poll interval r w'

    unfoldable pub round : ℕ → M S Round
    round interval = do
      stop_if_expired
      now ← time_now
      sleep env ctx (timer interval (until now expires))
      stop_if_expired
      poll interval

    abbrev continue_with : (ℕ → M S (Option AuthTokens)) → Round → M S (Option AuthTokens)
    continue_with next (done tokens) = pure (some tokens)
    continue_with next (again interval) = next interval

    unfoldable pub rounds : ℕ → ℕ → M S (Option AuthTokens)
    rounds zero interval = pure none
    rounds (suc fuel) interval = do r ← round interval; continue_with (rounds fuel) r

  unfoldable pub poll_device_auth : ℕ → Context → Option DeviceAuth → M S (Option AuthTokens)
  poll_device_auth fuel ctx none = do
    context_failure ctx
    raise (invalid "invalid device authorization")
  poll_device_auth fuel ctx (some da) = do
    context_failure ctx
    raise_if (is_blank da.device_code || not_positive da.expires_at || not_positive da.interval)
        (invalid "invalid device authorization")
    rounds ctx da.device_code (of_unix_milli da.expires_at) fuel (duration da.interval)

  -- The DeviceAuth that ResumeDeviceAuth polls for.
  unfoldable pub resumed : ℕ → PendingDeviceAuth → DeviceAuth
  resumed now p = record {
    device_code = p.device_code;
    user_code = p.phrase;
    verification_url = "";
    verification_url_complete = p.verification_url;
    expires_in = pos ((until now (of_unix_milli p.expires_at) + second - 1) / second);
    expires_at = p.expires_at;
    interval = p.interval;
  }

  unfoldable pub resume_device_auth : ℕ → Context → M S (Option AuthTokens)
  resume_device_auth fuel ctx = do
    context_failure ctx
    found ← map_err (wrap "load pending device authorization") (storage.transact ctx resume)
    elim found [
      | none ↦ raise (sentinel no_pending_device_auth)
      | some p ↦ do now ← time_now; poll_device_auth fuel ctx (some (resumed now p))
    ]
