-- ===== src/Auth/Poll/Termination.antt =====
-- PollDeviceAuth ends when its flow expires, unless the interval overflows a Duration.
use stripelink.Prelude.{
  ℕ, ◌+◌, ◌-◌, ◌*◌, ◌^◌, ◌<◌, ◌≤◌, ◌≡◌, ◌≢◌, inl, inr, Bool-cases, false, ◌||◌, none, some, arith,
  is_blank,
}
use stripelink.Prelude.Int.{ℤ, pos, pos_part, not_positive}
use stripelink.Errors.{ok, Result-cases}
use stripelink.World.{Env, World, Context, context_failure, status_of}
use stripelink.Transport.{Core}
use stripelink.Storage.{Storage}
use stripelink.Auth.Wire.{second}
use stripelink.Auth.Device.{DeviceAuth, duration, timer, complete_device}
use stripelink.Auth.Poll.{of_unix_milli, poll_device_auth}
use stripelink.Auth.Poll.Rounds.{rounds-ne-none}

duration_lem :
    (fuel : ℕ) (interval : ℤ)
    → pos_part interval * second + fuel * (5 * second) < 2 ^ 63
    → not_positive interval ≡ false
    → (second ≤ duration interval) × (duration interval + fuel * (5 * second) < 2 ^ 63)
duration_lem fuel interval h p = ground arith

module _ {S : Type 0} (env : Env S) (core : Core S) (storage : Storage env) where
  -- PollDeviceAuth ends: if the seconds that the flow has left are fewer than the rounds of fuel, and
  -- the interval with five more seconds for each round is a Duration, the loop does not run out of
  -- fuel, whatever the server, the context and the storage do.
  pub poll_device_auth-ne-none :
      (fuel : ℕ) (ctx : Context) (da : DeviceAuth) (w : World S)
      → pos_part da.interval * second + fuel * (5 * second) < 2 ^ 63
      → of_unix_milli da.expires_at - w.now < fuel * second
      → (poll_device_auth env core storage fuel ctx (some da) w).0 ≢ ok none
  unfolding poll_device_auth
  poll_device_auth-ne-none fuel ctx da w interval left e =
      let bad = is_blank da.device_code || not_positive da.expires_at || not_positive da.interval in
      elim (Result-cases (status_of ctx w.events w.now)) [
        | inr (x, dead) ↦ cc (rw dead at e)
        | inl (_, live) ↦ elim (Bool-cases bad) [
          | inl y ↦ cc (rw (live, y) at e)
          | inr n ↦
              let start = (context_failure ctx w).1 in
              rounds-ne-none env core storage ctx da.device_code (of_unix_milli da.expires_at) fuel
                (duration da.interval) start (duration_lem fuel da.interval interval (ground arith))
                left (rw (live, n) at e)
        ]
      ]

-- If a server's interval is a multiple of 2 ^ 55 seconds and its answer is accepted, the interval
-- overflows to the Duration 0, and the timer of PollDeviceAuth's first round is 0, however long the
-- flow has left.
pub overflowing_interval_spins :
    (k now remaining : ℕ) (wire da : DeviceAuth)
    → wire.interval ≡ pos (k * 2 ^ 55)
    → complete_device now wire ≡ ok da
    → timer (duration da.interval) remaining ≡ 0
unfolding complete_device
overflowing_interval_spins k now remaining wire da i h = ground arith
