-- ===== src/Auth/Poll/Rounds.antt =====
-- How long PollDeviceAuth polls: every round that goes on takes at least a second, and only
-- slow_down changes the interval.
use stripelink.Prelude.{
  ℕ, zero, suc, ◌+◌, ◌-◌, ◌*◌, ◌^◌, ◌≤◌, ◌<◌, String, ◌≡◌, ◌≢◌, ◌⊎◌, refl, inl, inr, Bool-cases,
  none, arith, leb,
}
use stripelink.Errors.{Err, is, slow_down, authorization_pending, Result, ok, err, Result-cases}
use stripelink.World.{
  Env, World, Context, ◌>>=◌, ◌>>◌, raise, time_now, context_failure, with_deadline, sleep,
}
use stripelink.World.Rules.{bind-ok}
use stripelink.Transport.{Core}
use stripelink.Session.{AuthTokens}
use stripelink.Storage.{Storage}
use stripelink.Auth.Wire.{second}
use stripelink.Auth.Device.{
  abandon, slower, timer, Round, done, again, clear_terminal_pending, poll_device_auth_once,
}
use stripelink.Auth.Poll.{until, stop_if_expired, after_poll, poll, round, rounds}
use stripelink.Auth.Poll.Clock.{poll_device_auth_once-KeepsTime}

-- An interval of at least a second that is no negative Duration.
abbrev pub IsInterval : ℕ → Type 0
IsInterval interval = (second ≤ interval) × (interval < 2 ^ 63)

module _ {S : Type 0} (env : Env S) (core : Core S) (storage : Storage env) (ctx : Context)
    (code : String) (expires : ℕ) where
  clear_terminal_pending-ne-ok :
      {A : Type 0} (e : Err) (w : World S) (a : A)
      → (clear_terminal_pending env core storage ctx code e w).0 ≢ ok a
  unfolding clear_terminal_pending
  clear_terminal_pending-ne-ok e w a h =
      elim (Result-cases (storage.transact ctx (abandon code) w).0) [
        | inl (_, r) ↦ cc (rw r at h)
        | inr (_, r) ↦ cc (rw r at h)
      ]

  stop_if_expired-ok :
      (w : World S) (u : Unit {0})
      → (stop_if_expired env core storage ctx code expires w).0 ≡ ok u
      → (w.now < expires) × (stop_if_expired env core storage ctx code expires w ≡ (ok tt, w))
  unfolding stop_if_expired
  stop_if_expired-ok w u h = elim (Bool-cases (leb expires w.now)) [
    | inl late ↦ absurd (clear_terminal_pending-ne-ok _ w u (rw late at h))
    | inr early ↦ rw early (ground arith, refl)
  ]

  -- An error that is no request to go on ends the loop.
  failed_poll-ne-ok :
      (e : Err) (w : World S) (r : Round)
      → ((context_failure ctx >> (stop_if_expired env core storage ctx code expires >> raise e))
          w).0
        ≢ ok r
  failed_poll-ne-ok e w r h =
      let (_, _, p) =
        bind-ok (context_failure ctx)
          (λ _. stop_if_expired env core storage ctx code expires >> raise e) w h in
      let w1 = (context_failure ctx w).1 in
      let h1 = rw p at h in
      let (_, _, q) =
        bind-ok (stop_if_expired env core storage ctx code expires) (λ _. raise e) w1 h1 in
      cc (rw q at h1)

  after_poll-again :
      (interval i : ℕ) (r : Result AuthTokens) (w : World S)
      → (after_poll env core storage ctx code expires interval r w).0 ≡ ok (again i)
      → ((after_poll env core storage ctx code expires interval r w).1 ≡ w)
        × ((i ≡ interval) ⊎ (i ≡ slower interval))
  unfolding after_poll
  after_poll-again interval i (ok tokens) w h = absurd (cc h)
  after_poll-again interval i (err e) w h = elim (Bool-cases (is slow_down e)) [
    | inl y ↦ rw y (refl, inr (ground (arith, rw y at h)))
    | inr n ↦ elim (Bool-cases (is authorization_pending e)) [
      | inl y ↦ rw (n, y) (refl, inl (ground (arith, rw (n, y) at h)))
      | inr m ↦ absurd (failed_poll-ne-ok e w (again i) (rw (n, m) at h))
    ]
  ]

  poll_again :
      (interval i : ℕ) (w : World S)
      → (poll env core storage ctx code expires interval w).0 ≡ ok (again i)
      → (w.now ≤ (poll env core storage ctx code expires interval w).1.now)
        × ((i ≡ interval) ⊎ (i ≡ slower interval))
  unfolding poll
  poll_again interval i w h =
      let keeps =
        (poll_device_auth_once-KeepsTime env core storage (with_deadline ctx expires) code).at w in
      let o = poll_device_auth_once env core storage (with_deadline ctx expires) code w in
      let (same, next) = after_poll-again interval i o.0 o.1 h in (rw same keeps, next)

  sleep_lem :
      (d : ℕ) (w : World S) (u : Unit {0})
      → (sleep env ctx d w).0 ≡ ok u
      → w.now + d ≤ (sleep env ctx d w).1.now
  sleep_lem d w u h = ground arith

  timer_lem :
      (interval now later : ℕ)
      → IsInterval interval
      → now < expires
      → now + timer interval (until now expires) ≤ later
      → later < expires
      → now + second ≤ later
  timer_lem interval now later h early slept live = ground arith

  -- A round that has not expired: the timer, the second look at the clock, and the poll.
  abbrev awake : ℕ → World S → Result Round × World S
  awake interval =
      stop_if_expired env core storage ctx code expires
      >> poll env core storage ctx code expires interval

  abbrev after_first : ℕ → Unit {0} → World S → Result Round × World S
  after_first interval _ = do
    now ← time_now
    sleep env ctx (timer interval (until now expires))
    awake interval

  round_eq :
      (interval : ℕ) (w : World S)
      → stop_if_expired env core storage ctx code expires w ≡ (ok tt, w)
      → round env core storage ctx code expires interval w
        ≡ (sleep env ctx (timer interval (until w.now expires)) >> awake interval) w
  unfolding round
  round_eq interval w same = rw same

  round-stop :
      (interval : ℕ) (w : World S) (r : Round)
      → (round env core storage ctx code expires interval w).0 ≡ ok r
      → (u : Unit {0}) × ((stop_if_expired env core storage ctx code expires w).0 ≡ ok u)
  unfolding round
  round-stop interval w r e =
      let (u, o, _) =
        bind-ok (stop_if_expired env core storage ctx code expires) (after_first interval) w e in
      (u, o)

  awake-again :
      (interval i : ℕ) (w : World S)
      → (awake interval w).0 ≡ ok (again i)
      → (w.now < expires)
        × (w.now ≤ (awake interval w).1.now)
        × ((i ≡ interval) ⊎ (i ≡ slower interval))
  awake-again interval i w h =
      let (u, o, p) =
        bind-ok (stop_if_expired env core storage ctx code expires)
          (λ _. poll env core storage ctx code expires interval) w h in
      let (early, same) = stop_if_expired-ok w u o in
      let (later, next) = poll_again interval i w (rw same at h) in (early, rw same later, next)

  round_again :
      (interval i : ℕ) (w : World S)
      → IsInterval interval
      → (round env core storage ctx code expires interval w).0 ≡ ok (again i)
      → (w.now + second ≤ (round env core storage ctx code expires interval w).1.now)
        × (w.now + second < expires)
        × ((i ≡ interval) ⊎ (i ≡ slower interval))
  round_again interval i w h e =
      let (u, o) = round-stop interval w (again i) e in
      let (early, same) = stop_if_expired-ok w u o in
      let d = timer interval (until w.now expires) in
      let e1 = rw (round_eq interval w same) at e in
      let (v, slept, p) = bind-ok (sleep env ctx d) (λ _. awake interval) w e1 in
      let w1 = (sleep env ctx d w).1 in
      let (live, later, next) = awake-again interval i w1 (rw p at e1) in
      let passed = timer_lem interval w.now w1.now h early (sleep_lem d w v slept) live in
      rw (round_eq interval w same) (rw p (omega arith, omega arith, next))

  -- The interval stays a Duration for so many more rounds.
  abbrev IsIntervalFor : ℕ → ℕ → Type 0
  IsIntervalFor fuel interval = (second ≤ interval) × (interval + fuel * (5 * second) < 2 ^ 63)

  IsIntervalFor-next :
      (fuel interval i : ℕ)
      → IsIntervalFor (suc fuel) interval
      → (i ≡ interval) ⊎ (i ≡ slower interval)
      → IsIntervalFor fuel i
  IsIntervalFor-next fuel interval i h next = omega arith

  pub rounds-ne-none :
      (fuel interval : ℕ) (w : World S)
      → IsIntervalFor fuel interval
      → expires - w.now < fuel * second
      → (rounds env core storage ctx code expires fuel interval w).0 ≢ ok none
  unfolding rounds
  rounds-ne-none zero interval w h m e = absurd (omega arith)
  rounds-ne-none (suc fuel) interval w h m e =
      elim (Result-cases (round env core storage ctx code expires interval w).0) [
        | inr (x, r) ↦ cc (rw r at e)
        | inl (done tokens, r) ↦ cc (rw r at e)
        | inl (again i, r) ↦
            let (later, early, next) = round_again interval i w (omega arith) r in
            rounds-ne-none fuel i (round env core storage ctx code expires interval w).1
              (IsIntervalFor-next fuel interval i h next) (omega arith) (rw r at e)
      ]
