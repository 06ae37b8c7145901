-- ===== src/Auth/Device/Commit.antt =====
-- What a device authorization writes, and when it refuses to.
use stripelink.Prelude.{
  ℕ, String, List, ◌≡◌, refl, is_blank, subst, inl, inr, true, Option, none, some, arith,
}
use stripelink.Errors.{Err, invalid, ok, Result-cases}
use stripelink.World.{Env, World, Context, context_failure, raise_if}
use stripelink.Storage.Idle.{
  Idle, Idle-bind, Idle-lift, Idle-raise_if, Idle-context_failure, Since, Since-bind, Since-raise,
  Since-if,
}
use stripelink.Storage.Waits.{Others-trans}
use stripelink.Transport.{Core, perform}
use stripelink.Transport.Plain.{perform-Idle}
use stripelink.Session.{
  AuthTokens, PendingDeviceAuth, AuthStorageState, next_generation, same_auth_tokens, unix_milli,
}
use stripelink.Session.Prepared.{IsPreparedAuth, prepare_storage_snapshot_again}
use stripelink.Storage.{Storage, Others, here, Committed, transact-Committed}
use stripelink.Auth.Wire.{FormResponse, decode_auth_tokens, is_success}
use stripelink.Auth.Wire.Decode.{decode_auth_tokens_lem}
use stripelink.Auth.Tokens.{form_request, post_form}
use stripelink.Auth.Device.{
  is_pending, persist, commit, abandon, accept_poll, poll_values, clear_terminal_pending,
  refuse_poll, poll_device_auth_once,
}

commit_lem :
    (code : String) (tokens : AuthTokens) (now : ℕ) (s t : AuthStorageState) (u : Unit {0})
    → commit code tokens now s ≡ ok (t, u)
    → (is_pending code s.pending_device_auth ≡ true)
      × (t.auth ≡ some tokens)
      × (t.pending_device_auth ≡ none)
      × (t.device_auth_generation ≡ next_generation s.device_auth_generation)
unfolding commit
commit_lem code tokens now s t u h = ground arith

pub persist_lem :
    (g : ℕ) (previous : Option AuthTokens) (p : PendingDeviceAuth) (now : ℕ)
    (s t : AuthStorageState) (u : Unit {0})
    → persist g previous p now s ≡ ok (t, u)
    → (s.device_auth_generation ≡ g)
      × (same_auth_tokens s.auth previous ≡ true)
      × (t.auth ≡ s.auth)
      × (t.pending_device_auth ≡ some p)
      × (t.device_auth_generation ≡ g)
unfolding persist
persist_lem g previous p now s t u h = ground arith

module _ {S : Type 0} (env : Env S) (core : Core S) where
  pub post_form-Idle :
      (ctx : Context) (path : String) (values : List (String × String))
      → Idle env (post_form env core ctx path values)
  unfolding post_form
  post_form-Idle ctx path values =
      Idle-bind env (context_failure ctx) _ (Idle-context_failure env ctx) λ _.
        Idle-bind env (perform env core ctx (form_request core path values)) _
          (perform-Idle env core ctx _ refl) λ r. Idle-lift env (ok _)

module _ {S : Type 0} {env : Env S} (storage : Storage env) (s : S) (before : List ℕ) where
  -- How a login that began over the store `s` leaves it: what the others had made of `s`, by all that
  -- they have done since, still waited for this device code; now the tokens are in its place, under a
  -- new generation.
  pub record LoggedIn (code : String) (tokens : AuthTokens) (w' : World S) : Type 0 where
    pub met : S
    pub left : Others env s before met w'.turns
    pub waiting : is_pending code (storage.view met).pending_device_auth ≡ true
    pub usable : IsPreparedAuth tokens
    pub stored : storage.view w'.store ≡ record {
      auth = some tokens;
      pending_device_auth = none;
      device_auth_generation = next_generation (storage.view met).device_auth_generation;
    }

module _ {S : Type 0} (env : Env S) (core : Core S) (storage : Storage env) (s : S)
    (before : List ℕ) where
  commit-LoggedIn :
      (code : String) (tokens : AuthTokens) (w : World S) (u : Unit {0}) (w' : World S)
      → IsPreparedAuth tokens
      → Others env s before w.store w.turns
      → Committed storage (commit code tokens) w u w'
      → LoggedIn storage s before code tokens w'
  commit-LoggedIn code tokens w u w' usable since c =
      let (waiting, a, p, g) =
        commit_lem code tokens c.time (storage.view c.mid) c.new u c.called in
      let again =
        prepare_storage_snapshot_again (unix_milli c.time) c.new
          (record { auth = rw a usable; pending = rw p tt }) in
      record {
        met = c.mid;
        left = Others-trans since c.reached;
        waiting = waiting;
        usable = usable;
        stored = ground (arith, c.stored, c.fit, again, a, p, g);
      }

  accept_poll-LoggedIn :
      (ctx : Context) (code : String) (r : FormResponse)
      → Since env s before
          (LoggedIn storage s before code)
          (accept_poll env core storage ctx code r)
  unfolding accept_poll
  accept_poll-LoggedIn ctx code r = record {
    at = λ w tokens since h. elim (Result-cases (decode_auth_tokens env.parse_json w.now r.body)) [
      | inr (e, bad) ↦ absurd (cc (rw bad at h))
      | inl (t, good) ↦
          let done = storage.transact ctx (commit code t) w in
          elim (Result-cases done.0) [
            | inr (e, failed) ↦ absurd (cc (rw (good, failed) at h))
            | inl (u, kept) ↦
                let same : t ≡ tokens = ground (arith, rw (good, kept) at h) in
                let (usable, _, _) = decode_auth_tokens_lem env.parse_json w.now r.body t good in
                rw (good, kept)
                  (subst (λ x. LoggedIn storage s before code x done.1) same
                    (commit-LoggedIn code t w u done.1 usable since
                      (transact-Committed storage ctx (commit code t) w u kept)))
          ]
    ];
  }

  clear_terminal_pending-err :
      {A : Type 0} {Q : A → World S → Type 0} (ctx : Context) (code : String) (e : Err)
      → Since env s before Q (clear_terminal_pending env core storage ctx code e)
  unfolding clear_terminal_pending
  clear_terminal_pending-err ctx code e = record {
    at = λ w a since h. elim (Result-cases (storage.transact ctx (abandon code) w).0) [
      | inl (_, r) ↦ absurd (cc (rw r at h))
      | inr (_, r) ↦ absurd (cc (rw r at h))
    ];
  }

  refuse_poll-err :
      {Q : AuthTokens → World S → Type 0} (ctx : Context) (code : String) (r : FormResponse)
      → Since env s before Q (refuse_poll env core storage ctx code r)
  unfolding refuse_poll
  refuse_poll-err ctx code r = search (Since-if, Since-raise, clear_terminal_pending-err) depth 8

module _ {S : Type 0} (env : Env S) (core : Core S) (storage : Storage env) where
  -- A poll that returns tokens has logged in: the state that its transaction met, which is what the
  -- others have made of the store by all that they did during the poll, still waited for this device
  -- code, and the store now has exactly these tokens, complete and with an expiry, and no pending flow.
  pub poll_device_auth_once-LoggedIn :
      (ctx : Context) (code : String) (w : World S) (tokens : AuthTokens)
      → let o = poll_device_auth_once env core storage ctx code w in
        o.0 ≡ ok tokens → LoggedIn storage w.store w.turns code tokens o.1
  unfolding poll_device_auth_once
  poll_device_auth_once-LoggedIn ctx code w tokens h =
      (Since-bind (context_failure ctx) _ (Idle-context_failure env ctx) λ _.
          Since-bind (raise_if (is_blank code) (invalid "device code must not be empty")) _
            (Idle-raise_if env _ _)
            λ _.
              Since-bind (post_form env core ctx "/device/token" (poll_values code)) _
                (post_form-Idle env core ctx _ _)
                λ r.
                  Since-if (is_success r.status) _ _
                    (accept_poll-LoggedIn env core storage w.store w.turns ctx code r)
                    (refuse_poll-err env core storage w.store w.turns ctx code r)).at
        w tokens here h
