-- ===== src/Auth/Logout.antt =====
-- What a logout leaves behind.
use stripelink.Prelude.{◌*◌, ◌≡◌, inl, inr, not, none, ◌==◌}
use stripelink.Errors.{sentinel, wrap, invalid, not_authenticated, ok}
use stripelink.World.{Env, World, Context, context_failure, raise_if, map_err, time_now, detached}
use stripelink.World.Rules.{Ensures, Ensures-bind, Ensures-map_err}
use stripelink.Transport.{Core}
use stripelink.Storage.{Storage}
use stripelink.Auth.Wire.{second}
use stripelink.Auth.Tokens.{stored_refresh_token, attempt, revoke_token, logout}

module _ {S : Type 0} (env : Env S) (core : Core S) (storage : Storage env) where
  abbrev SignedOut : World S → Type 0
  SignedOut w =
      ((storage.view w.store).auth ≡ none) × ((storage.view w.store).pending_device_auth ≡ none)

  clear-SignedOut : (ctx : Context) → Ensures (λ _. SignedOut) (storage.clear ctx)
  clear-SignedOut ctx = record {
    at = λ w u h. elim (storage.clear-Cleared ctx w).cleared [
      | inl gone ↦ gone
      | inr (_, (e, failed)) ↦ absurd (cc (failed, h))
    ];
  }

  -- A logout that succeeds leaves no credentials and no pending flow in the store, whichever store
  -- it is.
  pub logout-SignedOut :
      (ctx : Context) (w : World S)
      → (logout env core storage ctx w).0 ≡ ok tt
      → ((storage.view (logout env core storage ctx w).1.store).auth ≡ none)
        × ((storage.view (logout env core storage ctx w).1.store).pending_device_auth ≡ none)
  unfolding logout
  logout-SignedOut ctx w h =
      (Ensures-bind {Q = λ (_ : Unit {0}). SignedOut} (context_failure ctx) _ λ _.
          Ensures-bind
            (raise_if (not core.manages_session)
              (invalid "logout is unavailable for caller-owned tokens"))
            _
            λ _.
              Ensures-bind (map_err (wrap "load authentication for logout") (storage.load ctx)) _
                λ state.
                  Ensures-bind
                    (raise_if (stored_refresh_token state == "") (sentinel not_authenticated)) _
                    λ _.
                      Ensures-bind
                        (attempt (revoke_token env core ctx (stored_refresh_token state))) _
                        λ _. Ensures-bind time_now _ λ start.
                          Ensures-map_err (wrap "clear revoked authentication")
                            (storage.clear (detached start (30 * second)))
                            (clear-SignedOut (detached start (30 * second)))).at
        w tt h
