-- ===== src/Transport/Plain.antt =====
-- Requests without a bearer token: the engine makes one attempt, and leaves the store to the others.
use stripelink.Prelude.{◌≡◌, ap, false, not, if◌then◌else◌}
use stripelink.Prelude.Int.{not_positive, pos_part}
use stripelink.Errors.{err, invalid}
use stripelink.World.{Env, Context, nil_context, context, lift, exchange}
use stripelink.Storage.Idle.{Idle, Idle-bind, Idle-lift, Idle-guard, Idle-exchange}
use stripelink.Transport.{
  Core, ApiRequest, construction, http_request, receive, do_attempt, authenticated_engine, engine,
  perform,
}

module _ {S : Type 0} (env : Env S) (core : Core S) where
  pub engine-eq-do_attempt :
      (ctx : Context) (req : ApiRequest)
      → req.authenticated ≡ false
      → engine env core ctx req ≡ do_attempt env core req ""
  unfolding engine
  engine-eq-do_attempt ctx req e =
      ap
        (λ b.
          if b
          then authenticated_engine env core core.get_access_token ctx req
          else do_attempt env core req "")
        e

  do_attempt-Idle : (req : ApiRequest) → Idle env (do_attempt env core req "")
  unfolding do_attempt
  do_attempt-Idle req =
      Idle-bind env (lift (construction (env.construct (http_request req "")))) _ (Idle-lift env _)
        λ _.
          Idle-bind env (exchange env (http_request req "")) _ (Idle-exchange env _)
            λ x. Idle-lift env (receive req (pos_part core.max_response_body_bytes) x)

  pub perform-Idle :
      (ctx : Context) (req : ApiRequest)
      → req.authenticated ≡ false
      → Idle env (perform env core ctx req)
  unfolding perform
  perform-Idle nil_context req e = Idle-lift env (err (invalid "context must not be nil"))
  perform-Idle (context c) req e = Idle-guard env (not core.has_http_client) _ _ (
      Idle-guard env (not_positive core.max_response_body_bytes) _ _
        (rw (engine-eq-do_attempt (context c) req e) (do_attempt-Idle req)))
