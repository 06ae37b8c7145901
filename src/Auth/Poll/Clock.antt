-- ===== src/Auth/Poll/Clock.antt =====
-- A poll takes no negative time.
use stripelink.Prelude.{◌≡◌, String, refl, false, List, is_blank, arith, not}
use stripelink.Prelude.Int.{not_positive, pos_part}
use stripelink.Errors.{Err, ok, err, wrap, invalid}
use stripelink.World.{
  Env, Context, nil_context, context, M, lift, map_err, time_now, exchange, context_failure, raise,
}
use stripelink.World.Clock.{
  KeepsTime, KeepsTime-lift, KeepsTime-if, KeepsTime-map_err, KeepsTime-guard, KeepsTime-bind,
  KeepsTime-context_failure, KeepsTime-exchange,
}
use stripelink.Transport.{
  Core, ApiRequest, construction, http_request, receive, do_attempt, perform,
}
use stripelink.Transport.Plain.{engine-eq-do_attempt}
use stripelink.Storage.{Storage, Update}
use stripelink.Auth.Wire.{FormResponse, decode_auth_tokens, is_success}
use stripelink.Auth.Tokens.{form_request, post_form}
use stripelink.Auth.Device.{
  commit, poll_values, clear_terminal_pending, refuse_poll, accept_poll, poll_device_auth_once,
}

module _ {S : Type 0} (env : Env S) (core : Core S) where
  do_attempt-KeepsTime :
      (req : ApiRequest) (token : String) → KeepsTime (do_attempt env core req token)
  unfolding do_attempt
  do_attempt-KeepsTime req token =
      KeepsTime-bind (lift (construction (env.construct (http_request req token)))) _
        (KeepsTime-lift (construction (env.construct (http_request req token))))
        λ _.
          KeepsTime-bind (exchange env (http_request req token)) _ (KeepsTime-exchange env _)
            λ x. KeepsTime-lift (receive req (pos_part core.max_response_body_bytes) x)

  perform-KeepsTime :
      (ctx : Context) (req : ApiRequest)
      → req.authenticated ≡ false
      → KeepsTime (perform env core ctx req)
  unfolding perform
  perform-KeepsTime nil_context req e = KeepsTime-lift (err (invalid "context must not be nil"))
  perform-KeepsTime (context c) req e = KeepsTime-guard (not core.has_http_client) _ _ (
      KeepsTime-guard (not_positive core.max_response_body_bytes) _ _
        (rw (engine-eq-do_attempt env core (context c) req e) (do_attempt-KeepsTime req "")))

  post_form-KeepsTime :
      (ctx : Context) (path : String) (values : List (String × String))
      → KeepsTime (post_form env core ctx path values)
  unfolding post_form
  post_form-KeepsTime ctx path values =
      KeepsTime-bind (context_failure ctx) _ (KeepsTime-context_failure ctx) λ _.
        KeepsTime-bind (perform env core ctx (form_request core path values)) _
          (perform-KeepsTime ctx _ refl) λ r. KeepsTime-lift (ok _)

module _ {S : Type 0} (env : Env S) (core : Core S) (storage : Storage env) where
  transact-KeepsTime :
      {B : Type 0} (ctx : Context) (update : Update B) → KeepsTime (storage.transact ctx update)
  transact-KeepsTime ctx update = record {
    at = λ w. (storage.transact-Transacted ctx update w).quiet.clock;
  }

  clear_terminal_pending-KeepsTime :
      {A : Type 0} (ctx : Context) (code : String) (e : Err)
      → KeepsTime (let m : M S A = clear_terminal_pending env core storage ctx code e in m)
  unfolding clear_terminal_pending
  clear_terminal_pending-KeepsTime ctx code e = record { at = (transact-KeepsTime ctx _).at }

  accept_poll-KeepsTime :
      (ctx : Context) (code : String) (r : FormResponse)
      → KeepsTime (accept_poll env core storage ctx code r)
  unfolding accept_poll
  accept_poll-KeepsTime ctx code r =
      KeepsTime-bind time_now _ (record { at = λ w. omega arith })
        λ now.
          KeepsTime-bind
            (map_err (wrap "decode device token response")
              (lift (decode_auth_tokens env.parse_json now r.body)))
            _ (KeepsTime-map_err _ _ (KeepsTime-lift _))
            λ tokens.
              KeepsTime-bind
                (map_err (wrap "commit device authorization")
                  (storage.transact ctx (commit code tokens)))
                _ (KeepsTime-map_err _ _ (transact-KeepsTime ctx _)) λ _. KeepsTime-lift (ok tokens)

  raise-KeepsTime : {A : Type 0} (e : Err) → KeepsTime {S = S} {A = A} (raise e)
  raise-KeepsTime e = KeepsTime-lift (err e)

  refuse_poll-KeepsTime :
      (ctx : Context) (code : String) (r : FormResponse)
      → KeepsTime (refuse_poll env core storage ctx code r)
  unfolding refuse_poll
  refuse_poll-KeepsTime ctx code r =
      search (KeepsTime-if, raise-KeepsTime, clear_terminal_pending-KeepsTime) depth 8

  pub poll_device_auth_once-KeepsTime :
      (ctx : Context) (code : String) → KeepsTime (poll_device_auth_once env core storage ctx code)
  unfolding poll_device_auth_once
  poll_device_auth_once-KeepsTime ctx code =
      KeepsTime-bind (context_failure ctx) _ (KeepsTime-context_failure ctx) λ _.
        KeepsTime-guard (is_blank code) _ _ (
          KeepsTime-bind (post_form env core ctx "/device/token" (poll_values code)) _
            (post_form-KeepsTime env core ctx "/device/token" (poll_values code))
            λ r.
              KeepsTime-if (is_success r.status) _ _ (accept_poll-KeepsTime ctx code r)
                (refuse_poll-KeepsTime ctx code r))
