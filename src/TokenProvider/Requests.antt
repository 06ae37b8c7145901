-- ===== src/TokenProvider/Requests.antt =====
-- When the token source refreshes, and what its requests carry.
use stripelink.Prelude.{
  ℕ, ◌+◌, ◌*◌, ◌≤◌, String, ◌≡◌, ◌≢◌, ◌⊎◌, inl, inr, refl, true, false, Option, none, some, List,
  not, is_blank, eq_iff, arith,
}
use stripelink.Prelude.Int.{pos_part, not_positive}
use stripelink.Errors.{Err, wrap, ok, err, Result-cases}
use stripelink.World.{
  Env, Context, nil_context, context, M, lift, map_err, time_now, context_failure,
}
use stripelink.World.Rules.{
  SendsAtMost, SendsAtMost-bind, SendsAtMost-lift, SendsAtMost-if, SendsAtMost-guard,
}
use stripelink.Transport.{
  Core, ApiRequest, AccessTokenRequest, do_attempt, http_request, engine, perform,
}
use stripelink.Transport.Replay.{IsUnauthenticated}
use stripelink.Session.{AuthTokens}
use stripelink.Storage.{Storage, Update, lock, lock-Waited}
use stripelink.Auth.Wire.{is_success}
use stripelink.Auth.Tokens.{form_request, post_form, refresh_token}
use stripelink.TokenProvider.{
  token_expiry_skew, token_needs_refresh, Decision, keep, refresh, decide, loaded_state, rotate,
  detached_auth_context, salvage, persist_refreshed, run_refresh, wait_for_refresh, act, token,
}

-- The source refreshes only tokens that it can: the stored ones, with a refresh token. A forced
-- refresh is for the token that was rejected, if one is named; one that is not forced is for tokens
-- that expire within a minute.
pub decide-refresh :
    (now : ℕ) (q : AccessTokenRequest) (stored : Option AuthTokens) (source : AuthTokens)
    → decide now q stored ≡ ok (refresh source)
    → (stored ≡ some source)
      × (source.access_token ≢ "")
      × (source.refresh_token ≢ "")
      × (q.force_refresh ≡ true
          → (q.rejected_token ≡ "") ⊎ (q.rejected_token ≡ source.access_token))
      × (q.force_refresh ≡ false → pos_part source.expires_at * 1000000 ≤ now + token_expiry_skew)
unfolding decide token_needs_refresh
decide-refresh now q none source h = ground arith
decide-refresh now q (some a) source h = ground (
  arith,
  eq_iff a.access_token "",
  eq_iff a.refresh_token "",
  eq_iff q.rejected_token "",
  eq_iff q.rejected_token a.access_token,
)

module _ {S : Type 0} (env : Env S) (core : Core S) where
  perform-unauthenticated :
      (ctx : Context) (req : ApiRequest)
      → req.authenticated ≡ false
      → SendsAtMost 0 (perform env core ctx req)
  unfolding perform engine do_attempt http_request
  perform-unauthenticated nil_context req h = SendsAtMost-lift _ (err _)
  perform-unauthenticated (context c) req h = SendsAtMost-guard 0 (not core.has_http_client) _ _ (
      SendsAtMost-guard 0 (not_positive core.max_response_body_bytes) _ _
        (record { at = λ w. ground arith }))

  context_failure-SendsAtMost : (ctx : Context) → SendsAtMost {S = S} 0 (context_failure ctx)
  context_failure-SendsAtMost ctx = record { at = λ w. omega arith }

  post_form-SendsAtMost :
      (ctx : Context) (path : String) (values : List (String × String))
      → SendsAtMost 0 (post_form env core ctx path values)
  unfolding post_form
  post_form-SendsAtMost ctx path values =
      SendsAtMost-bind 0 0 0 (context_failure ctx) _ (context_failure-SendsAtMost ctx)
        (λ _.
          SendsAtMost-bind 0 0 0 (perform env core ctx (form_request core path values)) _
            (perform-unauthenticated ctx (form_request core path values) refl)
            (λ r. SendsAtMost-lift 0 (ok _)) (omega arith))
        (omega arith)

  map_err-SendsAtMost :
      {A : Type 0} (k : ℕ) (f : Err → Err) (m : M S A)
      → SendsAtMost k m
      → SendsAtMost k (map_err f m)
  map_err-SendsAtMost k f m h = record { at = λ w. h.at w }

  refresh_token-SendsAtMost :
      (ctx : Context) (t : String) → SendsAtMost 0 (refresh_token env core ctx t)
  unfolding refresh_token
  refresh_token-SendsAtMost ctx t =
      SendsAtMost-bind 0 0 0 (context_failure ctx) _ (context_failure-SendsAtMost ctx)
        (λ _. SendsAtMost-guard 0 (is_blank t) _ _ (
          SendsAtMost-bind 0 0 0 (post_form env core ctx "/device/token" _) _
            (post_form-SendsAtMost ctx _ _)
            (λ r. SendsAtMost-guard 0 (not (is_success r.status)) _ _ (
              SendsAtMost-bind 0 0 0 time_now _ (record { at = λ w. omega arith })
                (λ now. map_err-SendsAtMost 0 _ _ (SendsAtMost-lift 0 _)) (omega arith)))
            (omega arith)))
        (omega arith)

module _ {S : Type 0} (env : Env S) (core : Core S) (storage : Storage env) where
  transact-SendsAtMost :
      {B : Type 0} (ctx : Context) (u : Update B) → SendsAtMost 0 (storage.transact ctx u)
  transact-SendsAtMost ctx u = record {
    at = λ w. let q = (storage.transact-Transacted ctx u w).quiet.sent in rw q (omega arith);
  }

  load-SendsAtMost : (ctx : Context) → SendsAtMost 0 (storage.load ctx)
  load-SendsAtMost ctx = record {
    at = λ w. let q = (storage.load-Loaded ctx w).quiet.sent in rw q (omega arith);
  }

  salvage-SendsAtMost :
      (ctx : Context) (source : AuthTokens) (e : Err)
      → SendsAtMost 0 (salvage env core storage ctx source e)
  salvage-SendsAtMost ctx source e = record { at = λ w. (load-SendsAtMost ctx).at w }

  persist_refreshed-SendsAtMost :
      (source refreshed : AuthTokens)
      → SendsAtMost 0 (persist_refreshed env core storage source refreshed)
  persist_refreshed-SendsAtMost source refreshed =
      SendsAtMost-if 0 _ _ _ (SendsAtMost-lift 0 (err _)) (
        SendsAtMost-bind 0 0 0 time_now _ (record { at = λ w. omega arith })
          (λ start.
            map_err-SendsAtMost env core 0 _ _
              (transact-SendsAtMost (detached_auth_context start) (rotate source refreshed)))
          (omega arith))

  run_refresh-SendsAtMost :
      (ctx : Context) (source : AuthTokens)
      → SendsAtMost 0 (run_refresh env core storage ctx source)
  unfolding run_refresh
  run_refresh-SendsAtMost ctx source = record {
    at = λ w.
        let first = (refresh_token-SendsAtMost env core ctx source.refresh_token).at w in
        let o = refresh_token env core ctx source.refresh_token w in
        elim (Result-cases o.0) [
          | inl (a, e) ↦
              rw e (omega (arith, first, (persist_refreshed-SendsAtMost source a).at o.1))
          | inr (x, e) ↦ rw e (omega (arith, first, (salvage-SendsAtMost ctx source x).at o.1))
        ];
  }

  wait_for_refresh-SendsAtMost :
      (ctx : Context) (call : M S AuthTokens)
      → SendsAtMost 0 call
      → SendsAtMost 0 (wait_for_refresh env core storage ctx call)
  unfolding wait_for_refresh
  wait_for_refresh-SendsAtMost ctx call h = record { at = λ w. h.at w }

  act-SendsAtMost : (ctx : Context) (d : Decision) → SendsAtMost 0 (act env core storage ctx d)
  act-SendsAtMost ctx (keep t) = SendsAtMost-lift 0 (ok t)
  act-SendsAtMost ctx (refresh source) =
      SendsAtMost-bind 0 0 0 time_now _ (record { at = λ w. omega arith })
        (λ start.
          wait_for_refresh-SendsAtMost ctx _
            (run_refresh-SendsAtMost (detached_auth_context start) source))
        (omega arith)

  -- The source's own requests carry no bearer token, whatever it decides: it is a source that the
  -- engine may ask in the middle of a request.
  pub token-IsUnauthenticated : IsUnauthenticated (token env core storage)
  unfolding token
  token-IsUnauthenticated = record {
    at = λ ctx q.
        SendsAtMost-bind 0 0 0 (context_failure ctx) _ (context_failure-SendsAtMost env core ctx)
          (λ _.
            SendsAtMost-bind 0 0 0 (lock env ctx) _
              (record {
                at = λ w. let sent = (lock-Waited env ctx w).quiet.sent in rw sent (omega arith);
              })
              (λ _.
                SendsAtMost-bind 0 0 0 (map_err (wrap "load authentication") (storage.load ctx)) _
                  (map_err-SendsAtMost env core 0 _ _ (load-SendsAtMost ctx))
                  (λ state.
                    SendsAtMost-bind 0 0 0 (lift (loaded_state state)) _ (SendsAtMost-lift 0 _)
                      (λ stored.
                        SendsAtMost-bind 0 0 0 time_now _ (record { at = λ w. omega arith })
                          (λ now.
                            SendsAtMost-bind 0 0 0 (lift (decide now q stored.auth)) _
                              (SendsAtMost-lift 0 _) (λ d. act-SendsAtMost ctx d) (omega arith))
                          (omega arith))
                      (omega arith))
                  (omega arith))
              (omega arith))
          (omega arith);
  }
