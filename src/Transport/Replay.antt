-- ===== src/Transport/Replay.antt =====
-- How often a request goes out under a bearer token.
use stripelink.Prelude.{
  String, not, ℕ, zero, suc, ◌+◌, ◌≤◌, ◌≡◌, On, false, List, Option, some, none, arith,
}
use stripelink.Prelude.Int.{not_positive}
use stripelink.Errors.{ok, err}
use stripelink.World.{Env, World, Context, nil_context, context, M, lift, post}
use stripelink.World.Rules.{
  bearers, SendsAtMost, SendsAtMost-bind, SendsAtMost-lift, SendsAtMost-if, SendsAtMost-weaken,
  SendsAtMost-guard,
}
use stripelink.Transport.{
  Core, ApiRequest, AccessTokenFunc, AccessTokenRequest, http_request, do_attempt, some_token,
  after_attempt, attempts, maximum_attempts, authenticated_engine, engine, perform,
}

-- A token source whose own requests, such as a refresh, carry no bearer token.
pub record IsUnauthenticated {S : Type 0} (source : AccessTokenFunc S) : Type 0 where
  pub at : (ctx : Context) (q : AccessTokenRequest) → SendsAtMost 0 (source ctx q)

module _ {S : Type 0} where
  after_attempt-SendsAtMost :
      (source : AccessTokenFunc S) (ctx : Context) (left : ℕ) (token : String)
      (next : String → M S (ℕ × List ℕ)) (r : ℕ × List ℕ)
      → IsUnauthenticated source
      → ((t : String) → SendsAtMost left (next t))
      → SendsAtMost left (after_attempt source ctx left token next r)
  unfolding after_attempt
  after_attempt-SendsAtMost source ctx left token next r h hn =
      SendsAtMost-if left _ _ _ (SendsAtMost-lift left (ok r)) (
        SendsAtMost-bind 0 left left _ _ (h.at ctx _)
          (λ refreshed.
            SendsAtMost-bind 0 left left (lift (some_token refreshed)) next (SendsAtMost-lift 0 _)
              hn (omega arith))
          (omega arith))

module _ {S : Type 0} (env : Env S) (core : Core S) where
  do_attempt-SendsAtMost :
      (req : ApiRequest) (token : String) → SendsAtMost 1 (do_attempt env core req token)
  unfolding do_attempt http_request
  do_attempt-SendsAtMost req token = record { at = λ w. ground arith }

  attempts-SendsAtMost :
      (source : AccessTokenFunc S) (ctx : Context) (req : ApiRequest) (left : ℕ) (token : String)
      → IsUnauthenticated source
      → SendsAtMost left (attempts env core source ctx req left token)
  unfolding attempts
  attempts-SendsAtMost source ctx req zero token h = record { at = λ w. omega arith }
  attempts-SendsAtMost source ctx req (suc left) token h =
      SendsAtMost-bind 1 left (suc left) (do_attempt env core req token) _
        (do_attempt-SendsAtMost req token)
        (λ r.
          after_attempt-SendsAtMost source ctx left token _ r h
            (λ t. attempts-SendsAtMost source ctx req left t h))
        (omega arith)

  authenticated_engine-SendsAtMost :
      (source : Option (AccessTokenFunc S)) (ctx : Context) (req : ApiRequest)
      → On IsUnauthenticated source
      → SendsAtMost (maximum_attempts req) (authenticated_engine env core source ctx req)
  unfolding authenticated_engine
  authenticated_engine-SendsAtMost none ctx req h = SendsAtMost-lift _ (err _)
  authenticated_engine-SendsAtMost (some source) ctx req h =
      let k = maximum_attempts req in
      SendsAtMost-bind 0 k k _ _ (h.at ctx _)
        (λ first.
          SendsAtMost-bind 0 k k (lift (some_token first)) _ (SendsAtMost-lift 0 _)
            (λ token. attempts-SendsAtMost source ctx req k token h) (omega arith))
        (omega arith)

  engine-SendsAtMost :
      (ctx : Context) (req : ApiRequest)
      → On IsUnauthenticated core.get_access_token
      → SendsAtMost (maximum_attempts req) (engine env core ctx req)
  unfolding engine
  engine-SendsAtMost ctx req h =
      SendsAtMost-if _ req.authenticated _ _
        (authenticated_engine-SendsAtMost core.get_access_token ctx req h)
        (SendsAtMost-weaken 1 _ _ (do_attempt-SendsAtMost req "") (ground arith))

  perform-SendsAtMost :
      (ctx : Context) (req : ApiRequest)
      → On IsUnauthenticated core.get_access_token
      → SendsAtMost (maximum_attempts req) (perform env core ctx req)
  unfolding perform
  perform-SendsAtMost nil_context req h = SendsAtMost-lift _ (err _)
  perform-SendsAtMost (context c) req h =
      let k = maximum_attempts req in
      SendsAtMost-guard k (not core.has_http_client) _ _ (
        SendsAtMost-guard k (not_positive core.max_response_body_bytes) _ _
          (engine-SendsAtMost (context c) req h))

  -- One call of the engine sends an authenticated request at most twice, and at most once unless it
  -- is a GET that asked for a retry, provided that the token source's own requests carry no bearer
  -- token: no POST is ever replayed.
  pub perform_replays :
      (ctx : Context) (req : ApiRequest) (w : World S)
      → On IsUnauthenticated core.get_access_token
      → let sent = (perform env core ctx req w).1.sent in
        (bearers sent ≤ bearers w.sent + 2)
        × (req.method ≡ post → bearers sent ≤ bearers w.sent + 1)
        × (req.retry_on_unauthorized ≡ false → bearers sent ≤ bearers w.sent + 1)
  perform_replays ctx req w h =
      let bound = (perform-SendsAtMost ctx req h).at w in
      let most : maximum_attempts req ≤ 2 = ground arith in
      let posts : req.method ≡ post → maximum_attempts req ≤ 1 = ground arith in
      let single : req.retry_on_unauthorized ≡ false → maximum_attempts req ≤ 1 = ground arith in
      (omega arith, λ p. omega (arith, posts p), λ n. omega (arith, single n))
