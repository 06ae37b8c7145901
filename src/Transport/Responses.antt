-- ===== src/Transport/Responses.antt =====
-- What the engine lets through: bounded bodies, and never a redirect.
use stripelink.Prelude.{
  String, ℕ, zero, suc, ◌≤◌, ◌≡◌, inl, inr, true, false, List, [], some, none, arith, length,
  Option, not,
}
use stripelink.Prelude.Int.{pos_part, not_positive}
use stripelink.Errors.{ok, Result-cases}
use stripelink.World.{
  Env, World, Context, nil_context, context, M, lift, raise_if, exchange, Stream, Exchange, failed,
  answered,
}
use stripelink.World.Rules.{
  Returns, Returns-bind, Returns-bind-returned, Returns-pure, Returns-lift, Returns-raise,
  Returns-if,
}
use stripelink.Transport.{
  Core, ApiRequest, AccessTokenFunc, is_redirect, construction, http_request, read_bounded, receive,
  do_attempt, some_token, after_attempt, attempts, maximum_attempts, authenticated_engine, engine,
  perform,
}

-- A body within the bound, under a status that is no redirect.
abbrev pub Fits : ℕ → ℕ × List ℕ → Type 0
Fits maximum (status, body) = (length body ≤ maximum) × (is_redirect status ≡ false)

read_bounded_lem :
    (s : Option Stream) (maximum : ℕ) (b : List ℕ)
    → read_bounded s maximum ≡ ok b
    → length b ≤ maximum
unfolding read_bounded
read_bounded_lem s maximum b h = ground arith

receive-Fits :
    (req : ApiRequest) (maximum : ℕ) (x : Exchange) (r : ℕ × List ℕ)
    → receive req maximum x ≡ ok r
    → Fits maximum r
unfolding receive
receive-Fits req maximum (failed e) r h = cc
receive-Fits req maximum (answered status body) r h =
    elim (Result-cases (read_bounded body maximum)) [
      | inr (e, g) ↦ cc (g, h)
      | inl (b, g) ↦ ground (arith, read_bounded_lem body maximum b g)
    ]

module _ {S : Type 0} (env : Env S) (core : Core S) where
  open core use {max_response_body_bytes}

  abbrev Fit : ℕ × List ℕ → Type 0
  Fit = Fits (pos_part max_response_body_bytes)

  do_attempt-Fits :
      (req : ApiRequest) (token : String) → Returns Fit (do_attempt env core req token)
  unfolding do_attempt
  do_attempt-Fits req token =
      Returns-bind (lift (construction (env.construct (http_request req token)))) _ λ _.
        Returns-bind (exchange env (http_request req token)) _
          λ x. Returns-lift (receive req _ x) (receive-Fits req _ x)

  after_attempt-Fits :
      (source : AccessTokenFunc S) (ctx : Context) (left : ℕ) (token : String)
      (next : String → M S (ℕ × List ℕ)) (r : ℕ × List ℕ)
      → Fit r
      → ((t : String) → Returns Fit (next t))
      → Returns Fit (after_attempt source ctx left token next r)
  unfolding after_attempt
  after_attempt-Fits source ctx left token next r fits hn = Returns-if _ _ _ (Returns-pure r fits) (
      Returns-bind (source ctx (record { force_refresh = true; rejected_token = token })) _
        λ refreshed. Returns-bind (lift (some_token refreshed)) next hn)

  attempts-Fits :
      (source : AccessTokenFunc S) (ctx : Context) (req : ApiRequest) (left : ℕ) (token : String)
      → Returns Fit (attempts env core source ctx req left token)
  unfolding attempts
  attempts-Fits source ctx req zero token = Returns-pure (0, []) (ground arith)
  attempts-Fits source ctx req (suc left) token =
      Returns-bind-returned (do_attempt env core req token) _ (do_attempt-Fits req token) λ r fits.
        after_attempt-Fits source ctx left token _ r fits (attempts-Fits source ctx req left)

  authenticated_engine-Fits :
      (source : Option (AccessTokenFunc S)) (ctx : Context) (req : ApiRequest)
      → Returns Fit (authenticated_engine env core source ctx req)
  unfolding authenticated_engine
  authenticated_engine-Fits none ctx req = Returns-raise _
  authenticated_engine-Fits (some source) ctx req =
      Returns-bind (source ctx (record { force_refresh = false; rejected_token = "" })) _ λ first.
        Returns-bind (lift (some_token first)) _
          λ token. attempts-Fits source ctx req (maximum_attempts req) token

  engine-Fits : (ctx : Context) (req : ApiRequest) → Returns Fit (engine env core ctx req)
  unfolding engine
  engine-Fits ctx req =
      Returns-if req.authenticated _ _ (authenticated_engine-Fits core.get_access_token ctx req)
        (do_attempt-Fits req "")

  -- Whatever the server and the token source do, a call of the engine that returns has a body of at
  -- most the configured number of bytes, and a status that is no redirect.
  pub perform-Fits :
      (ctx : Context) (req : ApiRequest) (w : World S) (status : ℕ) (body : List ℕ)
      → (perform env core ctx req w).0 ≡ ok (status, body)
      → (length body ≤ pos_part core.max_response_body_bytes) × (is_redirect status ≡ false)
  unfolding perform
  perform-Fits nil_context req w status body h = cc
  perform-Fits (context c) req w status body h =
      (Returns-bind (raise_if (not core.has_http_client) _) _ λ _.
          Returns-bind (raise_if (not_positive max_response_body_bytes) _) _
            λ _. engine-Fits (context c) req).at
        w (status, body) h
