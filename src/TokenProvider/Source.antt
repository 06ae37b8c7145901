-- ===== src/TokenProvider/Source.antt =====
-- The token source's own requests ask for no token: what source the core has does not matter to it.
use mathlib.Core.Path.{fun_ext}
use stripelink.Prelude.{String, List, ◌≡◌, refl, ap, Option}
use stripelink.World.{Env, Context, M, nil_context, context}
use stripelink.Transport.{AccessTokenFunc, Core, do_attempt, engine, perform}
use stripelink.Session.{AuthTokens}
use stripelink.Storage.{Storage}
use stripelink.Auth.Tokens.{form_request, post_form, refresh_token}
use stripelink.TokenProvider.{Decision, keep, refresh, run_refresh, wait_for_refresh, act, token}

module _ {S : Type 0} (env : Env S) (core : Core S) (get : Option (AccessTokenFunc S)) where
  -- The core with another token source.
  abbrev other : Core S
  other = record core { get_access_token = get }

  perform-other :
      (ctx : Context) (path : String) (values : List (String × String))
      → perform env other ctx (form_request core path values)
        ≡ perform env core ctx (form_request core path values)
  unfolding perform engine do_attempt
  perform-other nil_context path values = refl
  perform-other (context c) path values = refl

  post_form-other :
      (ctx : Context) (path : String) (values : List (String × String))
      → post_form env other ctx path values ≡ post_form env core ctx path values
  unfolding post_form
  post_form-other ctx path values = rw (perform-other ctx path values) refl

  refresh_token-other :
      (ctx : Context) (t : String) → refresh_token env other ctx t ≡ refresh_token env core ctx t
  unfolding refresh_token
  refresh_token-other ctx t = rw (post_form-other ctx "/device/token" _) refl

  module _ (storage : Storage env) where
    run_refresh-other : run_refresh env other storage ≡ run_refresh env core storage
    unfolding run_refresh
    run_refresh-other = fun_ext λ ctx. fun_ext λ source. fun_ext λ w.
        rw (ap (λ (m : M S AuthTokens). m w) (refresh_token-other ctx source.refresh_token)) refl

    act-other : act env other storage ≡ act env core storage
    unfolding wait_for_refresh
    act-other = fun_ext (λ ctx. fun_ext (λ d. go ctx d))
      where
        go :
            (ctx : Context) (d : Decision)
            → act env other storage ctx d ≡ act env core storage ctx d
        go ctx (keep t) = refl
        go ctx (refresh source) = rw run_refresh-other refl

    pub token-other : token env other storage ≡ token env core storage
    unfolding token
    token-other = fun_ext (λ ctx. fun_ext (λ q. rw act-other refl))
