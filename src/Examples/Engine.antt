-- ===== src/Examples/Engine.antt =====
-- The theorems on the request engine at concrete inputs.
use stripelink.Prelude.{◌+◌, ◌≤◌, ◌≡◌, refl, true, false, On, [], ◌∷◌, arith}
use stripelink.Prelude.Int.{pos_part}
use stripelink.World.{answered, get, post, no_body}
use stripelink.World.Rules.{bearers}
use stripelink.Transport.{
  ApiRequest, is_redirect, perform, engine, authenticated_engine, attempts, after_attempt,
  do_attempt, http_request, receive, read_bounded, some_token,
}
use stripelink.Transport.Replay.{IsUnauthenticated, perform_replays}
use stripelink.Transport.Responses.{perform-Fits}
use stripelink.Examples.{live, env, core, world, empty_store, body}

abbrev request : ApiRequest
request = record {
  method = get;
  url = "https://api.link.com/userinfo";
  header = [];
  body = no_body;
  authenticated = true;
  retry_on_unauthorized = true;
}

perform-Fits_example : (1 ≤ pos_part core.max_response_body_bytes) × (is_redirect 200 ≡ false)
unfolding perform engine authenticated_engine attempts after_attempt do_attempt http_request receive
    read_bounded some_token
perform-Fits_example =
    perform-Fits (env (answered 200 (body 1))) core live request (world empty_store) 200 (1 ∷ [])
      refl

core-IsUnauthenticated : On IsUnauthenticated core.get_access_token
core-IsUnauthenticated = record { at = λ ctx q. record { at = λ w. omega arith } }

-- Two attempts are made here: the server answers 401.
perform_replays_example :
    let sent =
      (perform (env (answered 401 (body 1))) core live request (world empty_store)).1.sent in
    (bearers sent ≤ 0 + 2)
    × (get ≡ post → bearers sent ≤ 0 + 1)
    × (true ≡ false → bearers sent ≤ 0 + 1)
perform_replays_example =
    perform_replays (env (answered 401 (body 1))) core live request (world empty_store)
      core-IsUnauthenticated

two_attempts :
    bearers (perform (env (answered 401 (body 1))) core live request (world empty_store)).1.sent ≡ 2
unfolding perform engine authenticated_engine attempts after_attempt do_attempt http_request receive
    read_bounded some_token
two_attempts = refl
