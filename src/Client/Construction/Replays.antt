-- ===== src/Client/Construction/Replays.antt =====
-- How often the requests of a client that NewClient returns go out.
use stripelink.Prelude.{
  String, ◌≡◌, ◌≤◌, ◌+◌, sym, subst, Bool-cases, inl, inr, false, ◌==◌, eq_iff, none, On, arith,
}
use stripelink.Errors.{ok}
use stripelink.World.{Env, World, Context, pure, post}
use stripelink.World.Rules.{bearers}
use stripelink.Transport.{ApiRequest, perform}
use stripelink.Transport.Replay.{IsUnauthenticated, perform_replays}
use stripelink.Storage.{Storage}
use stripelink.TokenProvider.Requests.{token-IsUnauthenticated}
use stripelink.Client.Construction.{Options, Process, Client, new_client}
use stripelink.Client.Construction.Configured.{new_client-IsConfigured}

module _ {S : Type 0} (env : Env S) (process : Process) (file_store : String → Storage env) where
  constant-IsUnauthenticated : (t : String) → IsUnauthenticated {S = S} (λ ctx request. pure t)
  constant-IsUnauthenticated t = record { at = λ ctx q. record { at = λ w. omega arith } }

  source-IsUnauthenticated :
      (opts : Options env) (client : Client env)
      → opts.get_access_token ≡ none
      → new_client env process file_store opts ≡ ok client
      → On IsUnauthenticated client.core.get_access_token
  source-IsUnauthenticated opts client own h =
      let chosen =
        rw own at (new_client-IsConfigured env process file_store opts client h).source in
      elim (Bool-cases (opts.access_token == "")) [
        | inl missing ↦
            let source = (chosen.1 ((eq_iff opts.access_token "").0 missing)).0 in
            subst (On IsUnauthenticated) (sym source)
              (token-IsUnauthenticated env client.core client.storage)
        | inr given ↦
            let source = (chosen.0 (λ e. cc (given, (eq_iff opts.access_token "").1 e))).0 in
            subst (On IsUnauthenticated) (sym source) (constant-IsUnauthenticated opts.access_token)
      ]

  -- A client that NewClient makes with a static token or with a session in a storage sends any one
  -- request at most twice under a bearer token, and at most once if it is a POST or asks for no retry,
  -- also where it refreshes its tokens on the way.
  pub new_client_replays :
      (opts : Options env) (client : Client env) (ctx : Context) (req : ApiRequest) (w : World S)
      → opts.get_access_token ≡ none
      → new_client env process file_store opts ≡ ok client
      → let sent = (perform env client.core ctx req w).1.sent in
        (bearers sent ≤ bearers w.sent + 2)
        × (req.method ≡ post → bearers sent ≤ bearers w.sent + 1)
        × (req.retry_on_unauthorized ≡ false → bearers sent ≤ bearers w.sent + 1)
  new_client_replays opts client ctx req w own h =
      perform_replays env client.core ctx req w (source-IsUnauthenticated opts client own h)
