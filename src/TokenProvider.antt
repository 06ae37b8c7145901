-- ===== src/TokenProvider.antt =====
-- tokens.go: the storage-backed token source.
--
-- `token` is a call that finds no refresh in flight, and is the one that starts it: the goroutine's
-- run is over before the call goes on, and whether the caller's context ended before it is asked
-- afterwards. How concurrent calls share a refresh is Flight.antt. A provider without storage or auth
-- resource is not modelled: NewClient sets both.
pub mod Persist
pub mod Requests
pub mod Flight
pub mod Source
use stripelink.Prelude.{
  ℕ, ◌+◌, ◌*◌, String, Bool, true, false, ◌&&◌, ◌||◌, not, Option, none, some, ltb, leb, ◌==◌,
  if◌then◌else◌,
}
use stripelink.Prelude.Int.{ℤ, pos_part}
use stripelink.Errors.{Err, sentinel, plain, wrap, not_authenticated, Result, ok, err}
use stripelink.World.{
  Env, World, Context, M, ◌>>=◌, ◌>>◌, pure, raise, lift, map_err, time_now, context_failure,
  detached, status_of,
}
use stripelink.Transport.{Core, AccessTokenRequest}
use stripelink.Session.{AuthTokens, AuthStorageState, tokens_eq}
use stripelink.Storage.{Storage, Update, lock}
use stripelink.Auth.Wire.{second}
use stripelink.Auth.Tokens.{refresh_token}

-- tokenExpirySkew
abbrev pub token_expiry_skew : ℕ
token_expiry_skew = 60 * second

-- !now.Before(expiry.Add(-skew)), with the skew on the other side
unfoldable pub token_needs_refresh : AuthTokens → ℕ → Bool
token_needs_refresh tokens now =
    ltb 0 (pos_part tokens.expires_at)
    && leb (pos_part tokens.expires_at * 1000000) (now + token_expiry_skew)

-- What `token` makes of the stored tokens: return one, or refresh them.
pub data Decision : Type 0 where
  keep : String → Decision
  refresh : AuthTokens → Decision

unfoldable pub decide : ℕ → AccessTokenRequest → Option AuthTokens → Result Decision
decide now request none = err (sentinel not_authenticated)
decide now request (some stored) =
    if stored.access_token == ""
    then err (sentinel not_authenticated)
    else if request.force_refresh
        && not (request.rejected_token == "")
        && not (request.rejected_token == stored.access_token)
    then ok (keep stored.access_token)
    else if not request.force_refresh && not (token_needs_refresh stored now)
    then ok (keep stored.access_token)
    else if stored.refresh_token == ""
    then err (sentinel not_authenticated)
    else ok (refresh stored)

-- state == nil
abbrev pub loaded_state : Option AuthStorageState → Result AuthStorageState
loaded_state none = err (plain "load authentication: storage returned nil state")
loaded_state (some s) = ok s

-- The tokens that a failed refresh finds committed by another.
unfoldable pub newer : AuthTokens → Err → Option AuthStorageState → Result AuthTokens
newer source e none = err e
newer source e (some s) = elim s.auth [
  | none ↦ err e
  | some a ↦ if not (a.access_token == "") && not (tokens_eq a source) then ok a else err e
]

-- The callback of runRefresh's transaction, which hands out the `tokens` that it leaves.
unfoldable pub rotate : AuthTokens → AuthTokens → Update AuthTokens
rotate source refreshed now state = elim state.auth [
  | none ↦ err (sentinel not_authenticated)
  | some current ↦
      if current.access_token == ""
      then err (sentinel not_authenticated)
      else if not (tokens_eq current source)
      then ok (state, current)
      else ok (record state { auth = some refreshed }, refreshed)
]

unfoldable pub refresh_result : Result AuthTokens → Result String
refresh_result (err e) = err e
refresh_result (ok tokens) =
    if tokens.access_token == "" then err (sentinel not_authenticated) else ok tokens.access_token

-- detachedAuthContext at the time `start`
abbrev pub detached_auth_context : ℕ → Context
detached_auth_context start = detached start (30 * second)

module _ {S : Type 0} (env : Env S) (core : Core S) (storage : Storage env) where
  abbrev pub salvage : Context → AuthTokens → Err → M S AuthTokens
  salvage ctx source e w =
      let (r, w') = storage.load ctx w in (elim r [ err _ ↦ err e | ok s ↦ newer source e s ], w')

  abbrev pub persist_refreshed : AuthTokens → AuthTokens → M S AuthTokens
  persist_refreshed source refreshed =
      if refreshed.access_token == "" || refreshed.refresh_token == ""
      then raise (plain "token refresh returned unusable credentials")
      else do
        start ← time_now
        map_err (wrap "persist refreshed authentication")
            (storage.transact (detached_auth_context start) (rotate source refreshed))

  abbrev pub after_refresh : Context → AuthTokens → Result AuthTokens → M S AuthTokens
  after_refresh ctx source (err e) = salvage ctx source e
  after_refresh ctx source (ok refreshed) = persist_refreshed source refreshed

  unfoldable pub run_refresh : Context → AuthTokens → M S AuthTokens
  run_refresh ctx source w =
      let (r, w') = refresh_token env core ctx source.refresh_token w in
      after_refresh ctx source r w'

  -- waitForRefresh: the shared result, or the context's error if it ended first.
  unfoldable pub wait_for_refresh : Context → M S AuthTokens → M S String
  wait_for_refresh ctx call w =
      let (r, w') = call w in
      (
        elim (status_of ctx w'.events w'.now) [ ok _ ↦ refresh_result r | err e ↦ err e ],
        record w' { events = w'.events + 1 },
      )

  abbrev pub act : Context → Decision → M S String
  act ctx (keep token) = pure token
  act ctx (refresh source) = do
    start ← time_now
    wait_for_refresh ctx (run_refresh (detached_auth_context start) source)

  unfoldable pub token : Context → AccessTokenRequest → M S String
  token ctx request = do
    context_failure ctx
    lock env ctx
    state ← map_err (wrap "load authentication") (storage.load ctx)
    stored ← lift (loaded_state state)
    now ← time_now
    d ← lift (decide now request stored.auth)
    act ctx d
