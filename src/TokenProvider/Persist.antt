-- ===== src/TokenProvider/Persist.antt =====
-- Whose tokens a refresh returns.
use stripelink.Prelude.{ℕ, ◌≡◌, ◌≢◌, sym, subst, inl, inr, refl, none, some, ◌==◌, ◌||◌, arith}
use stripelink.Errors.{Err, wrap, ok, Result-cases, >>=-eq-ok}
use stripelink.World.{Env, World, Context, time_now}
use stripelink.World.Rules.{Ensures, Ensures-bind, Ensures-if, Ensures-raise, Ensures-map_err}
use stripelink.Transport.{Core}
use stripelink.Session.{
  AuthTokens, AuthStorageState, prepare_auth, validate_auth, fill_expiry, prepare_some,
  prepare_pending, prepare_storage_snapshot, unix_milli,
}
use stripelink.Storage.{Storage, transact-Committed}
use stripelink.Auth.Tokens.{refresh_token}
use stripelink.TokenProvider.{
  newer, rotate, detached_auth_context, salvage, persist_refreshed, run_refresh,
}

-- The state has these credentials; an expiry that they lack is its own.
pub record Holds (s : AuthStorageState) (t : AuthTokens) : Type 0 where
  pub auth : AuthTokens
  pub stored : s.auth ≡ some auth
  pub access : auth.access_token ≡ t.access_token
  pub refresh : auth.refresh_token ≡ t.refresh_token

prepare_auth_keeps :
    (now : ℕ) (a b : AuthTokens)
    → prepare_auth now (some a) ≡ ok b
    → (b.access_token ≡ a.access_token) × (b.refresh_token ≡ a.refresh_token)
unfolding prepare_auth validate_auth fill_expiry
prepare_auth_keeps now a b h = ground arith

prepare_storage_snapshot-Holds :
    (now : ℕ) (s c : AuthStorageState) (t : AuthTokens)
    → prepare_storage_snapshot now s ≡ ok c
    → s.auth ≡ some t
    → Holds c t
unfolding prepare_storage_snapshot
prepare_storage_snapshot-Holds now s c t h e =
    let (a, ea, rest) = >>=-eq-ok (prepare_some (prepare_auth now) s.auth) _ h in
    let (p, ep, same) = >>=-eq-ok (prepare_some prepare_pending s.pending_device_auth) _ rest in
    let (b, eb, last) = >>=-eq-ok (prepare_auth now (some t)) _ (rw e at ea) in
    let (access, refresh) = prepare_auth_keeps now t b eb in
    record { auth = b; stored = ground (arith, same, last); access = access; refresh = refresh }

rotate-Holds :
    (source refreshed : AuthTokens) (now : ℕ) (s new : AuthStorageState) (t : AuthTokens)
    → rotate source refreshed now s ≡ ok (new, t)
    → new.auth ≡ some t
unfolding rotate
rotate-Holds source refreshed now s new t h = ground arith

newer-Holds :
    (source : AuthTokens) (e : Err) (s : AuthStorageState) (t : AuthTokens)
    → newer source e (some s) ≡ ok t
    → s.auth ≡ some t
unfolding newer
newer-Holds source e s t h = ground arith

newer-none : (source : AuthTokens) (e : Err) (t : AuthTokens) → newer source e none ≢ ok t
unfolding newer
newer-none source e t h = ground arith

module _ {S : Type 0} (env : Env S) (core : Core S) (storage : Storage env) where
  salvage-Holds :
      (ctx : Context) (source : AuthTokens) (e : Err)
      → Ensures (λ t w. Holds (storage.view w.store) t) (salvage env core storage ctx source e)
  salvage-Holds ctx source e = record {
    at = λ w t h.
        let loaded = storage.load-Loaded ctx w in
        elim (Result-cases (storage.load ctx w).0) [
          | inr (x, bad) ↦ absurd (cc (rw bad at h))
          | inl (none, good) ↦ absurd (newer-none source e t (rw good at h))
          | inl (some s, good) ↦
              let kept = newer-Holds source e s t (rw good at h) in
              let same : s ≡ storage.view (storage.load ctx w).1.store =
                ground (arith, loaded.copy (some s) good) in
              record {
                auth = t;
                stored = subst (λ x. x.auth ≡ some t) same kept;
                access = refl;
                refresh = refl;
              }
        ];
  }

  transact-Holds :
      (ctx : Context) (source refreshed : AuthTokens)
      → Ensures
          (λ t w. Holds (storage.view w.store) t)
          (storage.transact ctx (rotate source refreshed))
  transact-Holds ctx source refreshed = record {
    at = λ w t h.
        let o = storage.transact ctx (rotate source refreshed) w in
        let c = transact-Committed storage ctx (rotate source refreshed) w t h in
        let held = rotate-Holds source refreshed c.time (storage.view c.mid) c.new t c.called in
        subst (λ x. Holds x t) (sym c.stored)
          (prepare_storage_snapshot-Holds (unix_milli c.time) c.new c.kept t c.fit held);
  }

  persist_refreshed-Holds :
      (source refreshed : AuthTokens)
      → Ensures
          (λ t w. Holds (storage.view w.store) t)
          (persist_refreshed env core storage source refreshed)
  persist_refreshed-Holds source refreshed =
      Ensures-if (refreshed.access_token == "" || refreshed.refresh_token == "") _ _
        (Ensures-raise _)
        (Ensures-bind time_now _ λ start.
          Ensures-map_err (wrap "persist refreshed authentication")
            (storage.transact (detached_auth_context start) (rotate source refreshed))
            (transact-Holds (detached_auth_context start) source refreshed))

  -- A refresh that returns tokens returns the store's credentials: those that it has just stored
  -- there, or those that another had put in the place of the ones that it set out to refresh.
  pub run_refresh-Holds :
      (ctx : Context) (source : AuthTokens) (w : World S) (t : AuthTokens)
      → (run_refresh env core storage ctx source w).0 ≡ ok t
      → Holds (storage.view (run_refresh env core storage ctx source w).1.store) t
  unfolding run_refresh
  run_refresh-Holds ctx source w t h =
      let o = refresh_token env core ctx source.refresh_token w in
      elim (Result-cases o.0) [
        | inl (a, e) ↦ rw e ((persist_refreshed-Holds source a).at o.1 t (rw e at h))
        | inr (x, e) ↦ rw e ((salvage-Holds ctx source x).at o.1 t (rw e at h))
      ]
