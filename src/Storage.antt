-- ===== src/Storage.antt =====
-- storage.go: the gate, and the AuthStorage interface with the contract that its comments state.
-- A client takes the record `Storage`; a store is an implementation of it.
--
-- A transaction's callback is a function of the clock and the state: an error leaves the state
-- alone, and what Go's closures write to captured variables is the second part of the result.
pub mod Silent
pub mod Waits
pub mod Idle
use stripelink.Prelude.{
  ℕ, List, ◌∷◌, ◌+◌, ◌≤◌, ◌≡◌, ◌⊎◌, ◌∙◌, refl, sym, subst, arith, inl, inr, Option, none, some,
}
use stripelink.Errors.{Err, Result, ok, err, Result-cases}
use stripelink.World.{Env, World, Context, M, ◌>>◌, wait, context_failure, status_of}
use stripelink.Session.{AuthStorageState, unix_milli, prepare_storage_snapshot}

-- storageGate.lock: look at the context, wait for the gate while others hold it, look again.
-- What follows up to `unlock` runs with no one else at the store.
unfoldable pub lock : {S : Type 0} → Env S → Context → M S (Unit {0})
lock env ctx = do context_failure ctx; wait env; context_failure ctx

-- A transaction callback that hands a `B` out.
abbrev pub Update : Type 0 → Type 0
Update B = ℕ → AuthStorageState → Result (AuthStorageState × B)

-- The store as others leave it: from `s`, where they had acted at the events `before`, they have acted at
-- those that come in front of them, one after the other.
pub data Others {S : Type 0} (env : Env S) (s : S) (before : List ℕ) : S → List ℕ → Type 0 where
  here : Others env s before s before
  next :
      {t u : S} {turns : List ℕ} (n : ℕ)
      → Others env s before t turns
      → u ≡ env.others n t
      → Others env s before u (n ∷ turns)

-- No request was sent, and the clock did not run back.
pub record Quiet {S : Type 0} (w w' : World S) : Type 0 where
  pub sent : w'.sent ≡ w.sent
  pub clock : w.now ≤ w'.now

pub Quiet-trans : {S : Type 0} {u v w : World S} → Quiet u v → Quiet v w → Quiet u w
Quiet-trans p q = record { sent = q.sent ∙ p.sent; clock = omega arith }

-- Nor did others act, or a lock file was granted.
pub record Alone {S : Type 0} (w w' : World S) : Type 0 where
  pub quiet : Quiet w w'
  pub turns : w'.turns ≡ w.turns
  pub grants : w'.grants ≡ w.grants

pub Alone-trans : {S : Type 0} {u v w : World S} → Alone u v → Alone v w → Alone u w
Alone-trans p q = record {
  quiet = Quiet-trans p.quiet q.quiet;
  turns = q.turns ∙ p.turns;
  grants = q.grants ∙ p.grants;
}

pub Alone-Others :
    {S : Type 0} (env : Env S) {w w' : World S}
    → Alone w w'
    → Others env w.store w.turns w.store w'.turns
Alone-Others env {w = w} a = subst (Others env w.store w.turns w.store) (sym a.turns) here

-- Only others touched the store.
pub record Waited {S : Type 0} (env : Env S) (w w' : World S) : Type 0 where
  pub quiet : Quiet w w'
  pub reached : Others env w.store w.turns w'.store w'.turns

pub lock-Waited :
    {S : Type 0} (env : Env S) (ctx : Context) (w : World S) → Waited env w (lock env ctx w).1
unfolding lock
lock-Waited env ctx w = elim (Result-cases (status_of ctx w.events w.now)) [
  | inl (_, e) ↦ rw e (record {
    quiet = record { sent = refl; clock = omega arith };
    reached = next (w.events + 1) here refl;
  })
  | inr (_, e) ↦
      rw e (record { quiet = record { sent = refl; clock = omega arith }; reached = here })
]

module _ {S : Type 0} (env : Env S) (view : S → AuthStorageState) where
  -- How a transaction that met the state `mid` ends: at the time `t`, with the result `r`, over the
  -- state `after`. An error after the commit has begun may leave the new state behind.
  pub data Outcome {B : Type 0} (update : Update B) (t : ℕ) (mid : S) (r : Result B) (after : S)
      : Type 0 where
    committed :
        (s c : AuthStorageState) (b : B)
        → update t (view mid) ≡ ok (s, b)
        → prepare_storage_snapshot (unix_milli t) s ≡ ok c
        → view after ≡ c
        → r ≡ ok b
        → Outcome update t mid r after
    refused : (e : Err) → view after ≡ view mid → r ≡ err e → Outcome update t mid r after
    uncertain :
        (s c : AuthStorageState) (b : B) (e : Err)
        → update t (view mid) ≡ ok (s, b)
        → prepare_storage_snapshot (unix_milli t) s ≡ ok c
        → view after ≡ c
        → r ≡ err e
        → Outcome update t mid r after

  pub record Transacted {B : Type 0} (update : Update B) (w : World S) (o : Result B × World S)
      : Type 0 where
    pub quiet : Quiet w o.1
    -- when the callback is called, and the state that it meets: all that others have done during the
    -- transaction they had done before
    pub time : ℕ
    pub mid : S
    pub began : w.now ≤ time
    pub ended : time ≤ o.1.now
    pub reached : Others env w.store w.turns mid o.1.turns
    pub outcome : Outcome update time mid o.0 o.1.store

  -- Load changes nothing that is stored, and returns a copy of the state that it met.
  pub record Loaded (w : World S) (o : Result (Option AuthStorageState) × World S) : Type 0 where
    pub quiet : Quiet w o.1
    pub mid : S
    pub reached : Others env w.store w.turns mid o.1.turns
    pub same : view o.1.store ≡ view mid
    pub copy : (s : Option AuthStorageState) → o.0 ≡ ok s → s ≡ some (view o.1.store)

  -- Clear removes the credentials and the pending flow; an error may come from before or after.
  pub record Cleared (w : World S) (o : Result (Unit {0}) × World S) : Type 0 where
    pub quiet : Quiet w o.1
    pub mid : S
    pub reached : Others env w.store w.turns mid o.1.turns
    pub cleared :
        ((view o.1.store).auth ≡ none) × ((view o.1.store).pending_device_auth ≡ none)
        ⊎ (view o.1.store ≡ view mid) × ((e : Err) × (o.0 ≡ err e))

-- The AuthStorage interface.
pub record Storage {S : Type 0} (env : Env S) : Type 1 where
  pub view : S → AuthStorageState
  pub load : Context → M S (Option AuthStorageState)
  pub transact : {B : Type 0} → Context → Update B → M S B
  pub clear : Context → M S (Unit {0})
  pub load-Loaded : (ctx : Context) (w : World S) → Loaded env view w (load ctx w)
  pub transact-Transacted :
      {B : Type 0} (ctx : Context) (update : Update B) (w : World S)
      → Transacted env view update w (transact ctx update w)
  pub clear-Cleared : (ctx : Context) (w : World S) → Cleared env view w (clear ctx w)

-- A transaction that has returned `b`.
pub record Committed {S B : Type 0} {env : Env S} (storage : Storage env) (update : Update B)
    (w : World S) (b : B) (w' : World S) : Type 0 where
  pub quiet : Quiet w w'
  pub mid : S
  pub reached : Others env w.store w.turns mid w'.turns
  pub new : AuthStorageState
  pub kept : AuthStorageState
  pub time : ℕ
  pub called : update time (storage.view mid) ≡ ok (new, b)
  pub fit : prepare_storage_snapshot (unix_milli time) new ≡ ok kept
  pub stored : storage.view w'.store ≡ kept

module _ {S B : Type 0} {env : Env S} (storage : Storage env) where
  pub transact-Committed :
      (ctx : Context) (update : Update B) (w : World S) (b : B)
      → (storage.transact ctx update w).0 ≡ ok b
      → Committed storage update w b (storage.transact ctx update w).1
  transact-Committed ctx update w b h = go t.outcome
    where
      t : Transacted env storage.view update w (storage.transact ctx update w)
      t = storage.transact-Transacted ctx update w

      o : Result B × World S
      o = storage.transact ctx update w

      go :
          Outcome env storage.view update t.time t.mid o.0 o.1.store
          → Committed storage update w b o.1
      go (refused e same r) = absurd (ground (arith, h, r))
      go (uncertain s c b' e called fit stored r) = absurd (ground (arith, h, r))
      go (committed s c b' called fit stored r) = record {
        quiet = t.quiet;
        mid = t.mid;
        reached = t.reached;
        time = t.time;
        new = s;
        kept = c;
        called = cc (called, r, h);
        fit = fit;
        stored = stored;
      }
