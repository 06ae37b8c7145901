-- ===== src/MemoryStorage/Contract.antt =====
-- MemoryStorage keeps the contract of AuthStorage.
use stripelink.Prelude.{◌≡◌, refl, sym, subst, inl, inr, arith}
use stripelink.Errors.{Err, ok, err, Result-cases}
use stripelink.World.{Env, World, Context, status_of}
use stripelink.Session.{unix_milli, prepare_storage_snapshot}
use stripelink.Storage.{
  Update, lock, lock-Waited, Others, Outcome, committed, refused, Alone, Quiet-trans, Loaded,
  Transacted, Cleared, Storage,
}
use stripelink.MemoryStorage.{MemoryStorage, view, load, transact, transact_locked, clear}

module _ (env : Env MemoryStorage) where
  pub load-Loaded : (ctx : Context) (w : World MemoryStorage) → Loaded env view w (load env ctx w)
  unfolding load
  load-Loaded ctx w =
      let waited = lock-Waited env ctx w in
      elim (Result-cases (lock env ctx w).0) [
        | inl (_, e) ↦ rw e (record {
          quiet = waited.quiet;
          mid = (lock env ctx w).1.store;
          reached = waited.reached;
          same = refl;
          copy = λ s h. ground arith;
        })
        | inr (_, e) ↦ rw e (record {
          quiet = waited.quiet;
          mid = (lock env ctx w).1.store;
          reached = waited.reached;
          same = refl;
          copy = λ s h. cc;
        })
      ]

  transact_locked-Outcome :
      {B : Type 0} (ctx : Context) (update : Update B) (w : World MemoryStorage)
      → let o = transact_locked env ctx update w in
        Outcome env view update o.1.now w.store o.0 o.1.store
  unfolding transact_locked
  transact_locked-Outcome ctx update w = elim (Result-cases (update w.now (view w.store))) [
    | inr (e, bad) ↦ rw bad (refused e refl refl)
    | inl (out, good) ↦ rw good (elim (Result-cases (status_of ctx w.events w.now)) [
      | inr (e, dead) ↦ rw dead (refused e refl refl)
      | inl (_, live) ↦
          rw live (elim (Result-cases (prepare_storage_snapshot (unix_milli w.now) out.0)) [
            | inr (e, unfit) ↦ rw unfit (refused e refl refl)
            | inl (c, fit) ↦ rw fit (committed out.0 c out.1 good fit refl refl)
          ])
    ])
  ]

  transact_locked-Alone :
      {B : Type 0} (ctx : Context) (update : Update B) (w : World MemoryStorage)
      → Alone w (transact_locked env ctx update w).1
  unfolding transact_locked
  transact_locked-Alone ctx update w = record {
    quiet = record { sent = ground arith; clock = ground arith };
    turns = ground arith;
    grants = ground arith;
  }

  pub transact-Transacted :
      {B : Type 0} (ctx : Context) (update : Update B) (w : World MemoryStorage)
      → Transacted env view update w (transact env ctx update w)
  unfolding transact
  transact-Transacted ctx update w =
      let waited = lock-Waited env ctx w in
      let w1 = (lock env ctx w).1 in
      elim (Result-cases (lock env ctx w).0) [
        | inl (_, e) ↦
            let a = transact_locked-Alone ctx update w1 in
            rw e (record {
              quiet = Quiet-trans waited.quiet a.quiet;
              time = (transact_locked env ctx update w1).1.now;
              began = (Quiet-trans waited.quiet a.quiet).clock;
              ended = omega arith;
              mid = w1.store;
              reached = subst (Others env w.store w.turns w1.store) (sym a.turns) waited.reached;
              outcome = transact_locked-Outcome ctx update w1;
            })
        | inr (f, e) ↦ rw e (record {
          quiet = waited.quiet;
          time = w1.now;
          began = waited.quiet.clock;
          ended = omega arith;
          mid = w1.store;
          reached = waited.reached;
          outcome = refused f refl refl;
        })
      ]

  transact_locked-ended :
      {B : Type 0} (ctx : Context) (update : Update B) (w : World MemoryStorage) (x : Err)
      → status_of ctx w.events w.now ≡ err x
      → ((e : Err) × ((transact_locked env ctx update w).0 ≡ err e))
        × ((transact_locked env ctx update w).1.store ≡ w.store)
  unfolding transact_locked
  transact_locked-ended ctx update w x dead = elim (Result-cases (update w.now (view w.store))) [
    | inr (e, bad) ↦ rw bad ((e, refl), refl)
    | inl (out, good) ↦ rw (good, dead) ((x, refl), refl)
  ]

  -- Transact of the memory store sends nothing, and calls the callback on the state that the others have
  -- left by all that they do during the call, so that no update of theirs is lost. It commits the prepared
  -- result and returns what the callback handed out, or it returns an error, over that state or over
  -- the prepared result. Where the context has ended by the look at it after the callback, which is the
  -- first event behind the gate, it returns an error over the state that it met.
  pub transact_loses_nothing :
      {B : Type 0} (ctx : Context) (update : Update B) (w : World MemoryStorage) (u : Unit {0})
      → Transacted env view update w (transact env ctx update w)
        × (let gate = lock env ctx w in
            let o = transact env ctx update w in
            (x : Err)
            → gate.0 ≡ ok u
            → status_of ctx gate.1.events gate.1.now ≡ err x
            → ((e : Err) × (o.0 ≡ err e)) × (o.1.store ≡ gate.1.store))
  unfolding transact
  transact_loses_nothing ctx update w u = (
    transact-Transacted ctx update w,
    λ x passed dead. rw passed (transact_locked-ended ctx update (lock env ctx w).1 x dead),
  )

  transact_locked_rollback :
      {B : Type 0} (ctx : Context) (update : Update B) (w : World MemoryStorage) (e : Err)
      → (transact_locked env ctx update w).0 ≡ err e
      → (transact_locked env ctx update w).1.store ≡ w.store
  unfolding transact_locked
  transact_locked_rollback ctx update w e h = ground arith

  -- A transaction of the memory store that returns an error has not written: the store is as the
  -- other users of it have left it.
  pub transact_rollback :
      {B : Type 0} (ctx : Context) (update : Update B) (w : World MemoryStorage) (e : Err)
      → (transact env ctx update w).0 ≡ err e
      → let o = transact env ctx update w in Others env w.store w.turns o.1.store o.1.turns
  unfolding transact
  transact_rollback ctx update w e h =
      let reached = (lock-Waited env ctx w).reached in
      elim (Result-cases (lock env ctx w).0) [
        | inl (_, g) ↦
            let w1 = (lock env ctx w).1 in
            rw g (
              rw
                (
                  transact_locked_rollback ctx update w1 e (rw g at h),
                  (transact_locked-Alone ctx update w1).turns,
                )
                reached)
        | inr (_, g) ↦ rw g reached
      ]

  pub clear-Cleared :
      (ctx : Context) (w : World MemoryStorage) → Cleared env view w (clear env ctx w)
  unfolding clear
  clear-Cleared ctx w =
      let waited = lock-Waited env ctx w in
      elim (Result-cases (lock env ctx w).0) [
        | inl (_, e) ↦ rw e (record {
          quiet = record { sent = waited.quiet.sent; clock = waited.quiet.clock };
          mid = (lock env ctx w).1.store;
          reached = waited.reached;
          cleared = inl (refl, refl);
        })
        | inr (f, e) ↦ rw e (record {
          quiet = waited.quiet;
          mid = (lock env ctx w).1.store;
          reached = waited.reached;
          cleared = inr (refl, (f, refl));
        })
      ]

  -- MemoryStorage is an AuthStorage.
  abbrev pub memory_storage : Storage env
  memory_storage = record {
    view = view;
    load = load env;
    transact = transact env;
    clear = clear env;
    load-Loaded = load-Loaded;
    transact-Transacted = transact-Transacted;
    clear-Cleared = clear-Cleared;
  }
