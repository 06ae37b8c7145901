-- ===== src/FileStorage/Commit.antt =====
-- A transaction of FileStorage from the lock file on.
use stripelink.Prelude.{
  ℕ, ◌≡◌, ◌≤◌, ◌⊎◌, refl, sym, subst, ap, ◌∙◌, inl, inr, Bool, true, none, some, arith,
}
use stripelink.Errors.{Err, Result, ok, err, Result-cases}
use stripelink.World.{World, Env, Context, ◌>>=◌}
use stripelink.Session.{AuthStorageState}
use stripelink.Storage.{Update, Alone, Alone-trans, Outcome, committed, refused, uncertain}
use stripelink.StorageCodec.{Document, snapshot}
use stripelink.Disk.{Disk, System, Documented}
use stripelink.StorageFile.{read_storage_state, write_storage_state}
use stripelink.FileStorage.{Change, Action, write_change, under_lock, transact_action, view}
use stripelink.FileStorage.Silence.{read_storage_state-Silent, write_change-Silent}
use stripelink.FileStorage.Reading.{Found, read_storage_state-Found}
use stripelink.StorageFile.Cleanup.{Untouched}
use stripelink.StorageFile.Writing.{Published, Torn, write_storage_state-Written}
use stripelink.FileStorage.Transaction.{view-marshal, Chosen, Asks, transact_action-Acted}

module _ (env : Env Disk) (sys : System) (documented : Documented env sys) where
  -- How a write over the disk `old` ends: it returns over the new session, or fails over either.
  pub record Ended {B : Type 0} (old : Disk) (c : AuthStorageState) (b : B)
      (o : Result B × World Disk) : Type 0 where
    pub ends :
        (o.0 ≡ ok b) × (view env sys o.1.store ≡ c)
        ⊎ ((e : Err) × (o.0 ≡ err e)
            × ((view env sys o.1.store ≡ view env sys old) ⊎ (view env sys o.1.store ≡ c)))

  Published-view :
      (old d : Disk) (state : Document) (c : AuthStorageState)
      → snapshot state ≡ ok c
      → Published env sys documented old state d
      → view env sys d ≡ c
  Published-view old d state c s p =
      view-marshal env sys documented state p.content c p.marshalled s 0o600 true d p.installed.node

  pub write_change-Ended :
      {B : Type 0} (ctx : Context) (raw : Document) (c : AuthStorageState) (change : Change B)
      (w : World Disk)
      → Asks env sys documented raw c change.0
      → ((s : AuthStorageState) → snapshot raw ≡ ok s → s ≡ view env sys w.store)
      → Ended w.store c change.1 (write_change env sys ctx change w)
  unfolding write_change
  write_change-Ended ctx raw c (none, b) w asks faithful = record {
    ends = inl (refl, sym (faithful c asks));
  }
  write_change-Ended ctx raw c (some state, b) w asks faithful =
      let t = write_storage_state-Written env sys documented w.store ctx state in
      let untouched : Untouched env sys documented w.store w.store = record {
        node = refl;
        temps = refl;
      } in
      elim (Result-cases (write_storage_state env sys ctx state w).0) [
        | inl (a, e) ↦ rw e (record {
          ends = inl (refl, Published-view w.store _ state c asks (t.good w a untouched e).0);
        })
        | inr (x, e) ↦ rw e (record { ends = inr (x, refl, either (t.bad w x untouched e)) })
      ]
    where
      either :
          {d : Disk}
          → Torn env sys documented w.store ctx state d
          → (view env sys d ≡ view env sys w.store) ⊎ (view env sys d ≡ c)
      either (inl u) = inl (ground (arith, u.node))
      either (inr p) = inr (Published-view w.store _ state c asks p)

  module _ {B : Type 0} (ctx : Context) (update : Update B) where
    abbrev action : Action B
    action = transact_action env sys ctx update

    -- What a transaction does while it holds the lock file.
    pub record Held (w : World Disk) (o : Result B × World Disk) : Type 0 where
      pub time : ℕ
      pub alone : Alone w o.1
      pub began : w.now ≤ time
      pub ended : time ≤ o.1.now
      pub outcome : Outcome env (view env sys) update time w.store o.0 o.1.store

    -- from what has been chosen on
    Ended-Outcome :
        (w : World Disk) (t : ℕ) (raw : Document) (change : Change B) (o : Result B × World Disk)
        (mid : Disk)
        → (c : Chosen env sys documented update raw t change)
        → ((s : AuthStorageState) → snapshot raw ≡ ok s → s ≡ view env sys mid)
        → view env sys w.store ≡ view env sys mid
        → Ended w.store c.kept change.1 o
        → Outcome env (view env sys) update t mid o.0 o.1.store
    Ended-Outcome w t raw change o mid c faithful same e = go e.ends
      where
        called : update t (view env sys mid) ≡ ok (c.new, change.1)
        called = subst (λ s. update t s ≡ ok (c.new, change.1)) (faithful c.before c.held) c.called

        go :
            (o.0 ≡ ok change.1) × (view env sys o.1.store ≡ c.kept)
              ⊎ ((x : Err) × (o.0 ≡ err x)
                  × ((view env sys o.1.store ≡ view env sys w.store)
                      ⊎ (view env sys o.1.store ≡ c.kept)))
            → Outcome env (view env sys) update t mid o.0 o.1.store
        go (inl (r, stored)) = committed c.new c.kept change.1 called c.fit stored r
        go (inr (x, r, inl old)) = refused x (old ∙ same) r
        go (inr (x, r, inr new)) = uncertain c.new c.kept change.1 x called c.fit new r

    act-Held :
        (w w1 : World Disk) (found : Document × Bool)
        → Alone w w1
        → Found env sys documented w.store found w1.store
        → Held w ((action found.0 found.1 >>= λ change. write_change env sys ctx change) w1)
    act-Held w w1 found alone f =
        let acted = transact_action-Acted env sys documented ctx update found.0 found.1 w1 in
        let w2 = (action found.0 found.1 w1).1 in
        let q : Alone w w2 = record {
          quiet = record {
            sent = acted.sent ∙ alone.quiet.sent;
            clock = omega (arith, alone.quiet.clock, acted.now);
          };
          turns = acted.turns ∙ alone.turns;
          grants = acted.grants ∙ alone.grants;
        } in
        elim (Result-cases (action found.0 found.1 w1).0) [
          | inr (x, e) ↦ rw e (record {
            time = w1.now;
            alone = q;
            began = alone.quiet.clock;
            ended = omega (arith, acted.now);
            outcome = refused x (ap (view env sys) acted.store ∙ f.kept) refl;
          })
          | inl (change, e) ↦
              let c = acted.chosen change e in
              let z =
                write_change-Ended ctx found.0 c.kept change w2 c.asks
                  (λ s h. f.faithful s h ∙ sym (ap (view env sys) acted.store ∙ f.kept)) in
              let qz = (write_change-Silent env sys ctx change).at w2 in
              rw e (record {
                time = w1.now;
                alone = Alone-trans q qz;
                began = alone.quiet.clock;
                ended = omega (arith, acted.now, qz.quiet.clock);
                outcome =
                    Ended-Outcome w2 w1.now found.0 change _ w.store c f.faithful
                      (ap (view env sys) acted.store ∙ f.kept) z;
              })
        ]

    pub under_lock-Held : (w : World Disk) → Held w (under_lock env sys ctx action w)
    unfolding under_lock
    under_lock-Held w =
        let t = read_storage_state-Found env sys documented w.store in
        let q = (read_storage_state-Silent env sys).at w in
        let w1 = (read_storage_state env sys w).1 in
        elim (Result-cases (read_storage_state env sys w).0) [
          | inr (x, e) ↦ rw e (record {
            time = w1.now;
            alone = q;
            began = q.quiet.clock;
            ended = omega arith;
            outcome = refused x (t.bad w x refl e) refl;
          })
          | inl (found, e) ↦ rw e (act-Held w w1 found q (t.good w found refl e))
        ]
