-- ===== src/FileStorage/Transaction.antt =====
-- The callback of Transact, and what a document that has been written says of the session.
use stripelink.Prelude.{
  ℕ, ◌≡◌, refl, sym, subst, ap, ◌∙◌, inl, inr, Bool, Bool-cases, true, Option, none, some, List, [],
  ◌∷◌, arith,
}
use stripelink.Errors.{Result, ok, >>=-eq-ok, Result-cases}
use stripelink.Json.{codes_eq, Members}
use stripelink.World.{World, Env, Context, status_of}
use stripelink.Session.{AuthStorageState, unix_milli, prepare_storage_snapshot}
use stripelink.Storage.{Update}
use stripelink.StorageCodec.{Document, document_from, blame, snapshot, replace_snapshot}
use stripelink.StorageCodec.RoundTrip.{snapshot-replace_snapshot, blame-ok}
use stripelink.StorageCodec.Decode.{snapshot-SameEntries, snapshot-decode_storage_state}
use stripelink.Disk.{Disk, file, System, Documented}
use stripelink.FileStorage.{Change, replacement, transact_action, view}

codes_eq-eq : (s t : List ℕ) → codes_eq s t ≡ true → s ≡ t
codes_eq-eq [] [] h = refl
codes_eq-eq [] (d ∷ t) h = cc
codes_eq-eq (c ∷ s) [] h = cc
codes_eq-eq (c ∷ s) (d ∷ t) h = ground (arith, codes_eq-eq s t)

module _ (env : Env Disk) (sys : System) (documented : Documented env sys) where
  -- Documents with one text hold one session.
  snapshot-marshal :
      (d e : Document) (b : List ℕ)
      → sys.marshal d ≡ ok b
      → sys.marshal e ≡ ok b
      → snapshot d ≡ snapshot e
  snapshot-marshal d e b hd he =
      let (ms, pd, sd) = documented.marshalled d b hd in
      let (ns, pe, se) = documented.marshalled e b he in
      let same : ms ≡ ns = ground (arith, pd, pe) in
      sym (snapshot-SameEntries (document_from [] ms) d sd)
      ∙ ap (λ (x : Members). snapshot (document_from [] x)) same
      ∙ snapshot-SameEntries (document_from [] ns) e se

  -- What a disk with the text of a document shows.
  pub view-marshal :
      (d : Document) (b : List ℕ) (c : AuthStorageState)
      → sys.marshal d ≡ ok b
      → snapshot d ≡ ok c
      → (mode : ℕ) (synced : Bool) (disk : Disk)
      → disk.node ≡ file (record { content = b; mode = mode; synced = synced })
      → view env sys disk ≡ c
  view-marshal d b c h s mode synced disk e =
      let (ms, parsed, same) = documented.marshalled d b h in
      let (raw, decoded, kept) =
        snapshot-decode_storage_state env.parse_json (sys.syntax_error b) b ms c parsed
          (snapshot-SameEntries _ d same ∙ s) in
      rw e (rw decoded (rw kept refl))

  -- What the callback asks to be written: nothing, if the text stays.
  abbrev pub Asks : Document → AuthStorageState → Option Document → Type 0
  Asks raw c none = snapshot raw ≡ ok c
  Asks raw c (some state) = snapshot state ≡ ok c

  replacement-Asks :
      (now : ℕ) (raw : Document) (new : AuthStorageState) (change : Option Document)
      → replacement sys now raw new ≡ ok change
      → (c : AuthStorageState) × (prepare_storage_snapshot now new ≡ ok c) × Asks raw c change
  unfolding replacement
  replacement-Asks now raw new change h =
      let (before, eb, h1) = >>=-eq-ok (blame "encode auth storage state" (sys.marshal raw)) _ h in
      let (state, es, h2) = >>=-eq-ok (replace_snapshot now raw new) _ h1 in
      let (after, ea, h3) =
        >>=-eq-ok (blame "encode auth storage state" (sys.marshal state)) _ h2 in
      let ((c, fit, snap), foreign) = snapshot-replace_snapshot now raw state new es in
      (
        c,
        fit,
        elim (Bool-cases (codes_eq before after)) [
          | inl same ↦
              let e : change ≡ none = ground (arith, h3, same) in
              subst (Asks raw c) (sym e) (
                snapshot-marshal raw state before (blame-ok _ _ _ eb)
                  (blame-ok _ _ _ ea ∙ ap ok (sym (codes_eq-eq before after same)))
                ∙ snap)
          | inr other ↦
              let e : change ≡ some state = ground (arith, h3, other) in
              subst (Asks raw c) (sym e) snap
        ],
      )

  pub record Chosen {B : Type 0} (update : Update B) (raw : Document) (now : ℕ) (change : Change B)
      : Type 0 where
    pub before : AuthStorageState
    pub new : AuthStorageState
    pub kept : AuthStorageState
    pub held : snapshot raw ≡ ok before
    pub called : update now before ≡ ok (new, change.1)
    pub fit : prepare_storage_snapshot (unix_milli now) new ≡ ok kept
    pub asks : Asks raw kept change.0

  -- The callback runs at one time, and touches nothing.
  pub record Acted {B : Type 0} (update : Update B) (raw : Document) (w : World Disk)
      (o : Result (Change B) × World Disk) : Type 0 where
    pub store : o.1.store ≡ w.store
    pub now : o.1.now ≡ w.now
    pub sent : o.1.sent ≡ w.sent
    pub turns : o.1.turns ≡ w.turns
    pub grants : o.1.grants ≡ w.grants
    pub chosen : (change : Change B) → o.0 ≡ ok change → Chosen update raw w.now change

  module _ {B : Type 0} {update : Update B} {raw : Document} {now : ℕ} where
    replacement-Chosen :
        (s : AuthStorageState) (out : AuthStorageState × B) (d : Option Document)
        → snapshot raw ≡ ok s
        → update now s ≡ ok out
        → replacement sys (unix_milli now) raw out.0 ≡ ok d
        → Chosen update raw now (d, out.1)
    replacement-Chosen s out d held called good =
        let (c, fit, asks) = replacement-Asks (unix_milli now) raw out.0 d good in
        record {
          before = s;
          new = out.0;
          kept = c;
          held = held;
          called = called;
          fit = fit;
          asks = asks;
        }

  pub transact_action-Acted :
      {B : Type 0} (ctx : Context) (update : Update B) (raw : Document) (exists : Bool)
      (w : World Disk)
      → Acted update raw w (transact_action env sys ctx update raw exists w)
  unfolding transact_action
  transact_action-Acted ctx update raw exists w = elim (Result-cases (snapshot raw)) [
    | inr (e, bad) ↦ rw bad (record {
      store = refl;
      now = refl;
      sent = refl;
      turns = refl;
      grants = refl;
      chosen = λ change h. cc;
    })
    | inl (s, held) ↦ rw held (elim (Result-cases (update w.now s)) [
      | inr (e, bad) ↦ rw bad (record {
        store = refl;
        now = refl;
        sent = refl;
        turns = refl;
        grants = refl;
        chosen = λ change h. cc;
      })
      | inl (out, called) ↦ rw called (elim (Result-cases (status_of ctx w.events w.now)) [
        | inr (e, dead) ↦ rw dead (record {
          store = refl;
          now = refl;
          sent = refl;
          turns = refl;
          grants = refl;
          chosen = λ change h. cc;
        })
        | inl (_, live) ↦
            rw live (elim (Result-cases (replacement sys (unix_milli w.now) raw out.0)) [
              | inr (e, bad) ↦ rw bad (record {
                store = refl;
                now = refl;
                sent = refl;
                turns = refl;
                grants = refl;
                chosen = λ change h. cc;
              })
              | inl (d, good) ↦ rw good (record {
                store = refl;
                now = refl;
                sent = refl;
                turns = refl;
                grants = refl;
                chosen = λ change h.
                    subst (Chosen update raw w.now) (ground arith)
                      (replacement-Chosen s out d held called good);
              })
            ])
      ])
    ])
  ]
