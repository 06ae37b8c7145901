-- ===== src/WebBotAuth/Flight/Invariant.antt =====
-- Every step of SignURL's callers keeps the calls in flight the live ones, and the cache sound.
use stripelink.Prelude.{
  ℕ, ◌+◌, ◌≤◌, ◌-◌, ◌&&◌, not, is_some, String, ◌≡◌, refl, ◌∙◌, sym, inl, inr, Bool, Bool-cases,
  Option-cases, true, false, none, some, eqb, ◌==◌, eq_iff, arith,
}
use stripelink.Errors.{Result, ok, err}
use stripelink.WebBotAuth.{WebBotAuthBlock}
use stripelink.WebBotAuth.Flight.{
  Entry, SignCall, Signer, set_call, start_call, share, evict, is_current, is_inflight, usable,
  sign_url, release_web_bot_waiter, forget, keep_entry, sign_web_bot_auth, live_for, SignStep,
  signs, releases, completes, Reached, made_new, after_step,
}

module _ (P : String → WebBotAuthBlock → ℕ → Type 0) where
  pub record IsShared (s : Signer) : Type 0 where
    -- the call in flight for an authority is the one that is live for it
    pub flying : (a : String) (n : ℕ) → s.inflight a ≡ some n → live_for (s.calls n) ≡ some a
    pub live : (a : String) (n : ℕ) → live_for (s.calls n) ≡ some a → s.inflight a ≡ some n
    pub fresh : (n : ℕ) → s.made ≤ n → s.calls n ≡ none
    pub cached : (a : String) (b : WebBotAuthBlock) (e : ℕ) → s.cache a ≡ some (b, e) → P a b e

  pub evict-IsShared : (a : String) (s : Signer) → IsShared s → IsShared (evict a s)
  evict-IsShared a s i = record {
    flying = i.flying;
    live = i.live;
    fresh = i.fresh;
    cached = λ k b e h. ground (arith, i.cached k b e, eq_iff k a);
  }

  -- a change of a call that stays live for what it was
  set_call-IsShared :
      (n : ℕ) (c d : SignCall) (s : Signer)
      → s.calls n ≡ some c
      → live_for (some d) ≡ live_for (some c)
      → IsShared s
      → IsShared (set_call n d s)
  set_call-IsShared n c d s at same i = record {
    flying = λ a k h. elim (Bool-cases (eqb k n)) [
      | inl e ↦ rw e (same ∙ ground (arith, i.flying a k h, at))
      | inr e ↦ rw e (i.flying a k h)
    ];
    live = λ a k h. elim (Bool-cases (eqb k n)) [
      | inl e ↦
          let same_call : k ≡ n = ground (arith, e) in
          rw same_call (i.live a n (rw at (sym same ∙ (rw e at h))))
      | inr e ↦ i.live a k (rw e at h)
    ];
    fresh = λ k h. ground (arith, i.fresh k h, at);
    cached = i.cached;
  }

  -- the end of a call: it is live for nothing, and no longer in flight
  end_call-IsShared :
      (n : ℕ) (c d : SignCall) (s : Signer)
      → s.calls n ≡ some c
      → live_for (some d) ≡ none
      → IsShared s
      → IsShared (forget n c.authority (set_call n d s))
  end_call-IsShared n c d s at over i = record {
    flying = λ a k h. elim (Bool-cases (eqb k n)) [
      | inl e ↦ absurd (ground (arith, e, h, at, i.flying a k, i.flying a n, eq_iff a c.authority))
      | inr e ↦ rw e (i.flying a k (ground (arith, h, eq_iff a c.authority)))
    ];
    live = λ a k h. elim (Bool-cases (eqb k n)) [
      | inl e ↦ absurd (ground (arith, over, rw e at h))
      | inr e ↦ let flies = i.live a k (rw e at h) in ground (arith, flies, eq_iff a c.authority)
    ];
    fresh = λ k h. ground (arith, i.fresh k h, at);
    cached = i.cached;
  }

  start_call-IsShared :
      (a : String) (s : Signer) → s.inflight a ≡ none → IsShared s → IsShared (start_call a s)
  start_call-IsShared a s free i = record {
    flying = λ b k h. ground (arith, h, i.flying b k, i.fresh k, eq_iff b a);
    live = λ b k h. elim (Bool-cases (eqb k s.made)) [
      | inl e ↦ ground (arith, rw e at h, e, eq_iff b a)
      | inr e ↦ let flies = i.live b k (rw e at h) in ground (arith, flies, free, eq_iff b a)
    ];
    fresh = λ k h. ground (arith, i.fresh k);
    cached = i.cached;
  }

  share-IsShared : (a : String) (s : Signer) → IsShared s → IsShared (share a (s.inflight a) s).1
  share-IsShared a s i = elim (Option-cases (s.inflight a)) [
    | inl free ↦ rw free (start_call-IsShared a s free i)
    | inr (n, flies) ↦ rw flies (elim (Option-cases (s.calls n)) [
      | inl gone ↦ rw gone i
      | inr (c, at) ↦
          rw at (set_call-IsShared n c (record c { waiters = c.waiters + 1 }) s at refl i)
    ])
  ]

  sign_url-IsShared :
      (now : ℕ) (a : String) (s : Signer) → IsShared s → IsShared (sign_url now a s).1
  unfolding sign_url
  sign_url-IsShared now a s i = elim (Option-cases (usable now (s.cache a))) [
    | inl missing ↦ rw missing (share-IsShared a (evict a s) (evict-IsShared a s i))
    | inr (block, found) ↦ rw found i
  ]

  release-IsShared :
      (n : ℕ) (canceled : Bool) (s : Signer)
      → IsShared s
      → IsShared (release_web_bot_waiter n canceled s)
  unfolding release_web_bot_waiter
  release-IsShared n canceled s i = elim (Option-cases (s.calls n)) [
    | inl gone ↦ rw gone i
    | inr (c, at) ↦
        rw at (elim (Bool-cases (canceled && eqb (c.waiters - 1) 0 && not (is_some c.result))) [
          | inl last ↦ rw last (
              end_call-IsShared n c (record c { waiters = c.waiters - 1; cancelled = true }) s at
                (ground arith) i)
          | inr others ↦
              rw others (set_call-IsShared n c (record c { waiters = c.waiters - 1 }) s at refl i)
        ])
  ]

  keep_entry-IsShared :
      (now : ℕ) (a : String) (r : Result Entry) (s : Signer)
      → ((b : WebBotAuthBlock) (e : ℕ) → r ≡ ok (b, e) → P a b e)
      → IsShared s
      → IsShared (keep_entry now a r s)
  keep_entry-IsShared now a (err x) s sound i = i
  keep_entry-IsShared now a (ok (block, expires)) s sound i =
      elim (Bool-cases (is_current now expires)) [
        | inr old ↦ rw old i
        | inl young ↦ rw young (record {
          flying = i.flying;
          live = i.live;
          fresh = i.fresh;
          cached = λ k b e h. elim (Bool-cases (k == a)) [
            | inr other ↦ i.cached k b e (rw other at h)
            | inl same ↦
                let key : k ≡ a = (eq_iff k a).0 same in
                rw key (sound b e (ground (arith, rw same at h)))
          ];
        })
      ]

  live_for-authority : (c : SignCall) (a : String) → live_for (some c) ≡ some a → a ≡ c.authority
  live_for-authority c a h = ground arith

  -- a call that is no longer in flight has been cancelled
  stale-dead :
      (n : ℕ) (c : SignCall) (s : Signer)
      → s.calls n ≡ some c
      → is_inflight n (s.inflight c.authority) ≡ false
      → IsShared s
      → live_for (some c) ≡ none
  stale-dead n c s at stale i = elim (Option-cases (live_for (some c))) [
    | inl dead ↦ dead
    | inr (a, alive) ↦
        let key : a ≡ c.authority = live_for-authority c a alive in
        let flies : s.inflight c.authority ≡ some n = rw (← key) (i.live a n (rw at alive)) in
        absurd (ground (arith, flies, stale))
  ]

  completes-IsShared :
      (now n : ℕ) (r : Result Entry) (c : SignCall) (s : Signer)
      → s.calls n ≡ some c
      → c.result ≡ none
      → ((b : WebBotAuthBlock) (e : ℕ) → r ≡ ok (b, e) → P c.authority b e)
      → IsShared s
      → IsShared (sign_web_bot_auth now n r s)
  unfolding sign_web_bot_auth
  completes-IsShared now n r c s at runs sound i =
      rw at (elim (Bool-cases (is_inflight n (s.inflight c.authority))) [
        | inl current ↦ rw current (
            keep_entry-IsShared now c.authority r
              (forget n c.authority (set_call n (record c { result = some r }) s)) sound
              (end_call-IsShared n c (record c { result = some r }) s at refl i))
        | inr stale ↦ rw stale (
            set_call-IsShared n c (record c { result = some r }) s at
              (sym (stale-dead n c s at stale i)) i)
      ])

  SignStep-IsShared : {s t : Signer} → SignStep P s t → IsShared s → IsShared t
  SignStep-IsShared (signs now a) i = sign_url-IsShared now a _ i
  SignStep-IsShared (releases n canceled) i = release-IsShared n canceled _ i
  SignStep-IsShared (completes now n r c at runs sound) i =
      completes-IsShared now n r c _ at runs sound i

  pub Reached-IsShared : {s : Signer} → Reached P s → IsShared s
  Reached-IsShared made_new = record {
    flying = λ a n h. cc;
    live = λ a n h. cc;
    fresh = λ n h. refl;
    cached = λ a b e h. cc;
  }
  Reached-IsShared (after_step r step) = SignStep-IsShared step (Reached-IsShared r)
