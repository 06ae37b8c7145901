-- ===== src/WebBotAuth/Flight/Calls.antt =====
-- The calls of SignURL over the steps: a call keeps its authority, and its result stays sound.
use stripelink.Prelude.{
  ℕ, ◌+◌, ◌-◌, ◌≡◌, refl, sym, ap, subst, ◌∙◌, inl, inr, String, Bool, Bool-cases, true, Option,
  Option-cases, none, some, eqb, ◌&&◌, not, is_some, arith, if◌then◌else◌,
}
use stripelink.Errors.{Result, ok, err}
use stripelink.WebBotAuth.{WebBotAuthBlock}
use stripelink.WebBotAuth.Flight.{
  Entry, SignCall, Signer, set_call, share, evict, usable, sign_url, release_web_bot_waiter, forget,
  keep_entry, sign_web_bot_auth, SignStep, signs, releases, completes, Reached, made_new,
  after_step, is_inflight, is_current,
}
use stripelink.WebBotAuth.Flight.Invariant.{Reached-IsShared}

module _ (P : String → WebBotAuthBlock → ℕ → Type 0) where
  -- What a call has returned was fetched for its authority.
  abbrev pub Sound : Option SignCall → Type 0
  Sound none = Unit
  Sound (some c) = (b : WebBotAuthBlock) (e : ℕ) → c.result ≡ some (ok (b, e)) → P c.authority b e

  -- The calls after a step: those before it keep their authority, and all are sound if they were.
  pub record Advances (f g : ℕ → Option SignCall) : Type 0 where
    pub kept :
        (n : ℕ) (c : SignCall)
        → f n ≡ some c
        → (d : SignCall) × (g n ≡ some d) × (d.authority ≡ c.authority)
    pub sound : ((n : ℕ) → Sound (f n)) → (n : ℕ) → Sound (g n)

  Advances-refl : (f : ℕ → Option SignCall) → Advances f f
  Advances-refl f = record { kept = λ n c h. (c, h, refl); sound = λ h. h }

  abbrev replaced : ℕ → SignCall → (ℕ → Option SignCall) → ℕ → Option SignCall
  replaced n d f k = if eqb k n then some d else f k

  -- a call that is replaced by one for the same authority
  replaced-Advances :
      (n : ℕ) (c d : SignCall) (f : ℕ → Option SignCall)
      → f n ≡ some c
      → d.authority ≡ c.authority
      → (Sound (some c) → Sound (some d))
      → Advances f (replaced n d f)
  replaced-Advances n c d f at same good = record {
    kept = λ k x h. elim (Bool-cases (eqb k n)) [
      | inl e ↦
          let one : c ≡ x = ground (arith, e, at, h) in
          rw e (d, refl, same ∙ ap (λ (y : SignCall). y.authority) one)
      | inr e ↦ rw e (x, h, refl)
    ];
    sound = λ h k. elim (Bool-cases (eqb k n)) [
      | inl e ↦ rw e (good (subst Sound at (h n)))
      | inr e ↦ rw e (h k)
    ];
  }

  -- a new call
  added-Advances :
      (n : ℕ) (d : SignCall) (f : ℕ → Option SignCall)
      → f n ≡ none
      → d.result ≡ none
      → Advances f (replaced n d f)
  added-Advances n d f free open' = record {
    kept = λ k x h. elim (Bool-cases (eqb k n)) [
      | inl e ↦ absurd (ground (arith, e, free, h))
      | inr e ↦ rw e (x, h, refl)
    ];
    sound = λ h k. elim (Bool-cases (eqb k n)) [
      | inl e ↦ rw e (λ b x r. absurd (ground (arith, open', r)))
      | inr e ↦ rw e (h k)
    ];
  }

  share-Advances :
      (a : String) (s : Signer)
      → s.calls s.made ≡ none
      → Advances s.calls (share a (s.inflight a) s).1.calls
  share-Advances a s free = elim (Option-cases (s.inflight a)) [
    | inl missing ↦ rw missing (added-Advances s.made _ s.calls free refl)
    | inr (n, flies) ↦ rw flies (elim (Option-cases (s.calls n)) [
      | inl gone ↦ rw gone (Advances-refl s.calls)
      | inr (c, at) ↦
          rw at
            (replaced-Advances n c (record c { waiters = c.waiters + 1 }) s.calls at refl (λ h. h))
    ])
  ]

  sign_url-Advances :
      (now : ℕ) (a : String) (s : Signer)
      → s.calls s.made ≡ none
      → Advances s.calls (sign_url now a s).1.calls
  unfolding sign_url
  sign_url-Advances now a s free = elim (Option-cases (usable now (s.cache a))) [
    | inl missing ↦ rw missing (share-Advances a (evict a s) free)
    | inr (block, found) ↦ rw found (Advances-refl s.calls)
  ]

  release-Advances :
      (n : ℕ) (canceled : Bool) (s : Signer)
      → Advances s.calls (release_web_bot_waiter n canceled s).calls
  unfolding release_web_bot_waiter
  release-Advances n canceled s = elim (Option-cases (s.calls n)) [
    | inl gone ↦ rw gone (Advances-refl s.calls)
    | inr (c, at) ↦
        rw at (elim (Bool-cases (canceled && eqb (c.waiters - 1) 0 && not (is_some c.result))) [
          | inl last ↦ rw last (
              replaced-Advances n c (record c { waiters = c.waiters - 1; cancelled = true }) s.calls
                at refl (λ h. h))
          | inr others ↦ rw others (
              replaced-Advances n c (record c { waiters = c.waiters - 1 }) s.calls at refl (λ h. h))
        ])
  ]

  keep_entry-calls :
      (now : ℕ) (a : String) (r : Result Entry) (s : Signer)
      → (keep_entry now a r s).calls ≡ s.calls
  keep_entry-calls now a (err x) s = refl
  keep_entry-calls now a (ok (block, expires)) s = elim (Bool-cases (is_current now expires)) [
    | inl e ↦ rw e refl
    | inr e ↦ rw e refl
  ]

  completes-Advances :
      (now n : ℕ) (r : Result Entry) (c : SignCall) (s : Signer)
      → s.calls n ≡ some c
      → ((b : WebBotAuthBlock) (e : ℕ) → r ≡ ok (b, e) → P c.authority b e)
      → Advances s.calls (sign_web_bot_auth now n r s).calls
  unfolding sign_web_bot_auth
  completes-Advances now n r c s at good =
      let done : SignCall = record c { result = some r } in
      let step =
        replaced-Advances n c done s.calls at refl (λ _ b e h. good b e (ground (arith, h))) in
      rw at (elim (Bool-cases (is_inflight n (s.inflight c.authority))) [
        | inl current ↦ rw current (
            subst (Advances s.calls)
              (sym (keep_entry-calls now c.authority r (forget n c.authority (set_call n done s))))
              step)
        | inr stale ↦ rw stale step
      ])

  pub SignStep-Advances :
      {s t : Signer} → s.calls s.made ≡ none → SignStep P s t → Advances s.calls t.calls
  SignStep-Advances free (signs now a) = sign_url-Advances now a _ free
  SignStep-Advances free (releases n canceled) = release-Advances n canceled _
  SignStep-Advances free (completes now n r c at runs good) = completes-Advances now n r c _ at good

  pub Reached-Sound : {s : Signer} → Reached P s → (n : ℕ) → Sound (s.calls n)
  Reached-Sound made_new = λ n. tt
  Reached-Sound (after_step {s = s} r step) =
      (SignStep-Advances ((Reached-IsShared P r).fresh s.made (omega arith)) step).sound
        (Reached-Sound r)
