-- ===== src/WebBotAuth/Flight/Caller/Bound.antt =====
-- What a caller of SignURL is given was fetched for the host of its URL.
use stripelink.Prelude.{
  ℕ, ◌≡◌, refl, ap, subst, ◌∙◌, inl, inr, String, Option, Option-cases, none, some, arith,
}
use stripelink.Errors.{Result, ok, err, Result-cases}
use stripelink.World.{Context, nil_context, context, status_of}
use stripelink.WebBotAuth.{WebBotAuthBlock, Net, web_bot_authority}
use stripelink.WebBotAuth.Flight.{
  Entry, SignCall, Signer, Answer, served, joined, started, sign_url, live_for, signs, Reached,
  after_step,
}
use stripelink.WebBotAuth.Flight.Invariant.{Reached-IsShared}
use stripelink.WebBotAuth.Flight.Shared.{IsGood, sign_url-IsGood}
use stripelink.WebBotAuth.Flight.Calls.{Sound, SignStep-Advances, Reached-Sound}
use stripelink.WebBotAuth.Flight.Caller.{
  enter, finished, read_call, wait_for_web_bot_auth, Later, at_once, and_then, read_result,
  Returned, from_cache, from_call,
}

module _ (P : String → WebBotAuthBlock → ℕ → Type 0) where
  Later-Reached : {s t : Signer} → Reached P s → Later P s t → Reached P t
  Later-Reached r at_once = r
  Later-Reached r (and_then l step) = after_step (Later-Reached r l) step

  -- A call keeps its authority for ever.
  Later-kept :
      {s t : Signer} (n : ℕ) (c : SignCall)
      → Reached P s
      → Later P s t
      → s.calls n ≡ some c
      → (d : SignCall) × (t.calls n ≡ some d) × (d.authority ≡ c.authority)
  Later-kept n c r at_once h = (c, h, refl)
  Later-kept n c r (and_then {t = t} l step) h =
      let (d, at, same) = Later-kept n c r l h in
      let fresh = (Reached-IsShared P (Later-Reached r l)).fresh t.made (omega arith) in
      let (x, now, still) = (SignStep-Advances P fresh step).kept n d at in (x, now, still ∙ same)

  live_for-some :
      (o : Option SignCall) (a : String)
      → live_for o ≡ some a
      → (c : SignCall) × (o ≡ some c) × (c.authority ≡ a)
  live_for-some none a h = cc
  live_for-some (some c) a h = (c, refl, ground (arith, h))

  result_of-ok :
      (r : Result Entry) (b : WebBotAuthBlock)
      → read_result (some r) ≡ ok b
      → (e : ℕ) × (r ≡ ok (b, e))
  result_of-ok (err x) b h = cc
  result_of-ok (ok (block, e)) b h = (e, ground (arith, h))

  read_call-Sound :
      (c : SignCall) (b : WebBotAuthBlock)
      → Sound P (some c)
      → read_call (some c) ≡ ok b
      → (e : ℕ) × P c.authority b e
  read_call-Sound c b good h = elim (Option-cases c.result) [
    | inl missing ↦ absurd (cc (rw missing at h))
    | inr (r, there) ↦
        let (e, same) = result_of-ok r b (subst (λ o. read_result o ≡ ok b) there h) in
        (e, good b e (there ∙ ap some same))
  ]

  -- What SignURL has entered with.
  enter-ok :
      (net : Net) (ctx : Context) (event now : ℕ) (raw : String) (s : Signer) (answer : Answer)
      → (enter net ctx event now raw s).0 ≡ ok answer
      → (a : String) × (web_bot_authority net raw ≡ ok a)
        × ((sign_url now a s).0 ≡ answer)
        × ((enter net ctx event now raw s).1 ≡ (sign_url now a s).1)
  unfolding enter
  enter-ok net nil_context event now raw s answer h = cc
  enter-ok net (context failing) event now raw s answer h =
      elim (Result-cases (web_bot_authority net raw)) [
        | inr (x, e) ↦ absurd (cc (rw e at h))
        | inl (a, e) ↦ elim (Result-cases (status_of (context failing) event now)) [
          | inr (x, f) ↦ absurd (cc (rw (e, f) at h))
          | inl (u, f) ↦ (a, e, ground (arith, rw (e, f) at h), rw (e, f) refl)
        ]
      ]

  -- A block that comes from a call that the caller has waited for.
  from_call-Sound :
      (a : String) (n : ℕ) (b : WebBotAuthBlock) {s t : Signer}
      → Reached P s
      → live_for (s.calls n) ≡ some a
      → Later P s t
      → (wait_for_web_bot_auth n finished t).0 ≡ ok b
      → (e : ℕ) × P a b e
  unfolding wait_for_web_bot_auth
  from_call-Sound a n b {t = t} r alive l h =
      let (c, at, of_a) = live_for-some _ a alive in
      let (d, now, same) = Later-kept n c r l at in
      let good : Sound P (some d) = subst (Sound P) now (Reached-Sound P (Later-Reached r l) n) in
      let (e, p) = read_call-Sound d b good (subst (λ o. read_call o ≡ ok b) now h) in
      (e, subst (λ x. P x b e) (same ∙ of_a) p)

  -- of an answer whose promise is that the call runs for the authority
  waited-Sound :
      (net : Net) (ctx : Context) (event now n : ℕ) (raw : String) (b : WebBotAuthBlock)
      (s t : Signer) (answer : Answer)
      → ((a : String) (u : Signer) → IsGood P now a answer u → live_for (u.calls n) ≡ some a)
      → Reached P s
      → (enter net ctx event now raw s).0 ≡ ok answer
      → Later P (enter net ctx event now raw s).1 t
      → (wait_for_web_bot_auth n finished t).0 ≡ ok b
      → (a : String) × (web_bot_authority net raw ≡ ok a) × ((e : ℕ) × P a b e)
  waited-Sound net ctx event now n raw b s t answer live r h l w =
      let (a, e, same, after) = enter-ok net ctx event now raw s answer h in
      let u = (sign_url now a s).1 in
      let good = subst (λ (o : Answer). IsGood P now a o u) same (sign_url-IsGood P s now a r) in
      let later : Later P u t = subst (λ (x : Signer). Later P x t) after l in
      (a, e, from_call-Sound a n b (after_step r (signs now a)) (live a u good) later w)

  -- Whatever the goroutines do in the meantime, a block that SignURL returns for a URL was fetched for the
  -- host of that URL: it has, for that host, the property `P` that the fetches for an authority give,
  -- whether it comes from the cache or from a call that this caller or another has started.
  pub sign_url_returns :
      (net : Net) (raw : String) (b : WebBotAuthBlock)
      → Returned P net raw b
      → (a : String) × (web_bot_authority net raw ≡ ok a) × ((e : ℕ) × P a b e)
  sign_url_returns net raw b (from_cache ctx event now s r h) =
      let (a, e, same, after) = enter-ok net ctx event now raw s (served b) h in
      let u = (sign_url now a s).1 in
      let (expiry, p, young) =
        subst (λ (o : Answer). IsGood P now a o u) same (sign_url-IsGood P s now a r) in
      (a, e, (expiry, p))
  sign_url_returns net raw b (from_call ctx event now n s t r h l w) = elim h [
    | inl j ↦ waited-Sound net ctx event now n raw b s t (joined n) (λ a u live. live) r j l w
    | inr j ↦ waited-Sound net ctx event now n raw b s t (started n) (λ a u live. live) r j l w
  ]
