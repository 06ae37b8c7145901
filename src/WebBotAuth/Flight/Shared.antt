-- ===== src/WebBotAuth/Flight/Shared.antt =====
-- One live call for each authority, and a cache of what was fetched for its key.
use stripelink.Prelude.{ℕ, ◌+◌, ◌<◌, String, ◌≡◌, inl, inr, Option-cases, Option, none, some, arith}
use stripelink.WebBotAuth.{WebBotAuthBlock, web_bot_auth_expiry_buffer}
use stripelink.WebBotAuth.Flight.{
  Entry, Signer, Answer, served, joined, started, join_call, share, evict, usable, sign_url,
  live_for, Reached,
}
use stripelink.WebBotAuth.Flight.Invariant.{IsShared, evict-IsShared, Reached-IsShared}

module _ (P : String → WebBotAuthBlock → ℕ → Type 0) where
  -- What an answer for the authority `a` at the time `now` promises, over the signer that it leaves.
  abbrev pub IsGood : ℕ → String → Answer → Signer → Type 0
  IsGood now a (served b) s = (e : ℕ) × P a b e × (now + web_bot_auth_expiry_buffer < e)
  IsGood now a (joined n) s = live_for (s.calls n) ≡ some a
  IsGood now a (started n) s = live_for (s.calls n) ≡ some a

  join_call-live :
      (a : String) (n : ℕ) (s : Signer)
      → live_for (s.calls n) ≡ some a
      → live_for ((join_call n (s.calls n) s).calls n) ≡ some a
  join_call-live a n s h = ground (arith, h)

  usable-cached :
      (now : ℕ) (o : Option Entry) (b : WebBotAuthBlock)
      → usable now o ≡ some b
      → (e : ℕ) × (o ≡ some (b, e)) × (now + web_bot_auth_expiry_buffer < e)
  usable-cached now none b h = cc
  usable-cached now (some (block, e)) b h = (e, ground (arith, h), ground (arith, h))

  share-IsGood :
      (now : ℕ) (a : String) (s : Signer)
      → IsShared P s
      → let o = share a (s.inflight a) s in IsGood now a o.0 o.1
  share-IsGood now a s i = elim (Option-cases (s.inflight a)) [
    | inl free ↦ rw free (ground arith)
    | inr (n, flies) ↦ rw flies (join_call-live a n s (i.flying a n flies))
  ]

  -- In every state that concurrent callers can reach, SignURL serves only a block that expires more than
  -- 30 seconds from now and has, for the authority, the property `P` that the fetches for an authority
  -- give; and otherwise it waits only for a call that runs for the authority and has not been
  -- cancelled.
  pub sign_url-IsGood :
      (s : Signer) (now : ℕ) (a : String)
      → Reached P s
      → let o = sign_url now a s in IsGood now a o.0 o.1
  unfolding sign_url
  sign_url-IsGood s now a r =
      let i = Reached-IsShared P r in
      elim (Option-cases (usable now (s.cache a))) [
        | inl missing ↦ rw missing (share-IsGood now a (evict a s) (evict-IsShared P a s i))
        | inr (b, found) ↦
            let (e, hit, young) = usable-cached now (s.cache a) b found in
            rw found (e, i.cached a b e hit, young)
      ]

  -- In every state that concurrent callers can reach, at most one call for an authority runs that has
  -- not been cancelled.
  pub one_live_call :
      (s : Signer) (a : String) (m n : ℕ)
      → Reached P s
      → live_for (s.calls m) ≡ some a
      → live_for (s.calls n) ≡ some a
      → m ≡ n
  one_live_call s a m n r hm hn =
      let i = Reached-IsShared P r in ground (arith, i.live a m hm, i.live a n hn)
