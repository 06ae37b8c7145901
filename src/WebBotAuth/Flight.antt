-- ===== src/WebBotAuth/Flight.antt =====
-- web_bot_auth.go: the cache of SignURL, and the calls that its concurrent callers share.
--
-- A step is what one goroutine does while it holds `mu`. A webBotAuthCall is the number under which it
-- was made; its `cancelled` says that the call's context was cancelled before it had completed.
pub mod Calls
pub mod Invariant
pub mod Shared
pub mod Caller
use stripelink.Prelude.{
  ℕ, suc, ◌+◌, ◌-◌, String, ◌≡◌, Bool, true, false, not, ◌&&◌, Option, none, some, eqb, ltb, ◌==◌,
  is_some, if◌then◌else◌,
}
use stripelink.Errors.{Result, ok, err}
use stripelink.WebBotAuth.{WebBotAuthBlock, web_bot_auth_expiry_buffer}

-- webBotAuthCacheEntry
abbrev pub Entry : Type 0
Entry = WebBotAuthBlock × ℕ

-- `result` is `none` until the call has completed.
pub record SignCall : Type 0 where
  pub authority : String
  pub waiters : ℕ
  pub result : Option (Result Entry)
  pub cancelled : Bool

pub record Signer : Type 0 where
  pub cache : String → Option Entry
  pub inflight : String → Option ℕ
  pub calls : ℕ → Option SignCall
  pub made : ℕ

pub data Answer : Type 0 where
  served : WebBotAuthBlock → Answer
  -- the call to wait for, one that was there or one that has been started
  joined started : ℕ → Answer

abbrev pub put {ℓ} : {A : Type ℓ} → String → A → (String → A) → String → A
put k v f j = if j == k then v else f j

abbrev pub set_call : ℕ → SignCall → Signer → Signer
set_call n c s = record s { calls = λ k. if eqb k n then some c else s.calls k }

-- now.Before(expiresAt.Add(-webBotAuthExpiryBuffer))
abbrev pub is_current : ℕ → ℕ → Bool
is_current now expires_at = ltb (now + web_bot_auth_expiry_buffer) expires_at

abbrev pub usable : ℕ → Option Entry → Option WebBotAuthBlock
usable now none = none
usable now (some (block, expires_at)) = if is_current now expires_at then some block else none

abbrev with_waiter : SignCall → SignCall
with_waiter c = record c { waiters = c.waiters + 1 }

abbrev pub join_call : ℕ → Option SignCall → Signer → Signer
join_call n none s = s
join_call n (some c) s = set_call n (with_waiter c) s

abbrev pub new_call : String → SignCall
new_call a = record { authority = a; waiters = 1; result = none; cancelled = false }

abbrev pub start_call : String → Signer → Signer
start_call a s = record (set_call s.made (new_call a) s) {
  inflight = put a (some s.made) s.inflight;
  made = suc s.made;
}

-- r.inflight[authority], when the cache has no answer
abbrev pub share : String → Option ℕ → Signer → Answer × Signer
share a (some n) s = (joined n, join_call n (s.calls n) s)
share a none s = (started s.made, start_call a s)

abbrev pub evict : String → Signer → Signer
evict a s = record s { cache = put a none s.cache }

abbrev pub answer_from : String → Option WebBotAuthBlock → Signer → Answer × Signer
answer_from a (some block) s = (served block, s)
answer_from a none s = share a (s.inflight a) (evict a s)

-- SignURL while it holds `mu`
unfoldable pub sign_url : ℕ → String → Signer → Answer × Signer
sign_url now a s = answer_from a (usable now (s.cache a)) s

-- if r.inflight[authority] == call { delete(r.inflight, authority) }
abbrev pub unless_call : ℕ → Option ℕ → Option ℕ
unless_call n none = none
unless_call n (some m) = if eqb m n then none else some m

abbrev pub forget : ℕ → String → Signer → Signer
forget n a s = record s { inflight = put a (unless_call n (s.inflight a)) s.inflight }

-- if call.waiters > 0 { call.waiters-- }
abbrev pub without_waiter : SignCall → SignCall
without_waiter c = record c { waiters = c.waiters - 1 }

abbrev pub release_call : ℕ → Bool → Option SignCall → Signer → Signer
release_call n canceled none s = s
release_call n canceled (some c) s =
    if canceled && eqb (c.waiters - 1) 0 && not (is_some c.result)
    then forget n c.authority (set_call n (record (without_waiter c) { cancelled = true }) s)
    else set_call n (without_waiter c) s

unfoldable pub release_web_bot_waiter : ℕ → Bool → Signer → Signer
release_web_bot_waiter n canceled s = release_call n canceled (s.calls n) s

abbrev pub is_inflight : ℕ → Option ℕ → Bool
is_inflight n none = false
is_inflight n (some m) = eqb m n

abbrev pub keep_entry : ℕ → String → Result Entry → Signer → Signer
keep_entry now a (err e) s = s
keep_entry now a (ok (block, expires_at)) s =
    if is_current now expires_at
    then record s { cache = put a (some (block, expires_at)) s.cache }
    else s

abbrev pub complete : ℕ → ℕ → Result Entry → Option SignCall → Signer → Signer
complete now n r none s = s
complete now n r (some c) s =
    let done = set_call n (record c { result = some r }) s in
    if is_inflight n (s.inflight c.authority)
    then keep_entry now c.authority r (forget n c.authority done)
    else done

-- signWebBotAuth once the fetch has returned
unfoldable pub sign_web_bot_auth : ℕ → ℕ → Result Entry → Signer → Signer
sign_web_bot_auth now n r s = complete now n r (s.calls n) s

-- The authority of a call that runs and is not cancelled.
abbrev pub live_for : Option SignCall → Option String
live_for none = none
live_for (some c) =
    if is_some c.result then none else if c.cancelled then none else some c.authority

-- What a fetch for an authority returns satisfies `P`.
pub data SignStep (P : String → WebBotAuthBlock → ℕ → Type 0) (s : Signer) : Signer → Type 0 where
  signs : (now : ℕ) (a : String) → SignStep P s (sign_url now a s).1
  releases : (n : ℕ) (canceled : Bool) → SignStep P s (release_web_bot_waiter n canceled s)
  completes :
      (now n : ℕ) (r : Result Entry) (c : SignCall)
      → s.calls n ≡ some c
      → c.result ≡ none
      → ((block : WebBotAuthBlock) (e : ℕ) → r ≡ ok (block, e) → P c.authority block e)
      → SignStep P s (sign_web_bot_auth now n r s)

-- A signer as it is made.
abbrev pub new_signer : Signer
new_signer = record { cache = λ _. none; inflight = λ _. none; calls = λ _. none; made = 0 }

pub data Reached (P : String → WebBotAuthBlock → ℕ → Type 0) : Signer → Type 0 where
  made_new : Reached P new_signer
  after_step : {s t : Signer} → Reached P s → SignStep P s t → Reached P t
