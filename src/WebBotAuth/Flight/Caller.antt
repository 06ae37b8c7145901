-- ===== src/WebBotAuth/Flight/Caller.antt =====
-- web_bot_auth.go: SignURL as one caller runs it, up to its wait and from the wait on, with what other
-- goroutines do in between as steps of the signer.
pub mod Bound
use stripelink.Prelude.{ℕ, String, true, false, Option, none, some, List, ◌≡◌, ◌⊎◌}
use stripelink.Errors.{Err, plain, Result, ok, err, invalid}
use stripelink.World.{Context, nil_context, context, status_of}
use stripelink.WebBotAuth.{WebBotAuthBlock, Net, web_bot_authority}
use stripelink.WebBotAuth.Flight.{
  Entry, SignCall, Signer, Answer, served, joined, started, Reached, sign_url,
  release_web_bot_waiter, SignStep,
}

-- An error of the URL comes before ctx.Err().
abbrev pub live_authority : Result (Unit {0}) → Result String → Result String
live_authority status (err e) = err (invalid "invalid merchant URL")
live_authority (ok _) (ok authority) = ok authority
live_authority (err e) (ok authority) = err e

abbrev pub locked : ℕ → Result String → Signer → Result Answer × Signer
locked now (err e) s = (err e, s)
locked now (ok authority) s = let (answer, t) = sign_url now authority s in (ok answer, t)

-- The checks of SignURL at an event, and its critical section.
unfoldable pub enter : Net → Context → ℕ → ℕ → String → Signer → Result Answer × Signer
enter net nil_context event now raw s = (err (invalid "context must not be nil"), s)
enter net (context failing) event now raw s =
    locked now (live_authority (status_of (context failing) event now) (web_bot_authority net raw))
      s

-- Which case of the select of waitForWebBotAuth runs.
pub data Wake : Type 0 where
  finished : Wake
  -- with ctx.Err()
  ended : Err → Wake

abbrev result_of : Result Entry → Result WebBotAuthBlock
result_of (err e) = err e
result_of (ok (block, expires_at)) = ok block

abbrev pub read_result : Option (Result Entry) → Result WebBotAuthBlock
read_result none = err (plain "the call has not returned")
read_result (some r) = result_of r

-- call.err and call.block: a call whose `done` is closed has a result
abbrev pub read_call : Option SignCall → Result WebBotAuthBlock
read_call none = err (plain "no call")
read_call (some c) = read_result c.result

-- waitForWebBotAuth when it wakes
unfoldable pub wait_for_web_bot_auth : ℕ → Wake → Signer → Result WebBotAuthBlock × Signer
wait_for_web_bot_auth n finished s = (read_call (s.calls n), release_web_bot_waiter n false s)
wait_for_web_bot_auth n (ended e) s = (err e, release_web_bot_waiter n true s)

-- What other goroutines do to the signer, in any number of steps.
pub data Later (P : String → WebBotAuthBlock → ℕ → Type 0) (s : Signer) : Signer → Type 0 where
  at_once : Later P s s
  and_then : {t u : Signer} → Later P s t → SignStep P t u → Later P s u

-- How SignURL comes to return a block for a URL, with a fetch that gives what satisfies `P`.
pub data Returned (P : String → WebBotAuthBlock → ℕ → Type 0) (net : Net) (raw : String)
    (b : WebBotAuthBlock) : Type 0 where
  from_cache :
      (ctx : Context) (event now : ℕ) (s : Signer)
      → Reached P s
      → (enter net ctx event now raw s).0 ≡ ok (served b)
      → Returned P net raw b
  from_call :
      (ctx : Context) (event now n : ℕ) (s t : Signer)
      → Reached P s
      → ((enter net ctx event now raw s).0 ≡ ok (joined n))
        ⊎ ((enter net ctx event now raw s).0 ≡ ok (started n))
      → Later P (enter net ctx event now raw s).1 t
      → (wait_for_web_bot_auth n finished t).0 ≡ ok b
      → Returned P net raw b
