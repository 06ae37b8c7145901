-- ===== src/TokenProvider/Flight.antt =====
-- tokens.go: how the concurrent callers of one provider share a refresh.
--
-- A step is what one goroutine does while it holds `mu`, or its taking or leaving of the decision
-- gate. A refreshCall is the number under which it was made.
pub mod Single
use stripelink.Prelude.{
  ℕ, zero, suc, ◌+◌, ◌-◌, ◌≡◌, Bool, true, false, not, Option, none, some, eqb, is_some,
  if◌then◌else◌,
}
use stripelink.Errors.{Result}
use stripelink.Session.{AuthTokens}

-- `result` is `none` until `done` is closed.
pub record RefreshCall : Type 0 where
  pub waiters : ℕ
  pub source : AuthTokens
  pub result : Option (Result AuthTokens)

pub record Provider : Type 0 where
  -- whether a caller holds `decision`
  pub deciding : Bool
  pub inflight : Option ℕ
  pub calls : ℕ → Option RefreshCall
  pub made : ℕ

abbrev pub change : (RefreshCall → RefreshCall) → Option RefreshCall → Option RefreshCall
change f none = none
change f (some c) = some (f c)

abbrev pub on_call : ℕ → (RefreshCall → RefreshCall) → Provider → ℕ → Option RefreshCall
on_call n f p k = if eqb k n then change f (p.calls k) else p.calls k

abbrev pub add_waiter : RefreshCall → RefreshCall
add_waiter c = record c { waiters = c.waiters + 1 }

-- if call.waiters > 0 { call.waiters-- }
abbrev pub drop_waiter : RefreshCall → RefreshCall
drop_waiter c = record c { waiters = c.waiters - 1 }

-- A caller that finds call `n` in flight.
unfoldable pub join_refresh : ℕ → Provider → Provider
join_refresh n p = record p { calls = on_call n add_waiter p }

-- A caller that starts a refresh; it gives the decision gate back afterwards.
unfoldable pub publish : AuthTokens → Provider → Provider
publish source p = record p {
  inflight = some p.made;
  calls = λ k.
      if eqb k p.made
      then some (record { waiters = 1; source = source; result = none })
      else p.calls k;
  made = suc p.made;
}

-- if p.inflight == call { p.inflight = nil }
abbrev pub cleared : ℕ → Option ℕ → Option ℕ
cleared n none = none
cleared n (some m) = if eqb m n then none else some m

unfoldable pub finish_refresh : ℕ → Result AuthTokens → Provider → Provider
finish_refresh n r p = record p {
  inflight = cleared n p.inflight;
  calls = on_call n (λ c. record c { result = some r }) p;
}

-- A waiter whose context has ended.
unfoldable pub stop_waiting : ℕ → Provider → Provider
stop_waiting n p = record p { calls = on_call n drop_waiter p }

abbrev pub is_running : Option RefreshCall → Bool
is_running none = false
is_running (some c) = not (is_some c.result)

pub data Step (p : Provider) : Provider → Type 0 where
  decides : p.deciding ≡ false → Step p (record p { deciding = true })
  -- after a token, an error, a call that was joined, or one that was started
  decided : p.deciding ≡ true → Step p (record p { deciding = false })
  joins : (n : ℕ) → p.inflight ≡ some n → Step p (join_refresh n p)
  publishes :
      (source : AuthTokens) → p.deciding ≡ true → p.inflight ≡ none → Step p (publish source p)
  -- any return of runRefresh for any call
  finishes : (n : ℕ) (r : Result AuthTokens) → Step p (finish_refresh n r p)
  stops : (n : ℕ) → Step p (stop_waiting n p)

-- A provider as it is made.
abbrev pub idle : Provider
idle = record { deciding = false; inflight = none; calls = λ _. none; made = 0 }

pub data Reaches (p : Provider) : Provider → Type 0 where
  stays : Reaches p p
  goes : {q r : Provider} → Reaches p q → Step q r → Reaches p r
