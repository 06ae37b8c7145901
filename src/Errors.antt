-- ===== src/Errors.antt =====
-- errors.go: the sentinels, APIError, TransportError, and how errors.Is and errors.AsType walk the
-- chain that fmt.Errorf's %w and errors.Join build.
use stripelink.Prelude.{
  ℕ, String, ◌≡◌, ◌⊎◌, inl, inr, refl, arith, Bool, true, false, ◌||◌, Option, none, some, List,
  eqb,
}

-- The package's sentinels, the unexported one of auth.go, and the two of package context.
pub data Sentinel : Type 0 where
  not_found authorization_pending slow_down not_authenticated no_pending_device_auth : Sentinel
  invalid_configuration invalid_argument response_too_large storage_too_large redirect : Sentinel
  device_auth_superseded canceled deadline_exceeded : Sentinel

abbrev pub index : Sentinel → ℕ
index not_found = 0
index authorization_pending = 1
index slow_down = 2
index not_authenticated = 3
index no_pending_device_auth = 4
index invalid_configuration = 5
index invalid_argument = 6
index response_too_large = 7
index storage_too_large = 8
index redirect = 9
index device_auth_superseded = 10
index canceled = 11
index deadline_exceeded = 12

-- A message is kept as the expression that builds it.
pub data Message : Type 0 where
  text : String → Message
  -- fmt.Sprintf("%s (%d): %s", operation, status, message)
  operation : String → ℕ → Message → Message
  -- extractAPIErrorMessage(body)
  remote : List ℕ → Message

-- `details` is `none` where the body was no JSON.
pub record ApiError : Type 0 where
  pub code : String
  pub message : Message
  pub status : ℕ
  pub raw_body : List ℕ
  pub details : Option (List ℕ)

pub data Err : Type 0 where
  -- one of the sentinels itself
  sentinel : Sentinel → Err
  -- errors.New, and fmt.Errorf with no %w
  plain : String → Err
  -- fmt.Errorf("<text>: %w", err); with two %w the second part is a `join`
  wrap : String → Err → Err
  join : Err → Err → Err
  api : ApiError → Err
  -- a TransportError: method, URL and cause; its code is always "transport_error"
  transport : String → String → Err → Err

-- errors.Is(err, target)
abbrev pub is : Sentinel → Err → Bool
is t (sentinel s) = eqb (index t) (index s)
is t (plain m) = false
is t (wrap m e) = is t e
is t (join e f) = is t e || is t f
is t (api a) = false
is t (transport m u e) = is t e

abbrev or_else : Option ApiError → Option ApiError → Option ApiError
or_else (some a) o = some a
or_else none o = o

-- errors.AsType[*APIError](err): the first in the chain, depth first.
abbrev pub as_api : Err → Option ApiError
as_api (sentinel s) = none
as_api (plain m) = none
as_api (wrap m e) = as_api e
as_api (join e f) = or_else (as_api e) (as_api f)
as_api (api a) = some a
as_api (transport m u e) = as_api e

-- What a fallible call returns: Go's (value, error) with one of the two.
pub data Result {ℓ} (V : Type ℓ) : Type ℓ where
  err : Err → Result V
  ok : V → Result V

-- An error goes past the rest of the call.
abbrev and_then {ℓ κ} : {V : Type ℓ} {W : Type κ} → (V → Result W) → Result V → Result W
and_then next (err failure) = err failure
and_then next (ok value) = next value

infixl 5 ◌>>=◌ ◌>>◌
abbrev pub ◌>>=◌ {ℓ κ} : {V : Type ℓ} {W : Type κ} → Result V → (V → Result W) → Result W
call >>= next = and_then next call

-- if test { return err }
abbrev pub fail_if : Bool → Err → Result (Unit {0})
fail_if false failure = ok tt
fail_if true failure = err failure

abbrev pub ◌>>◌ {ℓ} : {V : Type ℓ} → Result (Unit {0}) → Result V → Result V
call >> rest = call >>= λ _. rest

abbrev pub invalid : String → Err
invalid message = wrap message (sentinel invalid_argument)

abbrev pub misconfigured : String → Err
misconfigured message = wrap message (sentinel invalid_configuration)

-- A chain that has returned went through its first call.
pub >>=-eq-ok {ℓ κ} :
    {V : Type ℓ} {W : Type κ} (call : Result V) (next : V → Result W) {w : W}
    → (call >>= next) ≡ ok w
    → (v : V) × (call ≡ ok v) × (next v ≡ ok w)
>>=-eq-ok (err failure) next h = cc
>>=-eq-ok (ok value) next h = (value, refl, h)

-- `is` finds a sentinel under any number of texts.
is-wrap : (t : Sentinel) (m : String) → is t (wrap m (sentinel t)) ≡ true
is-wrap t m = ground arith

pub Result-cases {ℓ} :
    {A : Type ℓ} (r : Result A) → ((a : A) × (r ≡ ok a)) ⊎ ((e : Err) × (r ≡ err e))
Result-cases (ok a) = inl (a, refl)
Result-cases (err e) = inr (e, refl)
