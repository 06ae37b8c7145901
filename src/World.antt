-- ===== src/World.antt =====
-- What surrounds the client: the clock, the contexts, the other users of the storage and the HTTP
-- peer; and the monad of operations that run against them.
--
-- The environment is a record of functions of an event counter, so every theorem holds for each
-- order in which cancellations, other clients' commits and answers can arrive.
pub mod Rules
pub mod Clock
use stripelink.Prelude.{
  ℕ, ◌+◌, String, ◌≡◌, Bool, true, false, Option, none, some, List, [], ◌∷◌, leb, if◌then◌else◌,
}
use stripelink.Json.{Json}
use stripelink.Errors.{Err, sentinel, deadline_exceeded, Result, ok, err, invalid}

-- A request as it reaches http.Client.Do. `form` keeps the values that url.Values.Encode encodes.
pub data Payload : Type 0 where
  no_body : Payload
  form : List (String × String) → Payload
  json : List ℕ → Payload

pub data Method : Type 0 where
  get post : Method

abbrev pub method_name : Method → String
method_name get = "GET"
method_name post = "POST"

-- `bearer` is the Authorization header that the transport sets, `header` the caller's headers.
pub record HttpRequest : Type 0 where
  pub method : Method
  pub url : String
  pub header : List (String × String)
  pub bearer : Option String
  pub body : Payload

-- A response body as a reader: bytes, and the error that ends them if it is no EOF.
pub record Stream : Type 0 where
  pub bytes : List ℕ
  pub failure : Option Err
  pub close_failure : Option Err

-- What http.Client.Do returns: an error, or a status and the body, which may be nil.
pub data Exchange : Type 0 where
  failed : Err → Exchange
  answered : ℕ → Option Stream → Exchange

-- The environment of a client whose storage has states `S`.
pub record Env (S : Type 0) : Type 0 where
  -- time that passes in an event, in nanoseconds
  pub elapsed : ℕ → ℕ
  -- what other goroutines, clients and processes have done to the storage by then
  pub others : ℕ → S → S
  pub answer : ℕ → HttpRequest → Exchange
  -- http.NewRequestWithContext: `none` where it makes the request
  pub construct : HttpRequest → Option Err
  -- encoding/json's reader: `none` exactly where json.Valid is false
  pub parse_json : List ℕ → Option Json
  -- os.Hostname, or the test hook
  pub hostname : Result String

pub record World (S : Type 0) : Type 0 where
  pub store : S
  -- nanoseconds since the epoch
  pub now : ℕ
  pub events : ℕ
  -- every request that was sent, the latest first
  pub sent : List HttpRequest
  -- the events at which others have acted, the latest first: what has happened, which no code reads
  pub turns : List ℕ
  -- the events at which a lock file was granted, likewise
  pub grants : List ℕ

-- A context: nil, or what context.Cause (or Err) says at an event and a time.
pub data Context : Type 0 where
  nil_context : Context
  context : (ℕ → ℕ → Option Err) → Context

abbrev pub M : Type 0 → Type 0 → Type 0
M S A = World S → Result A × World S

module _ {S A : Type 0} where
  abbrev pub pure : A → M S A
  pure a w = (ok a, w)

  abbrev pub raise : Err → M S A
  raise e w = (err e, w)

  abbrev pub lift : Result A → M S A
  lift r w = (r, w)

abbrev continue : {S A B : Type 0} → Result A → (A → M S B) → M S B
continue (ok a) f w = f a w
continue (err e) f w = (err e, w)

infixl 5 ◌>>=◌ ◌>>◌
abbrev pub ◌>>=◌ : {S A B : Type 0} → M S A → (A → M S B) → M S B
◌>>=◌ m f w = let (r, w') = m w in continue r f w'

abbrev pub ◌>>◌ : {S B : Type 0} → M S (Unit {0}) → M S B → M S B
m >> k = m >>= λ _. k

-- if test { return err }
abbrev pub raise_if : {S : Type 0} → Bool → Err → M S (Unit {0})
raise_if true e w = (err e, w)
raise_if false e w = (ok tt, w)

-- if err := m; err != nil { return fmt.Errorf("<message>: %w", err) }
abbrev pub map_err : {S A : Type 0} → (Err → Err) → M S A → M S A
map_err f m w = let (r, w') = m w in (elim r [ ok a ↦ ok a | err e ↦ err (f e) ], w')

-- time.Now
abbrev pub time_now : {S : Type 0} → M S ℕ
time_now w = (ok w.now, w)

-- The lock file is granted.
abbrev pub note_grant : {S : Type 0} → M S (Unit {0})
note_grant w = (ok tt, record w { grants = w.events ∷ w.grants })

-- Time passes and others act.
abbrev pub wait : {S : Type 0} → Env S → M S (Unit {0})
wait env w = (
  ok tt,
  record w {
    store = env.others w.events w.store;
    now = w.now + env.elapsed w.events;
    events = w.events + 1;
    turns = w.events ∷ w.turns;
  },
)

unfoldable pub status_of : Context → ℕ → ℕ → Result (Unit {0})
status_of nil_context n t = err (invalid "context must not be nil")
status_of (context failing) n t = elim (failing n t) [ none ↦ ok tt | some e ↦ err e ]

-- contextFailure and requireContext: one look at the context, which may be different the next time.
abbrev pub context_failure : {S : Type 0} → Context → M S (Unit {0})
context_failure ctx w = (status_of ctx w.events w.now, record w { events = w.events + 1 })

-- http.Client.Do: the request is on the wire, and until the answer is there time passes and others
-- act.
abbrev pub exchange : {S : Type 0} → Env S → HttpRequest → M S Exchange
exchange env r w = (
  ok (env.answer w.events r),
  record w {
    store = env.others w.events w.store;
    now = w.now + env.elapsed w.events;
    events = w.events + 1;
    turns = w.events ∷ w.turns;
    sent = r ∷ w.sent;
  },
)

-- time.NewTimer(d) against ctx.Done(): the timer fires no earlier than after `d`, unless the context
-- ends first.
abbrev pub sleep : {S : Type 0} → Env S → Context → ℕ → M S (Unit {0})
sleep env ctx d w =
    let r = status_of ctx w.events w.now in
    let pause : ℕ = elim r [ ok _ ↦ d | err _ ↦ 0 ] in
    (
      r,
      record w {
        store = env.others w.events w.store;
        now = w.now + pause + env.elapsed w.events;
        events = w.events + 1;
        turns = w.events ∷ w.turns;
      },
    )

-- context.WithDeadline(ctx, t)
abbrev pub with_deadline : Context → ℕ → Context
with_deadline nil_context t = nil_context
with_deadline (context failing) t = context λ n now. elim (failing n now) [
  | some e ↦ some e
  | none ↦ if leb t now then some (sentinel deadline_exceeded) else none
]

-- context.WithTimeout(context.WithoutCancel(ctx), d) at the time `start`
abbrev pub detached : ℕ → ℕ → Context
detached start d =
    context λ n now. if leb (start + d) now then some (sentinel deadline_exceeded) else none
