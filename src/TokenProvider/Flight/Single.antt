-- ===== src/TokenProvider/Flight/Single.antt =====
-- One refresh at a time.
use stripelink.Prelude.{
  ℕ, ◌≤◌, ◌≡◌, ◌≢◌, refl, ap, sym, ◌∙◌, inl, inr, Bool-cases, true, false, not, Option, none, some,
  eqb, is_some, arith,
}
use stripelink.Errors.{Result}
use stripelink.Session.{AuthTokens}
use stripelink.TokenProvider.Flight.{
  RefreshCall, Provider, change, on_call, add_waiter, drop_waiter, join_refresh, publish, cleared,
  finish_refresh, stop_waiting, is_running, Step, decides, decided, joins, publishes, finishes,
  stops, idle, Reaches, stays, goes,
}

-- The call in flight is the one that runs.
pub record IsSingle (p : Provider) : Type 0 where
  pub flying : (n : ℕ) → is_running (p.calls n) ≡ true → p.inflight ≡ some n
  pub running : (n : ℕ) → p.inflight ≡ some n → is_running (p.calls n) ≡ true
  pub fresh : (n : ℕ) → p.made ≤ n → p.calls n ≡ none

change-running :
    (f : RefreshCall → RefreshCall) (o : Option RefreshCall)
    → ((c : RefreshCall) → (f c).result ≡ c.result)
    → is_running (change f o) ≡ is_running o
change-running f none h = refl
change-running f (some c) h = ap (λ r. not (is_some r)) (h c)

on_call-running :
    (n k : ℕ) (f : RefreshCall → RefreshCall) (p : Provider)
    → ((c : RefreshCall) → (f c).result ≡ c.result)
    → is_running (on_call n f p k) ≡ is_running (p.calls k)
on_call-running n k f p h = elim (Bool-cases (eqb k n)) [
  | inl e ↦ rw e (change-running f (p.calls k) h)
  | inr e ↦ rw e
]

on_call-none :
    (n k : ℕ) (f : RefreshCall → RefreshCall) (p : Provider)
    → p.calls k ≡ none
    → on_call n f p k ≡ none
on_call-none n k f p h = ground (arith, h)

-- A step on a waiter's count alone.
waiters-IsSingle :
    (n : ℕ) (f : RefreshCall → RefreshCall) (p : Provider)
    → ((c : RefreshCall) → (f c).result ≡ c.result)
    → IsSingle p
    → IsSingle (record p { calls = on_call n f p })
waiters-IsSingle n f p keeps s = record {
  flying = λ k h. s.flying k (sym (on_call-running n k f p keeps) ∙ h);
  running = λ k h. on_call-running n k f p keeps ∙ s.running k h;
  fresh = λ k h. on_call-none n k f p (s.fresh k h);
}

publish-IsSingle :
    (source : AuthTokens) (p : Provider)
    → p.inflight ≡ none
    → IsSingle p
    → IsSingle (publish source p)
unfolding publish
publish-IsSingle source p free s = record {
  flying = λ k h. elim (Bool-cases (eqb k p.made)) [
    | inl e ↦ let same : p.made ≡ k = ground (arith, e) in ap some same
    | inr e ↦ absurd (cc (s.flying k (rw e at h), free))
  ];
  running = λ k h. let same : k ≡ p.made = ground (arith, h) in rw same (ground arith);
  fresh = λ k h. let new : eqb k p.made ≡ false = ground arith in rw new (s.fresh k (omega arith));
}

cleared-some : (n k : ℕ) (o : Option ℕ) → cleared n o ≡ some k → (o ≡ some k) × (k ≢ n)
cleared-some n k none h = cc
cleared-some n k (some m) h = ground arith

finish_refresh-IsSingle :
    (n : ℕ) (r : Result AuthTokens) (p : Provider) → IsSingle p → IsSingle (finish_refresh n r p)
unfolding finish_refresh
finish_refresh-IsSingle n r p s = record {
  flying = λ k h. elim (Bool-cases (eqb k n)) [
    | inl e ↦ absurd (resolved (p.calls k) (rw e at h))
    | inr e ↦ rw (s.flying k (rw e at h)) (rw e)
  ];
  running = λ k h.
      let (old, other) = cleared-some n k p.inflight h in
      let e : eqb k n ≡ false = ground arith in rw e (s.running k old);
  fresh = λ k h. on_call-none n k (λ c. record c { result = some r }) p (s.fresh k h);
}
  where
    resolved :
        (o : Option RefreshCall) → is_running (change (λ c. record c { result = some r }) o) ≢ true
    resolved none h = cc
    resolved (some c) h = cc

pub Step-IsSingle : {p q : Provider} → Step p q → IsSingle p → IsSingle q
unfolding join_refresh stop_waiting
Step-IsSingle (decides d) s = record { flying = s.flying; running = s.running; fresh = s.fresh }
Step-IsSingle (decided d) s = record { flying = s.flying; running = s.running; fresh = s.fresh }
Step-IsSingle {p} (joins n h) s = waiters-IsSingle n add_waiter p (λ c. refl) s
Step-IsSingle {p} (publishes source d h) s = publish-IsSingle source p h s
Step-IsSingle {p} (finishes n r) s = finish_refresh-IsSingle n r p s
Step-IsSingle {p} (stops n) s = waiters-IsSingle n drop_waiter p (λ c. refl) s

pub Reaches-IsSingle : {p : Provider} → Reaches idle p → IsSingle p
Reaches-IsSingle stays = record { flying = λ n h. cc; running = λ n h. cc; fresh = λ n h. refl }
Reaches-IsSingle (goes h step) = Step-IsSingle step (Reaches-IsSingle h)

-- At most one refresh runs at any time, however the callers of a provider interleave, and it is the
-- one that later callers join.
pub single_flight :
    (p : Provider) (m n : ℕ)
    → Reaches idle p
    → is_running (p.calls m) ≡ true
    → is_running (p.calls n) ≡ true
    → (m ≡ n) × (p.inflight ≡ some m)
single_flight p m n h a b =
    let s = Reaches-IsSingle h in
    let first = s.flying m a in (ground (arith, first, s.flying n b), first)
