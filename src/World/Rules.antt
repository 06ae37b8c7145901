-- ===== src/World/Rules.antt =====
-- Rules for the operations of the monad: what a result that is no error satisfies, and how often a
-- request goes out under a bearer token.
use stripelink.Prelude.{
  String, ℕ, ◌+◌, ◌≤◌, ◌≡◌, subst, inl, inr, Bool, true, false, List, [], ◌∷◌, Option, some, none,
  arith, if◌then◌else◌,
}
use stripelink.Errors.{Err, Result, ok, Result-cases}
use stripelink.World.{World, M, ◌>>=◌, ◌>>◌, lift, raise, raise_if, map_err, pure, HttpRequest}

-- Whatever `m` returns satisfies `Q`.
pub record Returns {S A : Type 0} (Q : A → Type 0) (m : M S A) : Type 0 where
  pub at : (w : World S) (a : A) → (m w).0 ≡ ok a → Q a

module _ {S B : Type 0} {Q : B → Type 0} where
  pub Returns-bind :
      {A : Type 0} (m : M S A) (f : A → M S B) → ((x : A) → Returns Q (f x)) → Returns Q (m >>= f)
  Returns-bind m f hf = record {
    at = λ w b. elim (Result-cases (m w).0) [
      | inl (x, e) ↦ rw e ((hf x).at (m w).1 b)
      | inr (x, e) ↦ rw e (λ h. cc)
    ];
  }

  -- the rest may use what `m` returned
  pub Returns-bind-returned :
      {A : Type 0} {P : A → Type 0} (m : M S A) (f : A → M S B)
      → Returns P m
      → ((x : A) → P x → Returns Q (f x))
      → Returns Q (m >>= f)
  Returns-bind-returned m f hm hf = record {
    at = λ w b. elim (Result-cases (m w).0) [
      | inl (x, e) ↦ rw e ((hf x (hm.at w x e)).at (m w).1 b)
      | inr (x, e) ↦ rw e (λ h. cc)
    ];
  }

  pub Returns-pure : (b : B) → Q b → Returns Q (pure {S = S} b)
  Returns-pure b q = record { at = λ w c h. subst Q (ground arith) q }

  pub Returns-lift : (r : Result B) → ((b : B) → r ≡ ok b → Q b) → Returns Q (lift {S = S} r)
  Returns-lift r q = record { at = λ w c h. q c h }

  pub Returns-raise : (e : Err) → Returns Q (raise {S = S} e)
  Returns-raise e = record { at = λ w c h. cc }

  pub Returns-if :
      (b : Bool) (m n : M S B) → Returns Q m → Returns Q n → Returns Q (if b then m else n)
  Returns-if true m n hm hn = hm
  Returns-if false m n hm hn = hn

pub map_err-ok :
    {S A : Type 0} (f : Err → Err) (m : M S A) (w : World S) {a : A}
    → (map_err f m w).0 ≡ ok a
    → (m w).0 ≡ ok a
map_err-ok f m w h = elim (Result-cases (m w).0) [
  | inl (b, e) ↦ rw e (rw e at h)
  | inr (x, e) ↦ absurd (cc (rw e at h))
]

pub Returns-map_err :
    {S A : Type 0} {Q : A → Type 0} (f : Err → Err) (m : M S A)
    → Returns Q m
    → Returns Q (map_err f m)
Returns-map_err f m h = record { at = λ w a e. h.at w a (map_err-ok f m w e) }

-- What a bind that has returned went through.
pub bind-ok :
    {S A B : Type 0} (m : M S A) (f : A → M S B) (w : World S) {b : B}
    → ((m >>= f) w).0 ≡ ok b
    → (a : A) × ((m w).0 ≡ ok a) × ((m >>= f) w ≡ f a (m w).1)
bind-ok m f w h = elim (Result-cases (m w).0) [
  | inl (a, e) ↦ (a, e, rw e)
  | inr (x, e) ↦ absurd (cc (rw e at h))
]

-- What `m` returns and the world that it leaves satisfy `Q` together.
pub record Ensures {S A : Type 0} (Q : A → World S → Type 0) (m : M S A) : Type 0 where
  pub at : (w : World S) (a : A) → (m w).0 ≡ ok a → Q a (m w).1

module _ {S B : Type 0} {Q : B → World S → Type 0} where
  pub Ensures-bind :
      {A : Type 0} (m : M S A) (f : A → M S B) → ((x : A) → Ensures Q (f x)) → Ensures Q (m >>= f)
  Ensures-bind m f hf = record {
    at = λ w b. elim (Result-cases (m w).0) [
      | inl (x, e) ↦ rw e ((hf x).at (m w).1 b)
      | inr (x, e) ↦ rw e (λ h. cc)
    ];
  }

  -- the rest may use what `m` returned
  pub Ensures-bind-returned :
      {A : Type 0} {P : A → Type 0} (m : M S A) (f : A → M S B)
      → Returns P m
      → ((x : A) → P x → Ensures Q (f x))
      → Ensures Q (m >>= f)
  Ensures-bind-returned m f hm hf = record {
    at = λ w b. elim (Result-cases (m w).0) [
      | inl (x, e) ↦ rw e ((hf x (hm.at w x e)).at (m w).1 b)
      | inr (x, e) ↦ rw e (λ h. cc)
    ];
  }

  -- what follows keeps
  pub Ensures-then-pure :
      {A : Type 0} (m : M S A) (b : B) → Ensures (λ _ w. Q b w) m → Ensures Q (m >>= λ _. pure b)
  Ensures-then-pure m b hm = record {
    at = λ w c. elim (Result-cases (m w).0) [
      | inl (x, e) ↦ rw e (λ h. subst (λ y. Q y (m w).1) (ground (arith, h)) (hm.at w x e))
      | inr (x, e) ↦ rw e (λ h. cc)
    ];
  }

  pub Ensures-raise : (e : Err) → Ensures Q (raise {S = S} e)
  Ensures-raise e = record { at = λ w c h. cc }

  pub Ensures-if :
      (b : Bool) (m n : M S B) → Ensures Q m → Ensures Q n → Ensures Q (if b then m else n)
  Ensures-if true m n hm hn = hm
  Ensures-if false m n hm hn = hn

pub Ensures-map_err :
    {S A : Type 0} {Q : A → World S → Type 0} (f : Err → Err) (m : M S A)
    → Ensures Q m
    → Ensures Q (map_err f m)
Ensures-map_err f m h = record { at = λ w a e. h.at w a (map_err-ok f m w e) }

abbrev pub bearer_count : Option String → ℕ
bearer_count none = 0
bearer_count (some b) = 1

-- How many of the requests carry a bearer token.
abbrev pub bearers : List HttpRequest → ℕ
bearers [] = 0
bearers (r ∷ rs) = bearer_count r.bearer + bearers rs

-- `m` sends at most `k` of them, whether it returns or fails.
pub record SendsAtMost {S A : Type 0} (k : ℕ) (m : M S A) : Type 0 where
  pub at : (w : World S) → bearers (m w).1.sent ≤ bearers w.sent + k

module _ {S A B : Type 0} where
  pub SendsAtMost-bind :
      (a b c : ℕ) (m : M S A) (f : A → M S B)
      → SendsAtMost a m
      → ((x : A) → SendsAtMost b (f x))
      → a + b ≤ c
      → SendsAtMost c (m >>= f)
  SendsAtMost-bind a b c m f hm hf le = record {
    at = λ w. elim (Result-cases (m w).0) [
      | inl (x, e) ↦ rw e (omega (arith, hm.at w, (hf x).at (m w).1))
      | inr (x, e) ↦ rw e (omega (arith, hm.at w))
    ];
  }

module _ {S A : Type 0} where
  pub SendsAtMost-lift : (k : ℕ) (r : Result A) → SendsAtMost {S = S} k (lift r)
  SendsAtMost-lift k r = record { at = λ w. omega arith }

  pub SendsAtMost-if :
      (k : ℕ) (b : Bool) (m n : M S A)
      → SendsAtMost k m
      → SendsAtMost k n
      → SendsAtMost k (if b then m else n)
  SendsAtMost-if k true m n hm hn = hm
  SendsAtMost-if k false m n hm hn = hn

pub SendsAtMost-weaken :
    {S A : Type 0} (j k : ℕ) (m : M S A) → SendsAtMost j m → j ≤ k → SendsAtMost k m
SendsAtMost-weaken j k m h le = record { at = λ w. omega (arith, h.at w) }

pub SendsAtMost-guard :
    {S A : Type 0} (k : ℕ) (b : Bool) (e : Err) (m : M S A)
    → SendsAtMost k m
    → SendsAtMost k (raise_if b e >> m)
SendsAtMost-guard k true e m h = record { at = λ w. omega arith }
SendsAtMost-guard k false e m h = h
