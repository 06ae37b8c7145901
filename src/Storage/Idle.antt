-- ===== src/Storage/Idle.antt =====
-- Operations that leave the store to the others, and what holds of a result behind them.
use stripelink.Prelude.{
  ℕ, ◌≡◌, refl, subst, inl, inr, Bool, true, false, List, arith, if◌then◌else◌,
}
use stripelink.Errors.{Err, Result, ok, Result-cases}
use stripelink.World.{
  World, M, Env, Context, ◌>>=◌, ◌>>◌, lift, pure, raise, raise_if, map_err, time_now, exchange,
  context_failure, HttpRequest,
}
use stripelink.World.Rules.{Returns, map_err-ok}
use stripelink.Storage.{Others, here, next}
use stripelink.Storage.Waits.{Others-trans}

-- The store after it is as the others have left it.
pub record Idle {S A : Type 0} (env : Env S) (m : M S A) : Type 0 where
  pub at : (w : World S) → let w' = (m w).1 in Others env w.store w.turns w'.store w'.turns

module _ {S : Type 0} (env : Env S) where
  pub Idle-bind :
      {A B : Type 0} (m : M S A) (f : A → M S B)
      → Idle env m
      → ((a : A) → Idle env (f a))
      → Idle env (m >>= f)
  Idle-bind m f hm hf = record {
    at = λ w. elim (Result-cases (m w).0) [
      | inl (x, e) ↦ rw e (Others-trans (hm.at w) ((hf x).at (m w).1))
      | inr (x, e) ↦ rw e (hm.at w)
    ];
  }

  pub Idle-guard :
      {A : Type 0} (b : Bool) (e : Err) (m : M S A) → Idle env m → Idle env (raise_if b e >> m)
  Idle-guard true e m h = record { at = λ w. here }
  Idle-guard false e m h = record { at = λ w. h.at w }

  pub Idle-raise_if : (b : Bool) (e : Err) → Idle env (raise_if b e)
  Idle-raise_if true e = record { at = λ w. here }
  Idle-raise_if false e = record { at = λ w. here }

  pub Idle-lift : {A : Type 0} (r : Result A) → Idle env (lift r)
  Idle-lift r = record { at = λ w. here }

  pub Idle-map_err : {A : Type 0} (f : Err → Err) (m : M S A) → Idle env m → Idle env (map_err f m)
  Idle-map_err f m h = record { at = λ w. h.at w }

  pub Idle-time_now : Idle env time_now
  Idle-time_now = record { at = λ w. here }

  pub Idle-context_failure : (ctx : Context) → Idle env (context_failure ctx)
  Idle-context_failure ctx = record { at = λ w. here }

  pub Idle-exchange : (r : HttpRequest) → Idle env (exchange env r)
  Idle-exchange r = record { at = λ w. next w.events here refl }

-- What a result of `m` and the world that it leaves satisfy, if only others have acted on the store since
-- it was `s` at the turns `before`.
pub record Since {S A : Type 0} (env : Env S) (s : S) (before : List ℕ) (Q : A → World S → Type 0)
    (m : M S A) : Type 0 where
  pub at :
      (w : World S) (a : A) → Others env s before w.store w.turns → (m w).0 ≡ ok a → Q a (m w).1

module _ {S B : Type 0} {env : Env S} {s : S} {before : List ℕ} {Q : B → World S → Type 0} where
  -- the rest may use what `m` returned
  pub Since-bind-returned :
      {A : Type 0} {P : A → Type 0} (m : M S A) (f : A → M S B)
      → Idle env m
      → Returns P m
      → ((x : A) → P x → Since env s before Q (f x))
      → Since env s before Q (m >>= f)
  Since-bind-returned m f idle hm hf = record {
    at = λ w b r. elim (Result-cases (m w).0) [
      | inl (x, e) ↦ rw e (λ h. (hf x (hm.at w x e)).at (m w).1 b (Others-trans r (idle.at w)) h)
      | inr (x, e) ↦ rw e (λ h. cc)
    ];
  }

  pub Since-bind :
      {A : Type 0} (m : M S A) (f : A → M S B)
      → Idle env m
      → ((x : A) → Since env s before Q (f x))
      → Since env s before Q (m >>= f)
  Since-bind m f idle hf =
      Since-bind-returned {P = λ _. Unit {0}} m f idle (record { at = λ w a e. tt }) (λ x p. hf x)

  pub Since-then-pure :
      {A : Type 0} (m : M S A) (b : B)
      → Since env s before (λ _ w. Q b w) m
      → Since env s before Q (m >>= λ _. pure b)
  Since-then-pure m b hm = record {
    at = λ w c r. elim (Result-cases (m w).0) [
      | inl (x, e) ↦ rw e (λ h. subst (λ y. Q y (m w).1) (ground (arith, h)) (hm.at w x r e))
      | inr (x, e) ↦ rw e (λ h. cc)
    ];
  }

  pub Since-raise : (e : Err) → Since env s before Q (raise {S = S} e)
  Since-raise e = record { at = λ w c r h. cc }

  pub Since-if :
      (b : Bool) (m n : M S B)
      → Since env s before Q m
      → Since env s before Q n
      → Since env s before Q (if b then m else n)
  Since-if true m n hm hn = hm
  Since-if false m n hm hn = hn

pub Since-map_err :
    {S A : Type 0} {env : Env S} {s : S} {before : List ℕ} {Q : A → World S → Type 0}
    (f : Err → Err) (m : M S A)
    → Since env s before Q m
    → Since env s before Q (map_err f m)
Since-map_err f m h = record { at = λ w a r e. h.at w a r (map_err-ok f m w e) }
