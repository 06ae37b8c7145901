-- ===== src/Storage/Waits.antt =====
-- Operations in which only others touch the store.
use stripelink.Prelude.{
  ℕ, List, ◌≡◌, refl, sym, subst, inl, inr, Bool, true, false, arith, if◌then◌else◌,
}
use stripelink.Errors.{Err, Result, ok, err, Result-cases}
use stripelink.World.{
  World, M, Env, Context, ◌>>=◌, ◌>>◌, lift, raise_if, map_err, wait, sleep, context_failure,
}
use stripelink.Session.{AuthStorageState}
use stripelink.Storage.{
  Update, refused, Transacted, Loaded, Cleared, Alone, Alone-Others, Quiet-trans, Others, here,
  next, Waited, lock, lock-Waited,
}

pub Others-trans :
    {S : Type 0} {env : Env S} {s t : S} {k l : List ℕ} {u : S} {m : List ℕ}
    → Others env s k t l
    → Others env t l u m
    → Others env s k u m
Others-trans p here = p
Others-trans p (next n q e) = next n (Others-trans p q) e

pub Waited-trans :
    {S : Type 0} {env : Env S} {u v w : World S} → Waited env u v → Waited env v w → Waited env u w
Waited-trans p q = record {
  quiet = Quiet-trans p.quiet q.quiet;
  reached = Others-trans p.reached q.reached;
}

pub record Waits {S A : Type 0} (env : Env S) (m : M S A) : Type 0 where
  pub at : (w : World S) → Waited env w (m w).1

-- where no one touches it
pub still :
    {S : Type 0} {env : Env S} {w w' : World S} → Alone w w' → w'.store ≡ w.store → Waited env w w'
still {env = env} {w = w} {w' = w'} alone same = record {
  quiet = alone.quiet;
  reached = subst (λ s. Others env w.store w.turns s w'.turns) (sym same) (Alone-Others env alone);
}

module _ {S : Type 0} (env : Env S) where
  pub Waits-bind :
      {A B : Type 0} (m : M S A) (f : A → M S B)
      → Waits env m
      → ((a : A) → Waits env (f a))
      → Waits env (m >>= f)
  Waits-bind m f hm hf = record {
    at = λ w. elim (Result-cases (m w).0) [
      | inl (x, e) ↦ rw e (Waited-trans (hm.at w) ((hf x).at (m w).1))
      | inr (x, e) ↦ rw e (hm.at w)
    ];
  }

  pub Waits-map_err :
      {A : Type 0} (f : Err → Err) (m : M S A) → Waits env m → Waits env (map_err f m)
  Waits-map_err f m h = record { at = λ w. h.at w }

  pub Waits-if :
      {A : Type 0} (b : Bool) (m n : M S A)
      → Waits env m
      → Waits env n
      → Waits env (if b then m else n)
  Waits-if true m n hm hn = hm
  Waits-if false m n hm hn = hn

  pub Waits-lift : {A : Type 0} (r : Result A) → Waits env (lift r)
  Waits-lift r = record {
    at = λ w.
        still
          (record {
            quiet = record { sent = refl; clock = omega arith };
            turns = refl;
            grants = refl;
          })
          refl;
  }

  pub Waits-raise_if : (b : Bool) (e : Err) → Waits env (raise_if b e)
  Waits-raise_if true e = record {
    at = λ w.
        still
          (record {
            quiet = record { sent = refl; clock = omega arith };
            turns = refl;
            grants = refl;
          })
          refl;
  }
  Waits-raise_if false e = record {
    at = λ w.
        still
          (record {
            quiet = record { sent = refl; clock = omega arith };
            turns = refl;
            grants = refl;
          })
          refl;
  }

  pub Waits-context_failure : (ctx : Context) → Waits env (context_failure ctx)
  Waits-context_failure ctx = record {
    at = λ w.
        still
          (record {
            quiet = record { sent = refl; clock = omega arith };
            turns = refl;
            grants = refl;
          })
          refl;
  }

  pub Waits-wait : Waits env (wait env)
  Waits-wait = record {
    at = λ w. record {
      quiet = record { sent = refl; clock = omega arith };
      reached = next w.events here refl;
    };
  }

  pub Waits-sleep : (ctx : Context) (d : ℕ) → Waits env (sleep env ctx d)
  Waits-sleep ctx d = record {
    at = λ w. record {
      quiet = record { sent = refl; clock = omega arith };
      reached = next w.events here refl;
    };
  }

  pub Waits-lock : (ctx : Context) → Waits env (lock env ctx)
  Waits-lock ctx = record { at = λ w. lock-Waited env ctx w }

-- A property of a run that holds as well of a run that has waited first.
pub record Resumes {S B : Type 0} (env : Env S) (R : World S → Result B × World S → Type 0)
    : Type 0 where
  pub after : (w w' : World S) (o : Result B × World S) → Waited env w w' → R w' o → R w o
  pub stopped : (w w' : World S) (e : Err) → Waited env w w' → R w (err e, w')

module _ {S B : Type 0} {env : Env S} {R : World S → Result B × World S → Type 0}
    (resumes : Resumes env R) where
  -- with what is known of a result `a` and the world that comes with it
  pub Resumes-bind :
      {A : Type 0} (K : A → World S → Type 0) (m : M S A) (f : A → M S B)
      → Waits env m
      → ((w : World S) (a : A) → (m w).0 ≡ ok a → K a (m w).1)
      → ((w : World S) (a : A) → K a w → R w (f a w))
      → (w : World S) → R w ((m >>= f) w)
  Resumes-bind K m f hm known hf w = elim (Result-cases (m w).0) [
    | inl (a, e) ↦ rw e (resumes.after w (m w).1 _ (hm.at w) (hf (m w).1 a (known w a e)))
    | inr (x, e) ↦ rw e (resumes.stopped w (m w).1 x (hm.at w))
  ]

  pub Resumes-then :
      (m : M S (Unit {0})) (n : M S B)
      → Waits env m
      → ((w : World S) → R w (n w))
      → (w : World S) → R w ((m >> n) w)
  Resumes-then m n hm hn =
      Resumes-bind (λ _ _. Unit {0}) m (λ _. n) hm (λ w a e. tt) (λ w a k. hn w)

module _ {S : Type 0} {env : Env S} (view : S → AuthStorageState) where
  pub Transacted-resumes :
      {B : Type 0} (update : Update B) → Resumes env (Transacted env view update)
  Transacted-resumes update = record {
    after = λ w w' o v t. record {
      quiet = Quiet-trans v.quiet t.quiet;
      time = t.time;
      mid = t.mid;
      began = omega (arith, v.quiet.clock, t.began);
      ended = t.ended;
      reached = Others-trans v.reached t.reached;
      outcome = t.outcome;
    };
    stopped = λ w w' e v. record {
      quiet = v.quiet;
      time = w'.now;
      mid = w'.store;
      began = v.quiet.clock;
      ended = omega arith;
      reached = v.reached;
      outcome = refused e refl refl;
    };
  }

  pub Loaded-resumes : Resumes env (Loaded env view)
  Loaded-resumes = record {
    after = λ w w' o v t. record {
      quiet = Quiet-trans v.quiet t.quiet;
      mid = t.mid;
      reached = Others-trans v.reached t.reached;
      same = t.same;
      copy = t.copy;
    };
    stopped = λ w w' e v. record {
      quiet = v.quiet;
      mid = w'.store;
      reached = v.reached;
      same = refl;
      copy = λ s h. cc;
    };
  }

  pub Cleared-resumes : Resumes env (Cleared env view)
  Cleared-resumes = record {
    after = λ w w' o v t. record {
      quiet = Quiet-trans v.quiet t.quiet;
      mid = t.mid;
      reached = Others-trans v.reached t.reached;
      cleared = t.cleared;
    };
    stopped = λ w w' e v. record {
      quiet = v.quiet;
      mid = w'.store;
      reached = v.reached;
      cleared = inr (refl, (e, refl));
    };
  }
