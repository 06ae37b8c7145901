-- ===== src/World/Clock.antt =====
-- The clock never runs back: one rule for each way to build an operation.
use stripelink.Prelude.{◌≤◌, inl, inr, Bool, true, false, arith, if◌then◌else◌}
use stripelink.Errors.{Err, Result, Result-cases}
use stripelink.World.{
  World, M, Env, HttpRequest, Context, ◌>>=◌, ◌>>◌, lift, raise_if, map_err, exchange,
  context_failure,
}

pub record KeepsTime {S A : Type 0} (m : M S A) : Type 0 where
  pub at : (w : World S) → w.now ≤ (m w).1.now

module _ {S A : Type 0} where
  pub KeepsTime-lift : (r : Result A) → KeepsTime {S = S} (lift r)
  KeepsTime-lift r = record { at = λ w. omega arith }

  pub KeepsTime-if :
      (b : Bool) (m n : M S A) → KeepsTime m → KeepsTime n → KeepsTime (if b then m else n)
  KeepsTime-if true m n hm hn = hm
  KeepsTime-if false m n hm hn = hn

  pub KeepsTime-map_err : (f : Err → Err) (m : M S A) → KeepsTime m → KeepsTime (map_err f m)
  KeepsTime-map_err f m h = record { at = λ w. h.at w }

  pub KeepsTime-guard :
      (b : Bool) (e : Err) (m : M S A) → KeepsTime m → KeepsTime (raise_if b e >> m)
  KeepsTime-guard true e m h = record { at = λ w. omega arith }
  KeepsTime-guard false e m h = h

module _ {S A B : Type 0} where
  pub KeepsTime-bind :
      (m : M S A) (f : A → M S B) → KeepsTime m → ((x : A) → KeepsTime (f x)) → KeepsTime (m >>= f)
  KeepsTime-bind m f hm hf = record {
    at = λ w. elim (Result-cases (m w).0) [
      | inl (x, e) ↦ rw e (omega (arith, hm.at w, (hf x).at (m w).1))
      | inr (x, e) ↦ rw e (omega (arith, hm.at w))
    ];
  }

pub KeepsTime-context_failure :
    {S : Type 0} (ctx : Context) → KeepsTime {S = S} (context_failure ctx)
KeepsTime-context_failure ctx = record { at = λ w. omega arith }

pub KeepsTime-exchange : {S : Type 0} (env : Env S) (r : HttpRequest) → KeepsTime (exchange env r)
KeepsTime-exchange env r = record { at = λ w. omega arith }
