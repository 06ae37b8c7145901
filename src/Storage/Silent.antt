-- ===== src/Storage/Silent.antt =====
-- Operations that send nothing: a rule for each way to build one.
use stripelink.Prelude.{refl, inl, inr, Bool, true, false, arith, if◌then◌else◌}
use stripelink.Errors.{Err, Result, Result-cases}
use stripelink.World.{
  World, M, Context, ◌>>=◌, ◌>>◌, lift, pure, raise, raise_if, map_err, time_now, context_failure,
}
use stripelink.Storage.{Alone, Alone-trans}

-- No request goes out, the clock does not run back, and others do not act.
pub record Silent {S A : Type 0} (m : M S A) : Type 0 where
  pub at : (w : World S) → Alone w (m w).1

module _ {S : Type 0} where
  pub Silent-bind :
      {A B : Type 0} (m : M S A) (f : A → M S B)
      → Silent m
      → ((a : A) → Silent (f a))
      → Silent (m >>= f)
  Silent-bind m f hm hf = record {
    at = λ w. elim (Result-cases (m w).0) [
      | inl (x, e) ↦ rw e (Alone-trans (hm.at w) ((hf x).at (m w).1))
      | inr (x, e) ↦ rw e (hm.at w)
    ];
  }

  pub Silent-then :
      {B : Type 0} (m : M S (Unit {0})) (n : M S B) → Silent m → Silent n → Silent (m >> n)
  Silent-then m n hm hn = Silent-bind m (λ _. n) hm (λ _. hn)

  pub Silent-lift : {A : Type 0} (r : Result A) → Silent {S = S} (lift r)
  Silent-lift r = record {
    at = λ w. record {
      quiet = record { sent = refl; clock = omega arith };
      turns = refl;
      grants = refl;
    };
  }

  pub Silent-pure : {A : Type 0} (a : A) → Silent {S = S} (pure a)
  Silent-pure a = record {
    at = λ w. record {
      quiet = record { sent = refl; clock = omega arith };
      turns = refl;
      grants = refl;
    };
  }

  pub Silent-raise : {A : Type 0} (e : Err) → Silent {S = S} {A = A} (raise e)
  Silent-raise e = record {
    at = λ w. record {
      quiet = record { sent = refl; clock = omega arith };
      turns = refl;
      grants = refl;
    };
  }

  pub Silent-raise_if : (b : Bool) (e : Err) → Silent {S = S} (raise_if b e)
  Silent-raise_if true e = record {
    at = λ w. record {
      quiet = record { sent = refl; clock = omega arith };
      turns = refl;
      grants = refl;
    };
  }
  Silent-raise_if false e = record {
    at = λ w. record {
      quiet = record { sent = refl; clock = omega arith };
      turns = refl;
      grants = refl;
    };
  }

  pub Silent-map_err : {A : Type 0} (f : Err → Err) (m : M S A) → Silent m → Silent (map_err f m)
  Silent-map_err f m h = record { at = λ w. h.at w }

  pub Silent-if :
      {A : Type 0} (b : Bool) (m n : M S A) → Silent m → Silent n → Silent (if b then m else n)
  Silent-if true m n hm hn = hm
  Silent-if false m n hm hn = hn

  pub Silent-time_now : Silent {S = S} time_now
  Silent-time_now = record {
    at = λ w. record {
      quiet = record { sent = refl; clock = omega arith };
      turns = refl;
      grants = refl;
    };
  }

  pub Silent-context_failure : (ctx : Context) → Silent {S = S} (context_failure ctx)
  Silent-context_failure ctx = record {
    at = λ w. record {
      quiet = record { sent = refl; clock = omega arith };
      turns = refl;
      grants = refl;
    };
  }

pub ruleset silent_rules = (
  Silent-bind, Silent-lift, Silent-pure, Silent-raise, Silent-raise_if, Silent-map_err,
  Silent-time_now, Silent-context_failure,
)
