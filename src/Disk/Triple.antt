-- ===== src/Disk/Triple.antt =====
-- Rules for operations on the disk: what holds of it where they return and where they fail.
use stripelink.Prelude.{
  if◌then◌else◌, ℕ, ◌≡◌, ◌⊎◌, refl, sym, subst, ◌∙◌, inl, inr, Bool, true, false, Option-cases,
  some, List, arith,
}
use stripelink.Errors.{Err, Result, ok, err, Result-cases}
use stripelink.World.{
  World, Env, Context, M, ◌>>=◌, pure, raise, raise_if, lift, map_err, context_failure,
}
use stripelink.Disk.{
  Disk, Call, effect, failed_effect, System, Documented, call, get_disk, on_error, tried,
}

pub record Triple {A : Type 0} (P : Disk → Type 0) (Q : A → Disk → Type 0) (E : Disk → Type 0)
    (m : M Disk A) : Type 0 where
  pub good : (w : World Disk) (a : A) → P w.store → (m w).0 ≡ ok a → Q a (m w).1.store
  pub bad : (w : World Disk) (e : Err) → P w.store → (m w).0 ≡ err e → E (m w).1.store

module _ {A B : Type 0} {P : Disk → Type 0} {Q : A → Disk → Type 0} {R : B → Disk → Type 0}
    {E : Disk → Type 0} where
  pub Triple-bind :
      (m : M Disk A) (f : A → M Disk B)
      → Triple P Q E m
      → ((a : A) → Triple (Q a) R E (f a))
      → Triple P R E (m >>= f)
  Triple-bind m f hm hf = record {
    good = λ w b p. elim (Result-cases (m w).0) [
      | inl (x, e) ↦ rw e ((hf x).good (m w).1 b (hm.good w x p e))
      | inr (x, e) ↦ rw e (λ h. cc)
    ];
    bad = λ w b p. elim (Result-cases (m w).0) [
      | inl (x, e) ↦ rw e ((hf x).bad (m w).1 b (hm.good w x p e))
      | inr (x, e) ↦ rw e (λ h. hm.bad w x p e)
    ];
  }

module _ {A : Type 0} {P : Disk → Type 0} {Q : A → Disk → Type 0} {E : Disk → Type 0} where
  pub Triple-pure : (a : A) → ((d : Disk) → P d → Q a d) → Triple P Q E (pure a)
  Triple-pure a h = record {
    good = λ w b p e. subst (λ x. Q x w.store) (ground arith) (h w.store p);
    bad = λ w b p e. cc;
  }

  pub Triple-lift :
      (r : Result A)
      → ((a : A) (d : Disk) → r ≡ ok a → P d → Q a d)
      → ((d : Disk) → P d → E d)
      → Triple P Q E (lift r)
  Triple-lift r h k = record { good = λ w a p e. h a w.store e p; bad = λ w x p e. k w.store p }

  pub Triple-raise : (e : Err) → ((d : Disk) → P d → E d) → Triple P Q E (raise e)
  Triple-raise e k = record { good = λ w a p h. cc; bad = λ w x p h. k w.store p }

  pub Triple-map_err : (f : Err → Err) (m : M Disk A) → Triple P Q E m → Triple P Q E (map_err f m)
  Triple-map_err f m h = record {
    good = λ w a p. elim (Result-cases (m w).0) [
      | inl (x, e) ↦ rw e (λ k. h.good w a p (ground arith))
      | inr (x, e) ↦ rw e (λ k. cc)
    ];
    bad = λ w a p. elim (Result-cases (m w).0) [
      | inl (x, e) ↦ rw e (λ k. cc)
      | inr (x, e) ↦ rw e (λ k. h.bad w x p e)
    ];
  }

  pub Triple-if :
      (b : Bool) (m n : M Disk A)
      → Triple P Q E m
      → Triple P Q E n
      → Triple P Q E (if b then m else n)
  Triple-if true m n hm hn = hm
  Triple-if false m n hm hn = hn

  -- where a branch may use what the test says
  pub Triple-if_known :
      (b : Bool) (m n : M Disk A)
      → (b ≡ true → Triple P Q E m)
      → (b ≡ false → Triple P Q E n)
      → Triple P Q E (if b then m else n)
  Triple-if_known true m n hm hn = hm refl
  Triple-if_known false m n hm hn = hn refl

  pub Triple-weaken :
      {P' : Disk → Type 0} {E' : Disk → Type 0} (m : M Disk A)
      → Triple P Q E m
      → ((d : Disk) → P' d → P d)
      → ((d : Disk) → E d → E' d)
      → Triple P' Q E' m
  Triple-weaken m h p k = record {
    good = λ w a x e. h.good w a (p w.store x) e;
    bad = λ w e x g. k (m w).1.store (h.bad w e (p w.store x) g);
  }

  pub Triple-on_error :
      {F : Disk → Type 0} (m : M Disk A) (handler : Err → M Disk A)
      → Triple P Q F m
      → ((e : Err) → Triple F Q E (handler e))
      → Triple P Q E (on_error m handler)
  Triple-on_error m handler hm hh = record {
    good = λ w a p. elim (Result-cases (m w).0) [
      | inl (x, e) ↦ rw e (λ k. hm.good w a p (ground arith))
      | inr (x, e) ↦ rw e ((hh x).good (m w).1 a (hm.bad w x p e))
    ];
    bad = λ w a p. elim (Result-cases (m w).0) [
      | inl (x, e) ↦ rw e (λ k. cc)
      | inr (x, e) ↦ rw e ((hh x).bad (m w).1 a (hm.bad w x p e))
    ];
  }

-- A fact that does not speak of the disk may be assumed.
pub Triple-given :
    {A H : Type 0} {P : Disk → Type 0} {Q : A → Disk → Type 0} {E : Disk → Type 0} (m : M Disk A)
    → (H → Triple P Q E m)
    → Triple (λ d. H × P d) Q E m
Triple-given m h = record {
  good = λ w a (k, p) e. (h k).good w a p e;
  bad = λ w x (k, p) e. (h k).bad w x p e;
}

-- What holds of the disk after an attempt with this result.
abbrev pub After : {A : Type 0} → (A → Disk → Type 0) → (Disk → Type 0) → Result A → Disk → Type 0
After Q E (ok a) d = Q a d
After Q E (err e) d = E d

module _ {A : Type 0} (P : Disk → Type 0) {F : Disk → Type 0} (m : M Disk A) where
  pub Triple-tried :
      (Q : A → Disk → Type 0) (E : Disk → Type 0)
      → Triple P Q E m
      → Triple P (After Q E) F (tried m)
  Triple-tried Q E h = record {
    good = λ w r p k. elim (Result-cases (m w).0) [
      | inl (x, e) ↦ subst (λ y. After Q E y (m w).1.store) (sym e ∙ ground arith) (h.good w x p e)
      | inr (x, e) ↦ subst (λ y. After Q E y (m w).1.store) (sym e ∙ ground arith) (h.bad w x p e)
    ];
    bad = λ w x p k. cc;
  }

  -- for an attempt whose result does not matter
  pub Triple-tried_either :
      (Q : Disk → Type 0) → Triple P (λ _. Q) Q m → Triple P (λ _. Q) F (tried m)
  Triple-tried_either Q h = record {
    good = λ w r p k. elim (Result-cases (m w).0) [
      | inl (x, e) ↦ h.good w x p e
      | inr (x, e) ↦ h.bad w x p e
    ];
    bad = λ w x p k. cc;
  }

pub Triple-context_failure :
    {P : Disk → Type 0} (ctx : Context) → Triple P (λ _. P) P (context_failure ctx)
Triple-context_failure ctx = record { good = λ w a p e. p; bad = λ w x p e. p }

pub Triple-raise_if : {P : Disk → Type 0} (b : Bool) (e : Err) → Triple P (λ _. P) P (raise_if b e)
Triple-raise_if true e = record { good = λ w a p h. p; bad = λ w x p h. p }
Triple-raise_if false e = record { good = λ w a p h. p; bad = λ w x p h. p }

pub Triple-get_disk : {P E : Disk → Type 0} → Triple P (λ d now. (now ≡ d) × P now) E get_disk
Triple-get_disk {P} = record { good = λ w a p e. (ground arith, p); bad = λ w x p e. cc }

module _ (env : Env Disk) (sys : System) (documented : Documented env sys) where
  -- A failure of the system at a disk.
  abbrev pub Refuses : Call → Disk → Type 0
  Refuses c d = (n : ℕ) × ((e : Err) × ((sys.invoke c n d).0 ≡ some e))

  call_cases :
      (c : Call) (w : World Disk)
      → ((call env sys c w).0 ≡ ok tt) × ((call env sys c w).1.store ≡ effect c w.store)
        ⊎ ((e : Err) × ((call env sys c w).0 ≡ err e)
            × Refuses c w.store
            × ((text : List ℕ) × ((call env sys c w).1.store ≡ failed_effect c text w.store)))
  unfolding call
  call_cases c w = elim (Option-cases (sys.invoke c w.events w.store).0) [
    | inl e ↦ inl (rw e refl, documented.done c w.events w.store e)
    | inr (x, e) ↦ inr (x, rw e refl, (w.events, (x, e)), documented.failed c w.events w.store x e)
  ]

  pub Triple-call :
      {P Q E : Disk → Type 0} (c : Call)
      → ((d : Disk) → P d → Q (effect c d))
      → ((d : Disk) (text : List ℕ) → Refuses c d → P d → E (failed_effect c text d))
      → Triple P (λ _. Q) E (call env sys c)
  Triple-call {Q = Q} {E = E} c good bad = record {
    good = λ w a p h. elim (call_cases c w) [
      | inl (e, same) ↦ subst Q (sym same) (good w.store p)
      | inr (x, e, refuses, (text, same)) ↦ absurd (cc)
    ];
    bad = λ w x p h. elim (call_cases c w) [
      | inl (e, same) ↦ absurd (cc)
      | inr (y, e, refuses, (text, same)) ↦ subst E (sym same) (bad w.store text refuses p)
    ];
  }
