-- ===== src/Diagnostics/Patterns/Kept.antt =====
-- What holds of each character of a text holds of each after the replacements.
use stripelink.Prelude.{
  ℕ, zero, suc, ◌-◌, ◌≡◌, subst, inl, inr, Bool, Bool-cases, Option, Option-cases, none, some, List,
  [], ◌∷◌, length, drop, if◌then◌else◌, All, All-append, All-take, All-drop, codes,
}
use stripelink.Diagnostics.CardNumber.{is_payment_card_number}
use stripelink.Diagnostics.Patterns.{
  credential_field, bearer, known_token, signature, card_number, redacted,
}
use stripelink.Diagnostics.Search.{
  Pattern, Rule, replace, replace_all, rests, captures, by_match, by_group, at_boundary, first,
  whole, Capture, with_group, word_before,
}

-- What a rule puts in, or nothing.
abbrev or_empty : Option (List ℕ × ℕ) → List ℕ
or_empty none = []
or_empty (some (t, n)) = t

module _ (P : ℕ → Type 0) where
  -- A rule that puts only such characters into such a text.
  pub record Keeps (rule : Rule) : Type 0 where
    pub at :
        (before : Option ℕ) (s : List ℕ) (out : List ℕ × ℕ)
        → All P s
        → rule before s ≡ some out
        → All P out.0

  replace-All :
      (rule : Rule) (before : Option ℕ) (skip : ℕ) (s : List ℕ)
      → Keeps rule
      → All P s
      → All P (replace rule before skip s)
  unfolding replace_all
  replace-All rule before skip [] k h = tt
  replace-All rule before (suc skip) (c ∷ s) k (p, h) = replace-All rule (some c) skip s k h
  replace-All rule before zero (c ∷ s) k (p, h) = elim (Option-cases (rule before (c ∷ s))) [
    | inl missing ↦ rw missing (p, replace-All rule (some c) 0 s k h)
    | inr (out, found) ↦ rw found (
        All-append P out.0 _ (k.at before (c ∷ s) out (p, h) found)
          (replace-All rule (some c) (out.1 - 1) s k h))
  ]

  pub replace_all-All :
      (rule : Rule) (s : List ℕ) → Keeps rule → All P s → All P (replace_all rule s)
  unfolding replace_all
  replace_all-All rule s k h = replace-All rule none 0 s k h

  whole-All :
      (text : List ℕ → List ℕ) (s : List ℕ) (o : Option (List ℕ)) (out : List ℕ × ℕ)
      → ((t : List ℕ) → All P t → All P (text t))
      → All P s
      → whole text s o ≡ some out
      → All P out.0
  whole-All text s none out good h e = cc
  whole-All text s (some rest) out good h e =
      subst (λ (o : Option (List ℕ × ℕ)). All P (or_empty o)) e (good _ (All-take P _ s h))

  Keeps-by_match :
      (p : Pattern) (text : List ℕ → List ℕ)
      → ((t : List ℕ) → All P t → All P (text t))
      → Keeps (by_match p text)
  Keeps-by_match p text good = record {
    at = λ before s out h e. whole-All text s (first (rests p s)) out good h e;
  }

  with_group-All :
      (text : List ℕ → List ℕ) (s : List ℕ) (o : Option Capture) (out : List ℕ × ℕ)
      → ((t : List ℕ) → All P t → All P (text t))
      → All P s
      → with_group text s o ≡ some out
      → All P out.0
  with_group-All text s none out good h e = cc
  with_group-All text s (some (start, end', rest)) out good h e =
      subst (λ (o : Option (List ℕ × ℕ)). All P (or_empty o)) e
        (good _ (All-take P _ (drop (length s - length start) s) (All-drop P _ s h)))

  Keeps-by_group :
      (pre group post : Pattern) (text : List ℕ → List ℕ)
      → ((t : List ℕ) → All P t → All P (text t))
      → Keeps (by_group pre group post text)
  Keeps-by_group pre group post text good = record {
    at = λ before s out h e. with_group-All text s (first (captures pre group post s)) out good h e;
  }

  Keeps-at_boundary : (rule : Rule) → Keeps rule → Keeps (at_boundary rule)
  Keeps-at_boundary rule k = record {
    at = λ before s out h e. elim (Bool-cases (word_before before)) [
      | inl inside ↦ cc (rw inside at e)
      | inr outside ↦ k.at before s out h (rw outside at e)
    ];
  }

  Keeps-if :
      (test : List ℕ → Bool) (text t : List ℕ)
      → All P text
      → All P t
      → All P (if test t then text else t)
  Keeps-if test text t h k = elim (Bool-cases (test t)) [ inl e ↦ rw e h | inr e ↦ rw e k ]

  -- The texts that the rules put in.
  pub record AllowsTexts : Type 0 where
    pub redacted : All P (codes "<redacted>")
    pub value : All P (codes "=<redacted>")
    pub bearer : All P (codes "Bearer <redacted>")

  module _ (allowed : AllowsTexts) where
    pub Keeps-credential_field : Keeps credential_field
    unfolding credential_field
    Keeps-credential_field =
        Keeps-by_group _ _ _ _ (λ t h. All-append P t (codes "=<redacted>") h allowed.value)

    pub Keeps-bearer : Keeps bearer
    unfolding bearer
    Keeps-bearer =
        Keeps-at_boundary _
          (Keeps-by_match _ (λ found. codes "Bearer <redacted>") (λ t h. allowed.bearer))

    pub Keeps-known_token : Keeps known_token
    unfolding known_token
    Keeps-known_token =
        Keeps-at_boundary _ (Keeps-by_match _ (λ found. redacted) (λ t h. allowed.redacted))

    pub Keeps-signature : Keeps signature
    unfolding signature
    Keeps-signature =
        Keeps-at_boundary _ (Keeps-by_match _ (λ found. redacted) (λ t h. allowed.redacted))

    pub Keeps-card_number : Keeps card_number
    unfolding card_number
    Keeps-card_number =
        Keeps-by_match _ _ (λ t h. Keeps-if is_payment_card_number redacted t allowed.redacted h)
