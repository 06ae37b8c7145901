-- ===== src/Types/PaymentToken/Forms.antt =====
-- Which texts UnmarshalJSON takes for a token, and what it leaves of its receiver otherwise.
use stripelink.Prelude.{
  ℕ, String, ◌≡◌, ◌≢◌, ◌↔◌, refl, sym, ap, subst, ◌∙◌, inl, inr, Bool-cases, true, false, Option,
  none, some, List, [], ◌∷◌, if◌then◌else◌, eqb, ◌==◌, eq_iff, ◌||◌, not, trim_bytes, arith,
}
use stripelink.Errors.{Err, Result, ok, err, >>=-eq-ok}
use stripelink.Json.{
  Json, null, bool, int, real, str, arr, obj, Members, end, Field, fill, string_field,
}
use stripelink.Auth.Wire.{Reader}
use stripelink.Types.{SharedPaymentToken}
use stripelink.Types.PaymentToken.Reading.{Describes}
use stripelink.Types.PaymentToken.Address.{token_of-Describes}
use stripelink.Types.PaymentToken.{
  token_of, only_id, unmarshal_string, unmarshal_object, named, described, decode_token, blame_as,
  unmarshal_json, assign,
}

-- What a reader of JSON does: it reads a string only where a quote is first, and an object only where
-- a brace is, in a text with no white space before its value.
pub record ReadsJson (parse : Reader) : Type 0 where
  pub strings :
      (text : List ℕ) (s : String)
      → parse (trim_bytes text) ≡ some (str s)
      → (rest : List ℕ) × (trim_bytes text ≡ 0x22 ∷ rest)
  pub objects :
      (text : List ℕ) (ms : Members)
      → parse (trim_bytes text) ≡ some (obj ms)
      → (rest : List ℕ) × (trim_bytes text ≡ 0x7b ∷ rest)

-- The two forms of a token: its identifier alone, and an object that has one, and that describes the token.
pub data Denotes (parse : Reader) (text : List ℕ) : SharedPaymentToken → Type 0 where
  as_string : (id : String) → parse text ≡ some (str id) → id ≢ "" → Denotes parse text (only_id id)
  as_object :
      (ms : Members) (t : SharedPaymentToken)
      → parse text ≡ some (obj ms)
      → Describes ms t
      → t.id ≢ ""
      → Denotes parse text t

not_empty : (s : String) → s ≢ "" → (s == "") ≡ false
not_empty s ne = elim (Bool-cases (s == "")) [ inl e ↦ absurd (ne ((eq_iff s "").0 e)) | inr e ↦ e ]

unmarshal_string-ok :
    (o : Option Json) (id : String) → unmarshal_string o ≡ ok id → id ≢ "" → o ≡ some (str id)
unmarshal_string-ok none id h ne = cc
unmarshal_string-ok (some null) id h ne = absurd (ne cc)
unmarshal_string-ok (some (str s)) id h ne = cc
unmarshal_string-ok (some (bool b)) id h ne = cc
unmarshal_string-ok (some (int z)) id h ne = cc
unmarshal_string-ok (some (real s)) id h ne = cc
unmarshal_string-ok (some (arr xs)) id h ne = cc
unmarshal_string-ok (some (obj ms)) id h ne = cc

no_members : (token_of end).0.id ≡ ""
unfolding token_of fill string_field
no_members = refl

whole_or_refused :
    (f : Field SharedPaymentToken) (x : Err) (t : SharedPaymentToken)
    → (if f.1 then ok f.0 else err x) ≡ ok t
    → f ≡ (t, true)
whole_or_refused (a, true) x t h = ground (arith, h)
whole_or_refused (a, false) x t h = cc

unmarshal_object-ok :
    (o : Option Json) (t : SharedPaymentToken)
    → unmarshal_object o ≡ ok t
    → t.id ≢ ""
    → (ms : Members) × (o ≡ some (obj ms)) × (token_of ms ≡ (t, true))
unmarshal_object-ok none t h ne = cc
unmarshal_object-ok (some null) t h ne = absurd (ne (cc (h, no_members)))
unmarshal_object-ok (some (obj ms)) t h ne = (ms, refl, whole_or_refused (token_of ms) _ t h)
unmarshal_object-ok (some (str s)) t h ne = cc
unmarshal_object-ok (some (bool b)) t h ne = cc
unmarshal_object-ok (some (int z)) t h ne = cc
unmarshal_object-ok (some (real s)) t h ne = cc
unmarshal_object-ok (some (arr xs)) t h ne = cc

blame_as-ok :
    {A : Type 0} (message : String) (r : Result A) (a : A) → blame_as message r ≡ ok a → r ≡ ok a
blame_as-ok message (ok b) a h = h
blame_as-ok message (err e) a h = cc

named-ok : (id : String) (u : SharedPaymentToken) → named id ≡ ok u → (id ≢ "") × (u ≡ only_id id)
named-ok id u h = elim (Bool-cases (id == "")) [
  | inl e ↦ absurd (cc (rw e at h))
  | inr e ↦ (λ same. absurd (cc (e, (eq_iff id "").1 same)), ground (arith, rw e at h))
]

described-ok :
    (first : ℕ) (t u : SharedPaymentToken) → described first t ≡ ok u → (t.id ≢ "") × (t ≡ u)
described-ok first t u h = elim (Bool-cases (not (eqb first 0x7b) || t.id == "")) [
  | inl e ↦ absurd (cc (rw e at h))
  | inr e ↦ (λ same. absurd (ground (arith, e, (eq_iff t.id "").1 same)), ground (arith, rw e at h))
]

assign-ok :
    (before u : SharedPaymentToken) (r : Result SharedPaymentToken)
    → (assign before r ≡ (ok tt, some u)) ↔ (r ≡ ok u)
assign-ok before u (ok t) = (λ h. ground (arith, h), λ h. ground (arith, h))
assign-ok before u (err e) = (λ h. cc, λ h. cc)

assign-err :
    (before : SharedPaymentToken) (r : Result SharedPaymentToken) (e : Err)
    → (assign before r).0 ≡ err e
    → (assign before r).1 ≡ some before
assign-err before (ok t) e h = cc
assign-err before (err x) e h = refl

module _ (parse : Reader) where
  decode_string :
      (rest : List ℕ) (id : String)
      → parse (0x22 ∷ rest) ≡ some (str id)
      → id ≢ ""
      → decode_token parse (0x22 ∷ rest) ≡ ok (only_id id)
  unfolding decode_token
  decode_string rest id there ne = rw (there, not_empty id ne) refl

  decode_object :
      (rest : List ℕ) (ms : Members) (t : SharedPaymentToken)
      → parse (0x7b ∷ rest) ≡ some (obj ms)
      → token_of ms ≡ (t, true)
      → t.id ≢ ""
      → decode_token parse (0x7b ∷ rest) ≡ ok t
  unfolding decode_token
  decode_object rest ms t there read ne = rw (there, read, not_empty t.id ne) refl

  -- what was decoded was in one of the forms
  decode_token-Denotes :
      (text : List ℕ) (u : SharedPaymentToken)
      → decode_token parse text ≡ ok u
      → Denotes parse text u
  unfolding decode_token
  decode_token-Denotes [] u h = cc
  decode_token-Denotes (c ∷ rest) u h = elim (Bool-cases (eqb c 0x22)) [
    | inl e ↦
        let (id, read, taken) =
          >>=-eq-ok (blame_as _ (unmarshal_string (parse (c ∷ rest)))) named (rw e at h) in
        let (ne, same) = named-ok id u taken in
        subst (Denotes parse (c ∷ rest)) (sym same)
          (as_string id (unmarshal_string-ok _ id (blame_as-ok _ _ _ read) ne) ne)
    | inr e ↦
        let (t, read, taken) =
          >>=-eq-ok (blame_as _ (unmarshal_object (parse (c ∷ rest)))) (described c) (rw e at h) in
        let (ne, same) = described-ok c t u taken in
        let (ms, there, whole) = unmarshal_object-ok _ t (blame_as-ok _ _ _ read) ne in
        subst (Denotes parse (c ∷ rest)) same
          (as_object ms t there ((token_of-Describes ms t).0 whole) ne)
  ]

  Denotes-decode_token :
      (text : List ℕ) (u : SharedPaymentToken)
      → ReadsJson parse
      → Denotes parse (trim_bytes text) u
      → decode_token parse (trim_bytes text) ≡ ok u
  Denotes-decode_token text u reads (as_string id there ne) =
      let (rest, first) = reads.strings text id there in
      ap (decode_token parse) first
      ∙ decode_string rest id (subst (λ x. parse x ≡ some (str id)) first there) ne
  Denotes-decode_token text u reads (as_object ms t there whole ne) =
      let (rest, first) = reads.objects text ms there in
      ap (decode_token parse) first
      ∙ decode_object rest ms u (subst (λ x. parse x ≡ some (obj ms)) first there)
          ((token_of-Describes ms u).1 whole) ne

  -- UnmarshalJSON succeeds exactly on the two forms of a token, white space around it apart: a JSON string
  -- that is not empty, and an object with an identifier whose members for the identifier, the expiry and
  -- the address have their types or are null. It then stores exactly the token that is meant: of an object
  -- the last text for each name, and the address that the objects behind the last null make. Where it
  -- fails it leaves its receiver as it was.
  pub unmarshal_json-Denotes :
      (before u : SharedPaymentToken) (text : List ℕ)
      → ReadsJson parse
      → ((unmarshal_json parse text (some before) ≡ (ok tt, some u))
          ↔ Denotes parse (trim_bytes text) u)
        × ((e : Err)
            → (unmarshal_json parse text (some before)).0 ≡ err e
            → (unmarshal_json parse text (some before)).1 ≡ some before)
  unfolding unmarshal_json
  unmarshal_json-Denotes before u text reads =
      let decoded = decode_token parse (trim_bytes text) in
      let (taken, given) = assign-ok before u decoded in
      (
        (
          λ h. decode_token-Denotes (trim_bytes text) u (taken h),
          λ d. given (Denotes-decode_token text u reads d),
        ),
        assign-err before decoded,
      )
