-- ===== src/Types/PaymentToken/Address.antt =====
-- The fields of a token that json.Unmarshal fills are those that its object describes.
use stripelink.Prelude.{
  String, ◌≡◌, ◌↔◌, refl, sym, ap, ◌∙◌, Bool, true, false, ◌&&◌, none, some, List, [], ◌∷◌, ◌++◌,
  arith,
}
use stripelink.Json.{
  Json, null, bool, int, real, str, arr, obj, Members, Field, set_string, string_field,
}
use stripelink.Types.{SharedPaymentToken}
use stripelink.Types.PaymentToken.{string_onto, address_onto, set_address, target, token_of}
use stripelink.Types.PaymentToken.Reading.{
  values, last_text, all_texts, objects_from, values_in, address_typed, all_addresses, merged,
  address_in, Describes, folded, fill-folded, string_onto-text, string_onto-typed, folded-text,
  folded-typed, last_text-append,
}

append-nil : (js : List Json) → js ++ [] ≡ js
append-nil [] = refl
append-nil (j ∷ js) = ap (λ ks. j ∷ ks) (append-nil js)

append_assoc : (js ks ls : List Json) → (js ++ ks) ++ ls ≡ js ++ (ks ++ ls)
append_assoc [] ks ls = refl
append_assoc (j ∷ js) ks ls = ap (λ ms. j ∷ ms) (append_assoc js ks ls)

values_in-append :
    (tag : String) (found : List Members) (ms : Members)
    → values_in tag (found ++ (ms ∷ [])) ≡ values_in tag found ++ values tag ms
values_in-append tag [] ms = append-nil (values tag ms)
values_in-append tag (o ∷ found) ms =
    ap (λ js. values tag o ++ js) (values_in-append tag found ms)
    ∙ sym (append_assoc (values tag o) (values_in tag found) (values tag ms))

-- One more object for a field.
string_onto-merged :
    (tag : String) (found : List Members) (ms : Members)
    → string_onto tag (last_text "" (values_in tag found)) ms
      ≡ (last_text "" (values_in tag (found ++ (ms ∷ []))), all_texts (values tag ms))
string_onto-merged tag found ms =
    let v = last_text "" (values_in tag found) in
    rw (values_in-append tag found ms, last_text-append "" (values_in tag found) (values tag ms))
      (λ i. (string_onto-text tag v ms i, string_onto-typed tag v ms i))

address_onto-merged :
    (found : List Members) (ms : Members)
    → address_onto (merged found) ms ≡ (merged (found ++ (ms ∷ [])), address_typed ms)
unfolding address_onto
address_onto-merged found ms =
    rw
      (
        string_onto-merged "name" found ms,
        string_onto-merged "line1" found ms,
        string_onto-merged "line2" found ms,
        string_onto-merged "city" found ms,
        string_onto-merged "state" found ms,
        string_onto-merged "postal_code" found ms,
        string_onto-merged "country" found ms,
      )
      refl

target-merged : (found : List Members) → target (address_in found) ≡ merged found
target-merged [] = refl
target-merged (ms ∷ found) = refl

address_in-append :
    (found : List Members) (ms : Members)
    → address_in (found ++ (ms ∷ [])) ≡ some (merged (found ++ (ms ∷ [])))
address_in-append [] ms = refl
address_in-append (o ∷ found) ms = refl

set_address-obj :
    (found : List Members) (g : Bool) (ms : Members)
    → set_address (address_in found, g) (obj ms)
      ≡ (address_in (found ++ (ms ∷ [])), g && address_typed ms)
set_address-obj found g ms =
    rw (target-merged found, address_onto-merged found ms, address_in-append found ms) refl

and-true : (g : Bool) → g && true ≡ g
and-true true = refl
and-true false = refl

and-false : (g : Bool) → g && false ≡ false
and-false true = refl
and-false false = refl

and_assoc : (a b c : Bool) → (a && b) && c ≡ a && (b && c)
and_assoc true b c = refl
and_assoc false b c = refl

folded-address :
    (found : List Members) (g : Bool) (js : List Json)
    → folded set_address (address_in found, g) js
      ≡ (address_in (objects_from found js), g && all_addresses js)
folded-address found g [] = rw (and-true g) refl
folded-address found g (null ∷ js) = folded-address [] g js
folded-address found g (obj ms ∷ js) =
    ap (λ f. folded set_address f js) (set_address-obj found g ms)
    ∙ folded-address (found ++ (ms ∷ [])) (g && address_typed ms) js
    ∙ ap (λ b. (address_in (objects_from (found ++ (ms ∷ [])) js), b))
        (and_assoc g (address_typed ms) (all_addresses js))
folded-address found g (str s ∷ js) = rw (and-false g) (folded-address found false js)
folded-address found g (bool b ∷ js) = rw (and-false g) (folded-address found false js)
folded-address found g (int z ∷ js) = rw (and-false g) (folded-address found false js)
folded-address found g (real s ∷ js) = rw (and-false g) (folded-address found false js)
folded-address found g (arr i ∷ js) = rw (and-false g) (folded-address found false js)

string_field-values :
    (tag : String) (ms : Members)
    → string_field tag ms ≡ (last_text "" (values tag ms), all_texts (values tag ms))
unfolding string_field
string_field-values tag ms =
    fill-folded set_string tag ("", true) ms
    ∙ (λ i. (folded-text "" true (values tag ms) i, folded-typed "" (values tag ms) i))

abbrev described_by : Members → SharedPaymentToken
described_by ms = record {
  id = last_text "" (values "id" ms);
  billing_address = address_in (objects_from [] (values "billing_address" ms));
  valid_until = last_text "" (values "valid_until" ms);
}

abbrev typed : Members → Bool
typed ms =
    all_texts (values "id" ms)
    && all_addresses (values "billing_address" ms)
    && all_texts (values "valid_until" ms)

token_of-values : (ms : Members) → token_of ms ≡ (described_by ms, typed ms)
unfolding token_of
token_of-values ms =
    rw
      (
        string_field-values "id" ms,
        string_field-values "valid_until" ms,
        fill-folded set_address "billing_address" (none, true) ms,
        folded-address [] true (values "billing_address" ms),
      )
      refl

-- json.Unmarshal fills a token, without an error, with exactly what the object says.
pub token_of-Describes :
    (ms : Members) (t : SharedPaymentToken) → (token_of ms ≡ (t, true)) ↔ Describes ms t
token_of-Describes ms t = (
  λ h.
      let e : (described_by ms, typed ms) ≡ (t, true) = sym (token_of-values ms) ∙ h in
      let all : typed ms ≡ true = ap (λ (f : Field SharedPaymentToken). f.1) e in
      record {
        id = sym (ap (λ (f : Field SharedPaymentToken). f.0.id) e);
        billing_address = sym (ap (λ (f : Field SharedPaymentToken). f.0.billing_address) e);
        valid_until = sym (ap (λ (f : Field SharedPaymentToken). f.0.valid_until) e);
        id_typed = ground (arith, all);
        address_typed = ground (arith, all);
        valid_until_typed = ground (arith, all);
      },
  λ d.
      let same : described_by ms ≡ t = λ i. record {
        id = sym d.id i;
        billing_address = sym d.billing_address i;
        valid_until = sym d.valid_until i;
      } in
      let all : typed ms ≡ true = rw (d.id_typed, d.address_typed, d.valid_until_typed) refl in
      token_of-values ms ∙ (λ i. (same i, all i)),
)
