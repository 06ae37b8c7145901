-- ===== src/Types/PaymentToken/Reading.antt =====
-- What an object says of a token, by the values of its members: independent of the order in which
-- json.Unmarshal fills the fields.
use stripelink.Prelude.{
  String, ◌≡◌, refl, ap, ◌∙◌, inl, inr, Bool, Bool-cases, true, false, ◌&&◌, Option, none, some,
  List, [], ◌∷◌, ◌++◌, if◌then◌else◌,
}
use stripelink.Json.{
  Json, null, bool, int, real, str, arr, obj, Members, end, member, Field, fill, matches,
  set_string,
}
use stripelink.Types.{BillingAddress, SharedPaymentToken}
use stripelink.Types.PaymentToken.{string_onto}

-- The values of the members with a name, up to case.
abbrev pub values : String → Members → List Json
values tag end = []
values tag (member name j rest) =
    let others = values tag rest in if matches tag name then j ∷ others else others

-- The last text among the values, or `v`; and whether each is a text or null.
abbrev pub last_text : String → List Json → String
last_text v [] = v
last_text v (str s ∷ js) = last_text s js
last_text v (_ ∷ js) = last_text v js

abbrev pub all_texts : List Json → Bool
all_texts [] = true
all_texts (str s ∷ js) = all_texts js
all_texts (null ∷ js) = all_texts js
all_texts (_ ∷ js) = false

-- The objects behind the last null, and whether each value is an object or null.
abbrev pub objects_from : List Members → List Json → List Members
objects_from found [] = found
objects_from found (null ∷ js) = objects_from [] js
objects_from found (obj ms ∷ js) = objects_from (found ++ (ms ∷ [])) js
objects_from found (_ ∷ js) = objects_from found js

-- All values of a name in some objects, one object after the other.
abbrev pub values_in : String → List Members → List Json
values_in tag [] = []
values_in tag (ms ∷ objects) = values tag ms ++ values_in tag objects

abbrev pub address_typed : Members → Bool
address_typed ms =
    all_texts (values "name" ms)
    && all_texts (values "line1" ms)
    && all_texts (values "line2" ms)
    && all_texts (values "city" ms)
    && all_texts (values "state" ms)
    && all_texts (values "postal_code" ms)
    && all_texts (values "country" ms)

abbrev pub all_addresses : List Json → Bool
all_addresses [] = true
all_addresses (null ∷ js) = all_addresses js
all_addresses (obj ms ∷ js) = address_typed ms && all_addresses js
all_addresses (_ ∷ js) = false

abbrev pub merged : List Members → BillingAddress
merged objects = record {
  name = last_text "" (values_in "name" objects);
  line1 = last_text "" (values_in "line1" objects);
  line2 = last_text "" (values_in "line2" objects);
  city = last_text "" (values_in "city" objects);
  state = last_text "" (values_in "state" objects);
  postal_code = last_text "" (values_in "postal_code" objects);
  country = last_text "" (values_in "country" objects);
}

-- No address without an object, and otherwise the last texts of all of them.
abbrev pub address_in : List Members → Option BillingAddress
address_in [] = none
address_in (ms ∷ objects) = some (merged (ms ∷ objects))

-- What an object says of a token.
pub record Describes (ms : Members) (t : SharedPaymentToken) : Type 0 where
  pub id : t.id ≡ last_text "" (values "id" ms)
  pub billing_address :
      t.billing_address ≡ address_in (objects_from [] (values "billing_address" ms))
  pub valid_until : t.valid_until ≡ last_text "" (values "valid_until" ms)
  pub id_typed : all_texts (values "id" ms) ≡ true
  pub address_typed : all_addresses (values "billing_address" ms) ≡ true
  pub valid_until_typed : all_texts (values "valid_until" ms) ≡ true

-- A field is filled by the values of its name, in their order.
abbrev pub folded : {A : Type 0} → (Field A → Json → Field A) → Field A → List Json → Field A
folded set f [] = f
folded set f (j ∷ js) = folded set (set f j) js

pub fill-folded :
    {A : Type 0} (set : Field A → Json → Field A) (tag : String) (f : Field A) (ms : Members)
    → fill set tag f ms ≡ folded set f (values tag ms)
unfolding fill
fill-folded set tag f end = refl
fill-folded set tag f (member name j rest) = elim (Bool-cases (matches tag name)) [
  | inl e ↦ rw e (fill-folded set tag (set f j) rest)
  | inr e ↦ rw e (fill-folded set tag f rest)
]

false-folded-string : (v : String) (js : List Json) → (folded set_string (v, false) js).1 ≡ false
false-folded-string v [] = refl
false-folded-string v (null ∷ js) = false-folded-string v js
false-folded-string v (str s ∷ js) = false-folded-string s js
false-folded-string v (bool b ∷ js) = false-folded-string v js
false-folded-string v (int z ∷ js) = false-folded-string v js
false-folded-string v (real s ∷ js) = false-folded-string v js
false-folded-string v (arr i ∷ js) = false-folded-string v js
false-folded-string v (obj ms ∷ js) = false-folded-string v js

pub folded-text :
    (v : String) (g : Bool) (js : List Json) → (folded set_string (v, g) js).0 ≡ last_text v js
folded-text v g [] = refl
folded-text v g (null ∷ js) = folded-text v g js
folded-text v g (str s ∷ js) = folded-text s g js
folded-text v g (bool b ∷ js) = folded-text v false js
folded-text v g (int z ∷ js) = folded-text v false js
folded-text v g (real s ∷ js) = folded-text v false js
folded-text v g (arr i ∷ js) = folded-text v false js
folded-text v g (obj ms ∷ js) = folded-text v false js

pub folded-typed : (v : String) (js : List Json) → (folded set_string (v, true) js).1 ≡ all_texts js
folded-typed v [] = refl
folded-typed v (null ∷ js) = folded-typed v js
folded-typed v (str s ∷ js) = folded-typed s js
folded-typed v (bool b ∷ js) = false-folded-string v js
folded-typed v (int z ∷ js) = false-folded-string v js
folded-typed v (real s ∷ js) = false-folded-string v js
folded-typed v (arr i ∷ js) = false-folded-string v js
folded-typed v (obj ms ∷ js) = false-folded-string v js

pub string_onto-text :
    (tag v : String) (ms : Members) → (string_onto tag v ms).0 ≡ last_text v (values tag ms)
unfolding string_onto
string_onto-text tag v ms =
    ap (λ (f : Field String). f.0) (fill-folded set_string tag (v, true) ms)
    ∙ folded-text v true (values tag ms)

pub string_onto-typed :
    (tag v : String) (ms : Members) → (string_onto tag v ms).1 ≡ all_texts (values tag ms)
unfolding string_onto
string_onto-typed tag v ms =
    ap (λ (f : Field String). f.1) (fill-folded set_string tag (v, true) ms)
    ∙ folded-typed v (values tag ms)

pub last_text-append :
    (v : String) (js ks : List Json) → last_text v (js ++ ks) ≡ last_text (last_text v js) ks
last_text-append v [] ks = refl
last_text-append v (null ∷ js) ks = last_text-append v js ks
last_text-append v (str s ∷ js) ks = last_text-append s js ks
last_text-append v (bool b ∷ js) ks = last_text-append v js ks
last_text-append v (int z ∷ js) ks = last_text-append v js ks
last_text-append v (real s ∷ js) ks = last_text-append v js ks
last_text-append v (arr i ∷ js) ks = last_text-append v js ks
last_text-append v (obj ms ∷ js) ks = last_text-append v js ks
