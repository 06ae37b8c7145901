-- ===== src/Examples/PaymentTokens.antt =====
-- SharedPaymentToken.UnmarshalJSON at concrete inputs: both forms of a token, and a missing identifier.
use stripelink.Prelude.{
  ℕ, ◌≡◌, ◌↔◌, refl, inl, inr, Bool-cases, none, some, List, [], ◌∷◌, codes, eqb, trim_bytes,
  String, if◌then◌else◌, arith,
}
use stripelink.Errors.{Err, ok, err}
use stripelink.Json.{null, str, obj, Members, end, member, fill, string_field}
use stripelink.Auth.Wire.{Reader}
use stripelink.Types.{SharedPaymentToken}
use stripelink.Types.PaymentToken.{
  token_of, address_onto, no_address, only_id, decode_token, unmarshal_json,
}
use stripelink.Types.PaymentToken.Forms.{ReadsJson, Denotes, unmarshal_json-Denotes}

-- The address comes in two members, the second of which fills the same value.
abbrev described_token : Members
described_token = member "ID" (str "spt_2") (
    member "billing_address" (obj (member "country" (str "US") end))
      (member "billing_address" (obj (member "line1" (str "1 Main St") end)) end))

-- A reader of two texts.
abbrev token_reader : Reader
token_reader [] = none
token_reader (c ∷ rest) =
    if eqb c 0x22
    then some (str "spt_1")
    else if eqb c 0x7b
    then some (obj described_token)
    else none

abbrev before : SharedPaymentToken
before = only_id "spt_0"

abbrev expected : SharedPaymentToken
expected = record {
  id = "spt_2";
  billing_address = some (record no_address { country = "US"; line1 = "1 Main St" });
  valid_until = "";
}

string_form :
    unmarshal_json token_reader (codes " \"spt_1\" ") (some before)
    ≡ (ok tt, some (only_id "spt_1"))
unfolding unmarshal_json decode_token trim_bytes
string_form = refl

object_form : unmarshal_json token_reader (codes "{}") (some before) ≡ (ok tt, some expected)
unfolding unmarshal_json decode_token trim_bytes token_of fill string_field address_onto
object_form = refl

-- null is no token, although json.Unmarshal takes it
null_refused : (unmarshal_json (λ text. some null) (codes "null") (some before)).1 ≡ some before
unfolding unmarshal_json decode_token trim_bytes token_of fill string_field
null_refused = refl

first_of_string :
    (text : List ℕ) (s : String)
    → token_reader text ≡ some (str s)
    → (rest : List ℕ) × (text ≡ 0x22 ∷ rest)
first_of_string [] s h = cc
first_of_string (c ∷ rest) s h = elim (Bool-cases (eqb c 0x22)) [
  | inl e ↦ (rest, ground (arith, e))
  | inr e ↦ absurd (ground (arith, rw e at h))
]

first_of_object :
    (text : List ℕ) (ms : Members)
    → token_reader text ≡ some (obj ms)
    → (rest : List ℕ) × (text ≡ 0x7b ∷ rest)
first_of_object [] ms h = cc
first_of_object (c ∷ rest) ms h = elim (Bool-cases (eqb c 0x7b)) [
  | inl e ↦ (rest, ground (arith, e))
  | inr e ↦ absurd (ground (arith, rw e at h))
]

token_reader-ReadsJson : ReadsJson token_reader
token_reader-ReadsJson = record {
  strings = λ text s h. first_of_string (trim_bytes text) s h;
  objects = λ text ms h. first_of_object (trim_bytes text) ms h;
}

unmarshal_json-Denotes_example :
    ((unmarshal_json token_reader (codes "{}") (some before) ≡ (ok tt, some expected))
      ↔ Denotes token_reader (trim_bytes (codes "{}")) expected)
    × ((e : Err)
        → (unmarshal_json token_reader (codes "{}") (some before)).0 ≡ err e
        → (unmarshal_json token_reader (codes "{}") (some before)).1 ≡ some before)
unmarshal_json-Denotes_example =
    unmarshal_json-Denotes token_reader before expected (codes "{}") token_reader-ReadsJson
