-- ===== src/Types/PaymentToken.antt =====
-- types.go: SharedPaymentToken.UnmarshalJSON, which takes the token as a string or as an object.
--
-- The reader of a text is a parameter, as for the other answers; `none` is a receiver that is nil.
pub mod Reading
pub mod Address
pub mod Forms
use stripelink.Prelude.{
  ℕ, String, Bool, true, false, ◌&&◌, ◌||◌, not, Option, none, some, List, [], ◌∷◌, eqb, ◌==◌,
  trim_bytes, if◌then◌else◌,
}
use stripelink.Errors.{Err, plain, wrap, invalid, Result, ok, err, ◌>>=◌}
use stripelink.Json.{
  Json, null, str, obj, Members, Field, fill, set_string, string_field, unmarshal,
}
use stripelink.Auth.Wire.{Reader}
use stripelink.Types.{BillingAddress, SharedPaymentToken}

-- A field that has a value already.
unfoldable pub string_onto : String → String → Members → Field String
unfolding fill
string_onto tag v ms = fill set_string tag (v, true) ms

unfoldable pub address_onto : BillingAddress → Members → Field BillingAddress
unfolding string_onto
address_onto a ms =
    let (name, g0) = string_onto "name" a.name ms in
    let (line1, g1) = string_onto "line1" a.line1 ms in
    let (line2, g2) = string_onto "line2" a.line2 ms in
    let (city, g3) = string_onto "city" a.city ms in
    let (state, g4) = string_onto "state" a.state ms in
    let (postal_code, g5) = string_onto "postal_code" a.postal_code ms in
    let (country, g6) = string_onto "country" a.country ms in
    (
      record {
        name = name;
        line1 = line1;
        line2 = line2;
        city = city;
        state = state;
        postal_code = postal_code;
        country = country;
      },
      g0 && g1 && g2 && g3 && g4 && g5 && g6,
    )

abbrev pub no_address : BillingAddress
no_address = record {
  name = "";
  line1 = "";
  line2 = "";
  city = "";
  state = "";
  postal_code = "";
  country = "";
}

-- the address that a pointer leads to, which is made where the pointer is nil
abbrev pub target : Option BillingAddress → BillingAddress
target none = no_address
target (some a) = a

abbrev pub keep_good : Bool → Field BillingAddress → Field (Option BillingAddress)
keep_good good (a, more) = (some a, good && more)

-- a value for a pointer to an address
abbrev pub set_address : Field (Option BillingAddress) → Json → Field (Option BillingAddress)
set_address (v, good) null = (none, good)
set_address (v, good) (obj ms) = keep_good good (address_onto (target v) ms)
set_address (v, good) _ = (v, false)

-- wireSharedPaymentToken
unfoldable pub token_of : Members → Field SharedPaymentToken
unfolding fill string_field
token_of ms =
    let (id, i) = string_field "id" ms in
    let (billing_address, b) = fill set_address "billing_address" (none, true) ms in
    let (valid_until, v) = string_field "valid_until" ms in
    (record { id = id; billing_address = billing_address; valid_until = valid_until }, i && b && v)

abbrev pub only_id : String → SharedPaymentToken
only_id id = record { id = id; billing_address = none; valid_until = "" }

-- json.Unmarshal into a string
abbrev pub unmarshal_string : Option Json → Result String
unmarshal_string (some null) = ok ""
unmarshal_string (some (str s)) = ok s
unmarshal_string _ = err (plain "json: cannot unmarshal value into string")

abbrev pub unmarshal_object : Option Json → Result SharedPaymentToken
unmarshal_object none = err (plain "json: invalid value")
unmarshal_object (some j) = unmarshal token_of j

abbrev pub named : String → Result SharedPaymentToken
named id =
    if id == ""
    then err (plain "stripelink: decode shared payment token: missing id")
    else ok (only_id id)

abbrev pub described : ℕ → SharedPaymentToken → Result SharedPaymentToken
described first t =
    if not (eqb first 0x7b) || t.id == ""
    then err (
        plain
          "stripelink: decode shared payment token: expected an object with a non-empty id or a non-empty string")
    else ok t

abbrev pub blame_as {ℓ} : {A : Type ℓ} → String → Result A → Result A
blame_as message (ok a) = ok a
blame_as message (err e) = err (wrap message e)

-- UnmarshalJSON from `len(data) == 0` on
unfoldable pub decode_token : Reader → List ℕ → Result SharedPaymentToken
decode_token parse [] = err (plain "stripelink: decode shared payment token: empty JSON")
decode_token parse (c ∷ rest) =
    if eqb c 0x22
    then blame_as "stripelink: decode shared payment token string"
        (unmarshal_string (parse (c ∷ rest)))
      >>= named
    else blame_as "stripelink: decode shared payment token object"
        (unmarshal_object (parse (c ∷ rest)))
      >>= described c

-- *t = ...
abbrev pub assign :
    SharedPaymentToken → Result SharedPaymentToken → Result (Unit {0}) × Option SharedPaymentToken
assign before (ok t) = (ok tt, some t)
assign before (err e) = (err e, some before)

unfoldable pub unmarshal_json :
    Reader → List ℕ → Option SharedPaymentToken → Result (Unit {0}) × Option SharedPaymentToken
unmarshal_json parse text none =
    (err (invalid "shared payment token receiver must not be nil"), none)
unmarshal_json parse text (some before) = assign before (decode_token parse (trim_bytes text))
