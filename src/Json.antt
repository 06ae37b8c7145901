-- ===== src/Json.antt =====
-- What the program uses of encoding/json: values, and how json.Unmarshal fills a struct. The reader
-- of a byte text is a parameter of the clients; it returns a value exactly where json.Valid holds.
--
-- Unmarshal walks an object's members in order. A member goes to the field whose tag is its name up
-- to case, `null` leaves the field, and a value of another type leaves it too and makes the call
-- return an error in the end.
use stripelink.Prelude.{
  ℕ, ◌+◌, String, Bool, true, false, ◌&&◌, List, [], ◌∷◌, map, leb, eqb, codes, if◌then◌else◌,
}
use stripelink.Prelude.Int.{ℤ, in_int64}
use stripelink.Errors.{plain, Result, ok, err}

mutual
  pub data Json : Type 0 where
    null : Json
    bool : Bool → Json
    -- a number with neither fraction nor exponent, and any other
    int : ℤ → Json
    real : String → Json
    str : String → Json
    arr : Items → Json
    obj : Members → Json

  pub data Items : Type 0 where
    nil : Items
    cons : Json → Items → Items

  pub data Members : Type 0 where
    end : Members
    member : String → Json → Members → Members

-- Case folding as far as it meets the letters of a tag: ASCII, the long s and the Kelvin sign.
abbrev pub fold : ℕ → ℕ
fold c =
    if leb 65 c && leb c 90
    then c + 32
    else if eqb c 0x17f
    then 115
    else if eqb c 0x212a
    then 107
    else c

abbrev pub codes_eq : List ℕ → List ℕ → Bool
codes_eq [] [] = true
codes_eq (c ∷ s) (d ∷ t) = eqb c d && codes_eq s t
codes_eq _ _ = false

unfoldable pub matches : String → String → Bool
matches tag name = codes_eq (map fold (codes tag)) (map fold (codes name))

-- A field's value so far, and whether every value for it had its type.
abbrev pub Field : Type 0 → Type 0
Field A = A × Bool

abbrev pub set_string : Field String → Json → Field String
set_string (v, good) null = (v, good)
set_string (v, good) (str s) = (s, good)
set_string (v, good) _ = (v, false)

abbrev pub set_int : Field ℤ → Json → Field ℤ
set_int (v, good) null = (v, good)
set_int (v, good) (int z) = if in_int64 z then (z, good) else (v, false)
set_int (v, good) _ = (v, false)

module _ {A : Type 0} (set : Field A → Json → Field A) (tag : String) where
  unfoldable pub fill : Field A → Members → Field A
  fill f end = f
  fill f (member name j rest) = fill (if matches tag name then set f j else f) rest

unfoldable pub string_field : String → Members → Field String
unfolding fill matches
string_field tag = fill set_string tag ("", true)

unfoldable pub int_field : String → Members → Field ℤ
unfolding fill matches
int_field tag = fill set_int tag (ℤ.pos 0, true)

-- json.Unmarshal into a struct with the fields that `decode` fills, zero if the text is null.
abbrev pub unmarshal {ℓ} : {A : Type ℓ} → (Members → A × Bool) → Json → Result A
unmarshal decode null = let (a, good) = decode end in ok a
unmarshal decode (obj ms) =
    let (a, good) = decode ms in
    if good then ok a else err (plain "json: cannot unmarshal value into struct field")
unmarshal decode _ = err (plain "json: cannot unmarshal value into struct")
