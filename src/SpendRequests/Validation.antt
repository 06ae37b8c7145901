-- ===== src/SpendRequests/Validation.antt =====
-- spend_requests.go: the checks of identifiers, items and responses. A `Flaw` is the error's content;
-- `none` means that there is none.
use stripelink.Prelude.{
  ℕ, suc, String, codes, is_control, is_space, is_blank, Bool, true, false, ◌&&◌, ◌||◌, not, Option,
  none, some, List, [], ◌∷◌, ◌==◌, eqb, ltb, if◌then◌else◌, is_some,
}
use stripelink.Prelude.Int.{pos_part, not_positive}
use stripelink.Types.{
  Total, LineItem, BillingAddress, Card, SharedPaymentToken, RefundDetails, PaymentStatusDetails,
  SpendRequest,
}

pub data Flaw : Type 0 where
  -- a text without an index
  missing : String → Flaw
  -- line_items[%d] is missing required name
  unnamed : ℕ → Flaw
  -- an entry of `totals`, or of the totals of a line item
  bare_total : Option ℕ → ℕ → Flaw

-- The first error decides.
infixr 4 ◌then◌
abbrev pub ◌then◌ : Option Flaw → Option Flaw → Option Flaw
none then o = o
some f then o = some f

abbrev pub flaw_if : Bool → Flaw → Option Flaw
flaw_if true f = some f
flaw_if false f = none

-- The loop of validateSpendRequestTotals from the index `i`.
unfoldable pub validate_totals_from : Option ℕ → ℕ → List Total → Option Flaw
validate_totals_from path i [] = none
validate_totals_from path i (t ∷ ts) =
    flaw_if (is_blank t.kind || is_blank t.display_text) (bare_total path i)
    then validate_totals_from path (suc i) ts

abbrev pub validate_spend_request_totals : Option ℕ → List Total → Option Flaw
validate_spend_request_totals path totals = validate_totals_from path 0 totals

-- The loop of validateSpendRequestItems from the index `i`.
unfoldable pub validate_items_from : ℕ → List LineItem → Option Flaw
validate_items_from i [] = none
validate_items_from i (item ∷ items) =
    flaw_if (is_blank item.name) (unnamed i)
    then validate_spend_request_totals (some i) item.totals
    then validate_items_from (suc i) items

unfoldable pub validate_spend_request_items : List LineItem → List Total → Option Flaw
validate_spend_request_items line_items totals =
    validate_items_from 0 line_items then validate_spend_request_totals none totals

-- A nil slice has no items.
abbrev pub some_items {ℓ} : {A : Type ℓ} → Option (List A) → List A
some_items none = []
some_items (some xs) = xs

unfoldable pub validate_address : String → Option BillingAddress → Option Flaw
validate_address message none = none
validate_address message (some a) =
    flaw_if (a.name == "" || a.line1 == "" || a.country == "") (missing message)

unfoldable pub validate_card : Option Card → Option Flaw
validate_card none = none
validate_card (some c) =
    flaw_if
      (c.id == ""
        || c.brand == ""
        || not_positive c.exp_month
        || ltb 12 (pos_part c.exp_month)
        || not_positive c.exp_year
        || c.number == "")
      (missing "card is missing required credential fields")
    then validate_address "card billing_address is missing required fields" c.billing_address

unfoldable pub validate_shared_payment_token : Option SharedPaymentToken → Option Flaw
validate_shared_payment_token none = none
validate_shared_payment_token (some t) =
    validate_address "shared payment token billing_address is missing required fields"
      t.billing_address

unfoldable pub validate_refund : Option RefundDetails → Option Flaw
validate_refund none = none
validate_refund (some d) =
    flaw_if (d.currency == "" || d.state == "")
      (missing "refund_details is missing required fields")

unfoldable pub validate_payment_status : Option PaymentStatusDetails → Option Flaw
validate_payment_status none = none
validate_payment_status (some d) =
    flaw_if (d.outcome == "" || d.currency == "")
      (missing "payment_status_details is missing required fields")
    then validate_refund d.refund_details

unfoldable pub validate_spend_request_response : SpendRequest → Option Flaw
validate_spend_request_response r =
    flaw_if (r.id == "") (missing "missing required id")
    then flaw_if (r.payment_details == "") (missing "missing required payment_details")
    then flaw_if (r.status == "") (missing "missing required status")
    then flaw_if (r.created_at == "" || r.updated_at == "")
        (missing "missing required created_at or updated_at")
    then flaw_if (not (is_some r.line_items) || not (is_some r.totals))
        (missing "missing required line_items or totals")
    then validate_spend_request_items (some_items r.line_items) (some_items r.totals)
    then validate_card r.card
    then validate_shared_payment_token r.shared_payment_token
    then validate_payment_status r.payment_status_details

-- `!unicode.IsControl(c) && !unicode.IsSpace(c)` of every character
abbrev pub all_plain : List ℕ → Bool
all_plain [] = true
all_plain (c ∷ cs) = not (is_control c || is_space c) && all_plain cs

-- A String here has characters only: it is valid UTF-8.
unfoldable pub valid_spend_request_id : String → Bool
valid_spend_request_id id =
    if is_blank id || id == "." || id == ".." then false else all_plain (codes id)

abbrev no_comma : List ℕ → Bool
no_comma [] = true
no_comma (c ∷ cs) = not (eqb c 0x2c) && no_comma cs

unfoldable pub valid_include : String → Bool
valid_include value =
    if value == "" then false else all_plain (codes value) && no_comma (codes value)
