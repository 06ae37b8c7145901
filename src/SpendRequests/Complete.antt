-- ===== src/SpendRequests/Complete.antt =====
-- What a spend request has that passes the validation of a response.
use stripelink.Prelude.{
  ℕ, suc, ◌≤◌, String, ◌≡◌, ◌≢◌, refl, is_blank, Bool, true, false, ◌||◌, not, On, Option, none,
  some, List, [], ◌∷◌, ◌==◌, is_some, arith, eq_iff,
}
use stripelink.Prelude.Int.{pos_part}
use stripelink.Types.{
  Total, LineItem, BillingAddress, Card, SharedPaymentToken, RefundDetails, PaymentStatusDetails,
  SpendRequest,
}
use stripelink.SpendRequests.Validation.{
  Flaw, ◌then◌, flaw_if, validate_totals_from, validate_items_from, validate_spend_request_items,
  some_items, validate_address, validate_card, validate_shared_payment_token, validate_refund,
  validate_payment_status, validate_spend_request_response,
}

-- Every element has the property.
pub data Each {A : Type 0} (P : A → Type 0) : List A → Type 0 where
  all_of_none : Each P []
  all_of_more : {x : A} {xs : List A} → P x → Each P xs → Each P (x ∷ xs)

pub record IsShown (t : Total) : Type 0 where
  pub kind : is_blank t.kind ≡ false
  pub display_text : is_blank t.display_text ≡ false

pub record IsNamed (i : LineItem) : Type 0 where
  pub name : is_blank i.name ≡ false
  pub totals : Each IsShown i.totals

pub record IsPostal (a : BillingAddress) : Type 0 where
  pub name : a.name ≢ ""
  pub line1 : a.line1 ≢ ""
  pub country : a.country ≢ ""

pub record IsUsableCard (c : Card) : Type 0 where
  pub id : c.id ≢ ""
  pub brand : c.brand ≢ ""
  pub number : c.number ≢ ""
  pub month : (1 ≤ pos_part c.exp_month) × (pos_part c.exp_month ≤ 12)
  pub year : 1 ≤ pos_part c.exp_year
  pub address : On IsPostal c.billing_address

pub record IsSettled (d : PaymentStatusDetails) : Type 0 where
  pub outcome : d.outcome ≢ ""
  pub currency : d.currency ≢ ""
  pub refund : On (λ x. (x.currency ≢ "") × (x.state ≢ "")) d.refund_details

pub record IsComplete (r : SpendRequest) : Type 0 where
  pub texts : (r.id ≢ "") × (r.payment_details ≢ "") × (r.status ≢ "")
  pub times : (r.created_at ≢ "") × (r.updated_at ≢ "")
  pub items : (is : List LineItem) × (r.line_items ≡ some is) × Each IsNamed is
  pub totals : (ts : List Total) × (r.totals ≡ some ts) × Each IsShown ts
  pub card : On IsUsableCard r.card
  pub token : On (λ t. On IsPostal t.billing_address) r.shared_payment_token
  pub settled : On IsSettled r.payment_status_details

then-none : (o p : Option Flaw) → (o then p) ≡ none → (o ≡ none) × (p ≡ none)
then-none none p h = (refl, h)
then-none (some f) p h = cc

flaw_if-none : (b : Bool) (f : Flaw) → flaw_if b f ≡ none → b ≡ false
flaw_if-none true f h = cc
flaw_if-none false f h = refl

or-false : (a b : Bool) → (a || b) ≡ false → (a ≡ false) × (b ≡ false)
or-false true b h = cc
or-false false b h = (refl, h)

not_empty : (s : String) → (s == "") ≡ false → s ≢ ""
not_empty s h = ground (arith, eq_iff s "")

validate_totals_from-IsShown :
    (path : Option ℕ) (i : ℕ) (ts : List Total)
    → validate_totals_from path i ts ≡ none
    → Each IsShown ts
unfolding validate_totals_from
validate_totals_from-IsShown path i [] h = all_of_none
validate_totals_from-IsShown path i (t ∷ ts) h =
    let (a, b) = then-none _ _ h in
    let e = flaw_if-none _ _ a in
    all_of_more (record { kind = ground arith; display_text = ground arith })
      (validate_totals_from-IsShown path (suc i) ts b)

validate_items_from-IsNamed :
    (i : ℕ) (is : List LineItem) → validate_items_from i is ≡ none → Each IsNamed is
unfolding validate_items_from
validate_items_from-IsNamed i [] h = all_of_none
validate_items_from-IsNamed i (item ∷ items) h =
    let (a, rest) = then-none _ _ h in
    let (b, c) = then-none _ _ rest in
    all_of_more
      (record {
        name = flaw_if-none _ _ a;
        totals = validate_totals_from-IsShown (some i) 0 item.totals b;
      })
      (validate_items_from-IsNamed (suc i) items c)

validate_address-IsPostal :
    (m : String) (o : Option BillingAddress) → validate_address m o ≡ none → On IsPostal o
unfolding validate_address
validate_address-IsPostal m none h = tt
validate_address-IsPostal m (some a) h =
    ground (arith, eq_iff a.name "", eq_iff a.line1 "", eq_iff a.country "", flaw_if-none _ _ h)

validate_card-IsUsableCard : (o : Option Card) → validate_card o ≡ none → On IsUsableCard o
unfolding validate_card
validate_card-IsUsableCard none h = tt
validate_card-IsUsableCard (some c) h =
    let (a, b) = then-none _ _ h in
    let e = flaw_if-none _ _ a in
    let address = validate_address-IsPostal _ c.billing_address b in
    record {
      id = ground (arith, eq_iff c.id "");
      brand = ground (arith, eq_iff c.brand "");
      number = ground (arith, eq_iff c.number "");
      month = ground arith;
      year = ground arith;
      address = address;
    }

validate_refund_lem :
    (o : Option RefundDetails)
    → validate_refund o ≡ none
    → On (λ x. (x.currency ≢ "") × (x.state ≢ "")) o
unfolding validate_refund
validate_refund_lem none h = tt
validate_refund_lem (some d) h =
    ground (arith, eq_iff d.currency "", eq_iff d.state "", flaw_if-none _ _ h)

validate_payment_status-IsSettled :
    (o : Option PaymentStatusDetails) → validate_payment_status o ≡ none → On IsSettled o
unfolding validate_payment_status
validate_payment_status-IsSettled none h = tt
validate_payment_status-IsSettled (some d) h =
    let (a, b) = then-none _ _ h in
    let e = flaw_if-none _ _ a in
    let refund = validate_refund_lem d.refund_details b in
    record {
      outcome = ground (arith, eq_iff d.outcome "");
      currency = ground (arith, eq_iff d.currency "");
      refund = refund;
    }

token_lem :
    (o : Option SharedPaymentToken)
    → validate_shared_payment_token o ≡ none
    → On (λ t. On IsPostal t.billing_address) o
unfolding validate_shared_payment_token
token_lem none h = tt
token_lem (some t) h = validate_address-IsPostal _ t.billing_address h

is_some_lem : {A : Type 0} (o : Option (List A)) → not (is_some o) ≡ false → o ≡ some (some_items o)
is_some_lem none h = cc
is_some_lem (some xs) h = refl

-- A response that the validation accepts is complete: it has its texts and times, every item is named
-- and every total can be shown, and what it carries of a card, a token or a payment can be used.
pub validate_spend_request_response-IsComplete :
    (r : SpendRequest) → validate_spend_request_response r ≡ none → IsComplete r
unfolding validate_spend_request_response validate_spend_request_items
validate_spend_request_response-IsComplete r h =
    let (id, h1) = then-none _ _ h in
    let (details, h2) = then-none _ _ h1 in
    let (status, h3) = then-none _ _ h2 in
    let (times, h4) = then-none _ _ h3 in
    let (present, h5) = then-none _ _ h4 in
    let (all, h6) = then-none _ _ h5 in
    let (card, h7) = then-none _ _ h6 in
    let (token, settled) = then-none _ _ h7 in
    let (items, totals) = then-none _ _ all in
    let (created, updated) = or-false _ _ (flaw_if-none _ _ times) in
    let (has_items, has_totals) = or-false _ _ (flaw_if-none _ _ present) in
    record {
      texts = (
        not_empty r.id (flaw_if-none _ _ id),
        not_empty r.payment_details (flaw_if-none _ _ details),
        not_empty r.status (flaw_if-none _ _ status),
      );
      times = (not_empty r.created_at created, not_empty r.updated_at updated);
      items = (
        some_items r.line_items,
        is_some_lem r.line_items has_items,
        validate_items_from-IsNamed 0 (some_items r.line_items) items,
      );
      totals = (
        some_items r.totals,
        is_some_lem r.totals has_totals,
        validate_totals_from-IsShown none 0 (some_items r.totals) totals,
      );
      card = validate_card-IsUsableCard r.card card;
      token = token_lem r.shared_payment_token token;
      settled = validate_payment_status-IsSettled r.payment_status_details settled;
    }
