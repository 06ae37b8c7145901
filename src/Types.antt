-- ===== src/Types.antt =====
-- types.go: what the spend-request calls send and receive. A pointer or a slice that may be nil is
-- an Option; the string-backed enumerations pass unknown values through and are strings.
pub mod PaymentToken
use stripelink.Prelude.{String, Bool, Option, List}
use stripelink.Prelude.Int.{ℤ}

pub record Total : Type 0 where
  -- the field `Type`
  pub kind : String
  pub display_text : String
  -- in the smallest currency unit
  pub amount : ℤ

pub record LineItem : Type 0 where
  pub name : String
  pub url : Option String
  pub image_url : Option String
  pub description : Option String
  pub sku : Option String
  pub totals : List Total
  pub quantity : Option ℤ
  pub unit_amount : Option ℤ
  pub product_url : Option String

pub record BillingAddress : Type 0 where
  pub name : String
  pub line1 : String
  pub line2 : String
  pub city : String
  pub state : String
  pub postal_code : String
  pub country : String

pub record Card : Type 0 where
  pub id : String
  pub brand : String
  pub exp_month : ℤ
  pub exp_year : ℤ
  pub number : String
  pub cvc : String
  pub billing_address : Option BillingAddress
  pub valid_until : String

pub record SharedPaymentToken : Type 0 where
  pub id : String
  pub billing_address : Option BillingAddress
  pub valid_until : String

pub record RefundDetails : Type 0 where
  pub amount : ℤ
  pub currency : String
  pub state : String
  pub created : ℤ

pub record PaymentStatusDetails : Type 0 where
  pub outcome : String
  pub code : Option String
  pub decline_code : Option String
  pub amount : ℤ
  pub currency : String
  pub created : Option ℤ
  pub refund_details : Option RefundDetails

pub record SpendRequest : Type 0 where
  pub id : String
  pub merchant_name : String
  pub merchant_url : String
  -- the field `Context`
  pub purpose : String
  pub amount : ℤ
  pub currency : String
  pub line_items : Option (List LineItem)
  pub totals : Option (List Total)
  pub payment_method : String
  pub payment_details : String
  pub credential_type : String
  pub network_id : String
  pub status : String
  pub approval_url : String
  pub card : Option Card
  pub shared_payment_token : Option SharedPaymentToken
  pub link_pay_token : String
  pub payment_status_details : Option PaymentStatusDetails
  pub created_at : String
  pub updated_at : String

pub record RequestApprovalResponse : Type 0 where
  pub id : String
  pub approval_link : String

-- Validation reads a nil slice of the parameters as an empty one: only their encoding, which is a
-- parameter of the model, tells these apart.
pub record CreateSpendRequestParams : Type 0 where
  pub payment_details : String
  pub credential_type : String
  pub network_id : String
  pub amount : ℤ
  pub currency : String
  pub merchant_name : String
  pub merchant_url : String
  -- the field `Context`
  pub purpose : String
  pub line_items : Option (List LineItem)
  pub totals : Option (List Total)
  pub request_approval : Bool
  pub test : Bool
  pub approve : Bool

pub record UpdateSpendRequestParams : Type 0 where
  pub payment_details : Option String
  pub amount : Option ℤ
  pub merchant_url : Option String
  pub profile_id : Option String
  pub merchant_id : Option String
  pub currency : Option String
  pub line_items : Option (List LineItem)
  pub totals : Option (List Total)
