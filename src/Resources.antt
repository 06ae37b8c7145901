-- ===== src/Resources.antt =====
-- reports.go, payment_methods.go, shipping_addresses.go and user_info.go: one call of doJSON each.
--
-- encoding/json on these types is the record `ResourceCodec`, a parameter; a pointer or a slice that may
-- be nil is an Option. A resource with no core is not modelled.
pub mod Reports
use stripelink.Prelude.{
  ℕ, String, concat, Bool, true, false, ◌||◌, not, Option, none, some, List, [], ◌∷◌, ◌==◌,
  is_blank,
}
use stripelink.Prelude.Int.{ℤ}
use stripelink.Errors.{
  Err, plain, wrap, api, ApiError, as_api, operation, remote, Result, ok, err, invalid,
}
use stripelink.World.{
  Env, Context, nil_context, context, M, ◌>>=◌, ◌>>◌, pure, raise, lift, raise_if, map_err, get,
  post, no_body, json,
}
use stripelink.Transport.{Core, ApiRequest, perform}
use stripelink.Auth.Wire.{Reader, is_success, valid_copy}

pub record CreateReportParams : Type 0 where
  pub domain : String
  pub outcome : String
  pub spend_request_id : String
  pub tags : Option (List String)
  pub step : Option String
  pub freeform_context : Option String

pub record ReportRecord : Type 0 where
  pub object : String
  pub created_at : String
  pub domain : String
  pub outcome : String
  pub spend_request_id : String
  pub status : String

pub record CardDetails : Type 0 where
  pub brand : String
  pub last4 : String
  pub exp_month : ℤ
  pub exp_year : ℤ

pub record BankAccountDetails : Type 0 where
  pub last4 : String
  pub bank_name : String

pub record PaymentMethod : Type 0 where
  pub id : String
  -- the field `Type`
  pub kind : String
  pub is_default : Bool
  pub nickname : String
  pub card_details : Option CardDetails
  pub bank_account_details : Option BankAccountDetails

pub record ShippingAddress : Type 0 where
  pub name : Option String
  pub line1 : Option String
  pub line2 : Option String
  pub locality : Option String
  pub dependent_locality : Option String
  pub administrative_area : Option String
  pub postal_code : Option String
  pub sorting_code : Option String
  pub country_code : Option String

pub record ShippingAddressRecord : Type 0 where
  pub id : String
  pub is_default : Bool
  pub nickname : Option String
  pub address : Option ShippingAddress

pub record UserInfo : Type 0 where
  pub email : Option String
  pub name : Option String
  pub first_name : Option String
  pub last_name : Option String
  pub phone : Option String

-- json.Unmarshal into a pointer, which a null leaves nil, and json.Marshal
pub record ResourceCodec : Type 0 where
  pub write_report : CreateReportParams → Result (List ℕ)
  pub read_report : List ℕ → Result (Option ReportRecord)
  -- the slice of the envelope
  pub read_payment_methods : List ℕ → Result (Option (Option (List PaymentMethod)))
  pub read_shipping_addresses : List ℕ → Result (Option (Option (List ShippingAddressRecord)))
  pub read_user_info : List ℕ → Result (Option UserInfo)

-- newAPIError
unfoldable pub new_api_error : Reader → ℕ → List ℕ → ApiError
new_api_error parse status body = record {
  code = "api_error";
  message = remote body;
  status = status;
  raw_body = body;
  details = valid_copy parse body;
}

unfoldable pub resource_operation_error : String → Err → Err
resource_operation_error name e = elim (as_api e) [
  | none ↦ e
  | some a ↦ api (record a { message = operation name a.status a.message })
]

-- if response == nil
abbrev pub expect_object : {A : Type 0} → Option A → Result A
expect_object none = err (plain "decode successful response: expected JSON object")
expect_object (some a) = ok a

-- if response.<Items> == nil { return []<Item>{}, nil }
abbrev pub no_nil : {A : Type 0} → Option (List A) → List A
no_nil none = []
no_nil (some xs) = xs

abbrev pub authenticated_get : String → ApiRequest
authenticated_get url = record {
  method = get;
  url = url;
  header = [];
  body = no_body;
  authenticated = true;
  retry_on_unauthorized = true;
}

abbrev pub report_request : String → List ℕ → ApiRequest
report_request base body = record {
  method = post;
  url = concat base "/agent_observations";
  header = ("Content-Type", "application/json") ∷ [];
  body = json body;
  authenticated = true;
  retry_on_unauthorized = false;
}

unfoldable pub lacks_field : ReportRecord → Bool
lacks_field r =
    is_blank r.object
    || is_blank r.created_at
    || is_blank r.domain
    || is_blank r.outcome
    || is_blank r.spend_request_id
    || is_blank r.status

module _ {S : Type 0} (env : Env S) (core : Core S) where
  unfoldable pub do_json : {A : Type 0} → (List ℕ → Result A) → Context → ApiRequest → M S A
  do_json read ctx req = do
    r ← perform env core ctx req
    raise_if (not (is_success r.0)) (api (new_api_error env.parse_json r.0 r.1))
    map_err (wrap "decode successful response") (lift (read r.1))

  -- The checks that every resource begins with.
  unfoldable pub check_resource : Context → String → M S (Unit {0})
  check_resource nil_context message = raise (invalid "context must not be nil")
  check_resource (context f) message = raise_if (core.api_base_url == "") (invalid message)

  module _ (codec : ResourceCodec) where
    unfoldable pub create_report : Context → CreateReportParams → M S ReportRecord
    create_report ctx params = do
      check_resource ctx "reports resource is not configured"
      body ← map_err (wrap "encode report request") (lift (codec.write_report params))
      response ←
          map_err (resource_operation_error "Failed to create report")
            (do_json codec.read_report ctx (report_request core.api_base_url body))
      r ← lift (expect_object response)
      raise_if (lacks_field r) (plain "decode successful report response: missing required field")
      pure r

    unfoldable pub list_payment_methods : Context → M S (List PaymentMethod)
    list_payment_methods ctx = do
      check_resource ctx "payment-methods resource is not configured"
      response ← map_err (resource_operation_error "Failed to list payment methods") (
          do_json codec.read_payment_methods ctx
            (authenticated_get (concat core.api_base_url "/payment-details")))
      r ← lift (expect_object response)
      pure (no_nil r)

    unfoldable pub list_shipping_addresses : Context → M S (List ShippingAddressRecord)
    list_shipping_addresses ctx = do
      check_resource ctx "shipping-addresses resource is not configured"
      response ← map_err (resource_operation_error "Failed to list shipping addresses") (
          do_json codec.read_shipping_addresses ctx
            (authenticated_get (concat core.api_base_url "/shipping_addresses")))
      r ← lift (expect_object response)
      pure (no_nil r)

    unfoldable pub retrieve_user_info : Context → M S UserInfo
    retrieve_user_info ctx = do
      check_resource ctx "user-info resource is not configured"
      response ← map_err (resource_operation_error "Failed to retrieve user info") (
          do_json codec.read_user_info ctx
            (authenticated_get (concat core.api_base_url "/userinfo")))
      lift (expect_object response)
