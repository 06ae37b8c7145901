-- ===== src/SpendRequests.antt =====
-- spend_requests.go: the operations over the engine.
--
-- A resource with no core is not modelled.
pub mod Validation
pub mod Decode
pub mod Complete
pub mod Mutations
pub mod Created
use stripelink.Prelude.{
  ℕ, String, concat, Bool, true, false, ◌&&◌, ◌||◌, not, Option, none, some, List, [], ◌∷◌, ◌==◌,
  eqb, suc, ltb, leb, is_blank, trim_bytes, length, is_some, if◌then◌else◌, map,
}
use stripelink.Errors.{
  Err, sentinel, plain, wrap, join, api, invalid_argument, not_found, ApiError, Message, operation,
  remote, Result, ok, err, invalid,
}
use stripelink.World.{
  Env, World, Context, nil_context, context, M, ◌>>=◌, ◌>>◌, pure, raise, lift, raise_if, map_err,
  get, post, Payload, no_body, json,
}
use stripelink.Json.{codes_eq}
use stripelink.Transport.{Core, ApiRequest, perform}
use stripelink.Auth.Wire.{Reader, is_success, valid_copy}
use stripelink.Types.{
  SpendRequest, RequestApprovalResponse, CreateSpendRequestParams, UpdateSpendRequestParams,
}
use stripelink.SpendRequests.Validation.{
  Flaw, validate_spend_request_items, validate_spend_request_response, some_items,
  valid_spend_request_id, valid_include,
}
use stripelink.SpendRequests.Decode.{
  Codec, refuse_flaw, new_spend_api_error, decode_spend_request_response, decode_list_response,
  include_endpoint, decode_approval,
}

-- The requests of the resource: a GET may be sent again, a POST never.
abbrev pub read_request : String → ApiRequest
read_request url = record {
  method = get;
  url = url;
  header = [];
  body = no_body;
  authenticated = true;
  retry_on_unauthorized = true;
}

abbrev pub mutation_request : String → Option (List ℕ) → ApiRequest
mutation_request url body = record {
  method = post;
  url = url;
  header = if is_some body then ("Content-Type", "application/json") ∷ [] else [];
  body = elim body [ none ↦ no_body | some b ↦ json b ];
  authenticated = true;
  retry_on_unauthorized = false;
}

module _ {S : Type 0} (env : Env S) (core : Core S) (codec : Codec) where
  -- `validate`
  unfoldable pub check : Context → M S (Unit {0})
  check nil_context = raise (invalid "context must not be nil")
  check (context f) =
      raise_if (core.spend_request_base_url == "")
        (invalid "spend-request resource is not configured")

  abbrev pub endpoint : String
  endpoint = concat core.spend_request_base_url "/spend_requests"

  unfoldable pub id_endpoint : String → Result String
  id_endpoint id =
      if not (valid_spend_request_id id)
      then err (
          invalid
            "spend request id must be non-empty and must not contain control characters or path dot-segments")
      else ok (concat endpoint (concat "/" (codec.path_escape id)))

  abbrev pub expect_spend_success : String → ℕ × List ℕ → M S (Unit {0})
  expect_spend_success name r =
      raise_if (not (is_success r.0)) (api (new_spend_api_error env.parse_json name r.0 r.1))

  unfoldable pub mutate_spend_request :
      Context → String → String → Option (List ℕ) → M S SpendRequest
  mutate_spend_request ctx name url body = do
    r ← perform env core ctx (mutation_request url body)
    expect_spend_success name r
    lift (decode_spend_request_response codec name r.1)

  unfoldable pub list : Context → M S (List SpendRequest)
  list ctx = do
    check ctx
    r ← perform env core ctx (read_request endpoint)
    expect_spend_success "list spend requests" r
    lift (decode_list_response codec r.1)

  -- The items of the parameters, with the operation's own text before the flaw.
  abbrev pub check_items : String → Option Flaw → M S (Unit {0})
  check_items name flaw =
      lift (refuse_flaw (λ f. invalid (concat name (concat ": " (codec.describe f)))) flaw)

  unfoldable pub create : Context → CreateSpendRequestParams → M S SpendRequest
  create ctx params = do
    check ctx
    raise_if (is_blank params.payment_details) (invalid "PaymentDetails must not be empty")
    raise_if (is_blank params.purpose) (invalid "Context must not be empty")
    check_items "create spend request"
        (validate_spend_request_items (some_items params.line_items) (some_items params.totals))
    body ←
        map_err (λ e. wrap "encode create spend request" (join (sentinel invalid_argument) e))
          (lift (codec.write_create params))
    mutate_spend_request ctx "create spend request"
        (if params.approve then concat endpoint "/create_delegated" else endpoint) (some body)

  unfoldable pub update : Context → String → UpdateSpendRequestParams → M S SpendRequest
  update ctx id params = do
    check ctx
    url ← lift (id_endpoint id)
    check_items "update spend request"
        (validate_spend_request_items (some_items params.line_items) (some_items params.totals))
    body ←
        map_err (λ e. wrap "encode update spend request" (join (sentinel invalid_argument) e))
          (lift (codec.write_update params))
    mutate_spend_request ctx "update spend request" url (some body)

  unfoldable pub cancel : Context → String → M S SpendRequest
  cancel ctx id = do
    check ctx
    url ← lift (id_endpoint id)
    mutate_spend_request ctx "cancel spend request" (concat url "/cancel") none

  unfoldable pub retrieve : Context → String → List String → M S SpendRequest
  retrieve ctx id include = do
    check ctx
    url ← lift (id_endpoint id)
    full ← lift (include_endpoint codec url include)
    r ← perform env core ctx (read_request full)
    raise_if (eqb r.0 404) (sentinel not_found)
    expect_spend_success "retrieve spend request" r
    lift (decode_spend_request_response codec "retrieve spend request" r.1)

  unfoldable pub request_approval : Context → String → M S RequestApprovalResponse
  request_approval ctx id = do
    check ctx
    url ← lift (id_endpoint id)
    r ← perform env core ctx (mutation_request (concat url "/request_approval") none)
    expect_spend_success "request approval" r
    lift (decode_approval codec r.1)
