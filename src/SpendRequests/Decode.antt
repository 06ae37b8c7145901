-- ===== src/SpendRequests/Decode.antt =====
-- spend_requests.go: the readers of answers, and the query of a retrieval.
--
-- What encoding/json, net/url and fmt do to these types is the record `Codec`, a parameter.
use stripelink.Prelude.{
  ℕ, String, concat, Bool, false, ◌&&◌, ◌||◌, not, Option, none, some, List, [], ◌∷◌, ◌==◌, eqb,
  suc, leb, trim_bytes, length, if◌then◌else◌,
}
use stripelink.Errors.{
  Err, plain, ApiError, operation, remote, Result, ok, err, invalid, fail_if, ◌>>=◌, ◌>>◌,
}
use stripelink.Json.{codes_eq}
use stripelink.Auth.Wire.{Reader, valid_copy}
use stripelink.Types.{
  SpendRequest, RequestApprovalResponse, CreateSpendRequestParams, UpdateSpendRequestParams,
}
use stripelink.SpendRequests.Validation.{Flaw, validate_spend_request_response, valid_include}

pub record Codec : Type 0 where
  -- json.Unmarshal of the types, and of the `data` of an envelope, which is empty if it is missing;
  -- the error is its text
  pub read_spend_request : List ℕ → Option SpendRequest
  pub read_spend_requests : List ℕ → Option (List SpendRequest)
  pub read_envelope : List ℕ → Option (List ℕ)
  pub read_approval : List ℕ → Option RequestApprovalResponse
  -- json.Marshal
  pub write_create : CreateSpendRequestParams → Result (List ℕ)
  pub write_update : UpdateSpendRequestParams → Result (List ℕ)
  -- url.PathEscape
  pub path_escape : String → String
  -- the endpoint with the query `include` of these values
  pub with_include : String → List String → Result String
  -- fmt's text of a flaw, of one in the item of a list, and of a reader's error
  pub describe : Flaw → String
  pub describe_item : ℕ → Flaw → String
  -- the text for the include value of this index
  pub describe_include : ℕ → String
  pub unmarshal_error : List ℕ → String

unfoldable pub is_json_object : List ℕ → Bool
is_json_object body = elim (trim_bytes body) [
  | [] ↦ false
  | c ∷ rest ↦ leb 1 (length rest) && eqb c 0x7b
]

abbrev pub malformed_spend_response : String → String → Err
malformed_spend_response name detail =
    plain (concat "decode successful " (concat name (concat " response: " detail)))

-- newSpendAPIError
unfoldable pub new_spend_api_error : Reader → String → ℕ → List ℕ → ApiError
new_spend_api_error parse name status body = record {
  code = "api_error";
  message = operation (concat "Failed to " name) status (remote body);
  status = status;
  raw_body = body;
  details = valid_copy parse body;
}

abbrev pub refuse_flaw : (Flaw → Err) → Option Flaw → Result (Unit {0})
refuse_flaw f none = ok tt
refuse_flaw f (some flaw) = err (f flaw)

abbrev pub unmarshal_or {ℓ} : {A : Type ℓ} → Err → Option A → Result A
unmarshal_or e none = err e
unmarshal_or e (some a) = ok a

-- len(data) == 0 || bytes.Equal(bytes.TrimSpace(data), []byte("null"))
unfoldable pub is_null : List ℕ → Bool
is_null field = eqb (length field) 0 || codes_eq (trim_bytes field) (0x6e ∷ 0x75 ∷ 0x6c ∷ 0x6c ∷ [])

unfoldable pub decode_spend_request_response : Codec → String → List ℕ → Result SpendRequest
decode_spend_request_response codec name body = do
  fail_if (not (is_json_object body)) (malformed_spend_response name "expected a JSON object")
  response ←
      unmarshal_or (malformed_spend_response name (codec.unmarshal_error body))
        (codec.read_spend_request body)
  refuse_flaw (λ f. malformed_spend_response name (codec.describe f))
      (validate_spend_request_response response)
  ok response

-- The loop over the items of a list, from the index `i`.
unfoldable pub validate_items_of_list : Codec → ℕ → List SpendRequest → Result (Unit {0})
validate_items_of_list codec i [] = ok tt
validate_items_of_list codec i (r ∷ rs) = do
  refuse_flaw (λ f. malformed_spend_response "list spend requests" (codec.describe_item i f))
      (validate_spend_request_response r)
  validate_items_of_list codec (suc i) rs

unfoldable pub decode_list_response : Codec → List ℕ → Result (List SpendRequest)
decode_list_response codec body = do
  fail_if (not (is_json_object body))
      (malformed_spend_response "list spend requests" "expected a JSON object envelope")
  field ←
      unmarshal_or (malformed_spend_response "list spend requests" (codec.unmarshal_error body))
        (codec.read_envelope body)
  if is_null field then ok [] else do
    requests ←
        unmarshal_or (malformed_spend_response "list spend requests" (codec.unmarshal_error field))
          (codec.read_spend_requests field)
    validate_items_of_list codec 0 requests
    ok requests

-- The index of the first value that is not valid, counted from `i`.
abbrev bad_include : ℕ → List String → Option ℕ
bad_include i [] = none
bad_include i (v ∷ vs) = if valid_include v then bad_include (suc i) vs else some i

-- The endpoint with the values to include, if there are any.
unfoldable pub include_endpoint : Codec → String → List String → Result String
include_endpoint codec url [] = ok url
include_endpoint codec url (v ∷ vs) = elim (bad_include 0 (v ∷ vs)) [
  | some i ↦ err (invalid (codec.describe_include i))
  | none ↦ codec.with_include url (v ∷ vs)
]

unfoldable pub decode_approval : Codec → List ℕ → Result RequestApprovalResponse
decode_approval codec body = do
  fail_if (not (is_json_object body))
      (malformed_spend_response "request approval" "expected a JSON object")
  response ←
      unmarshal_or (malformed_spend_response "request approval" (codec.unmarshal_error body))
        (codec.read_approval body)
  fail_if (response.id == "" || response.approval_link == "")
      (malformed_spend_response "request approval" "missing required id or approval_link")
  ok response
