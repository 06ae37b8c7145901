-- ===== src/Examples/Spending.antt =====
-- The theorems on spend requests at concrete inputs.
use stripelink.Prelude.{
  ◌≡◌, refl, true, false, Option, none, some, [], ◌∷◌, On, arith, is_blank, trim_bytes,
}
use stripelink.Prelude.Int.{pos}
use stripelink.Errors.{ok}
use stripelink.World.{Stream, answered}
use stripelink.World.Rules.{SendsAtMost}
use stripelink.Transport.{
  perform, engine, authenticated_engine, attempts, after_attempt, do_attempt, http_request, receive,
  read_bounded, some_token,
}
use stripelink.Transport.Replay.{IsUnauthenticated}
use stripelink.Types.{
  Total, LineItem, SpendRequest, CreateSpendRequestParams, UpdateSpendRequestParams,
}
use stripelink.SpendRequests.{check, mutate_spend_request, create, update, cancel, request_approval}
use stripelink.SpendRequests.Validation.{
  validate_totals_from, validate_items_from, validate_spend_request_items, validate_card,
  validate_shared_payment_token, validate_payment_status, validate_spend_request_response,
}
use stripelink.SpendRequests.Decode.{Codec, is_json_object, decode_spend_request_response}
use stripelink.SpendRequests.Complete.{IsComplete, validate_spend_request_response-IsComplete}
use stripelink.SpendRequests.Mutations.{mutations_once}
use stripelink.SpendRequests.Created.{create-IsComplete}
use stripelink.Examples.{live, env, core, world, empty_store}

abbrev total : Total
total = record { kind = "total"; display_text = "Total"; amount = pos 500 }

abbrev item : LineItem
item = record {
  name = "Tea";
  url = none;
  image_url = none;
  description = none;
  sku = none;
  totals = total ∷ [];
  quantity = some (pos 1);
  unit_amount = some (pos 500);
  product_url = none;
}

abbrev spend_request : SpendRequest
spend_request = record {
  id = "lsrq_1";
  merchant_name = "Shop";
  merchant_url = "";
  purpose = "tea";
  amount = pos 500;
  currency = "usd";
  line_items = some (item ∷ []);
  totals = some (total ∷ []);
  payment_method = "";
  payment_details = "csmrpd_1";
  credential_type = "card";
  network_id = "";
  status = "created";
  approval_url = "";
  card = none;
  shared_payment_token = none;
  link_pay_token = "";
  payment_status_details = none;
  created_at = "2026-01-01";
  updated_at = "2026-01-01";
}

abbrev codec : Codec
codec = record {
  read_spend_request = λ _. some spend_request;
  read_spend_requests = λ _. some [];
  read_envelope = λ _. some [];
  read_approval = λ _. none;
  write_create = λ _. ok (1 ∷ []);
  write_update = λ _. ok (2 ∷ []);
  path_escape = λ id. id;
  with_include = λ url _. ok url;
  describe = λ _. "flaw";
  describe_item = λ _ _. "flaw in an item";
  describe_include = λ _. "include value";
  unmarshal_error = λ _. "unmarshal";
}

abbrev create_params : CreateSpendRequestParams
create_params = record {
  payment_details = "csmrpd_1";
  credential_type = "card";
  network_id = "";
  amount = pos 500;
  currency = "usd";
  merchant_name = "Shop";
  merchant_url = "";
  purpose = "tea";
  line_items = some (item ∷ []);
  totals = none;
  request_approval = true;
  test = false;
  approve = false;
}

abbrev update_params : UpdateSpendRequestParams
update_params = record {
  payment_details = none;
  amount = some (pos 600);
  merchant_url = none;
  profile_id = none;
  merchant_id = none;
  currency = none;
  line_items = none;
  totals = none;
}

-- {}
abbrev object : Option Stream
object = some (record { bytes = 0x7b ∷ 0x7d ∷ []; failure = none; close_failure = none })

validate_spend_request_response-IsComplete_example : IsComplete spend_request
unfolding validate_spend_request_response validate_spend_request_items validate_items_from
    validate_totals_from validate_card validate_shared_payment_token validate_payment_status
    is_blank
validate_spend_request_response-IsComplete_example =
    validate_spend_request_response-IsComplete spend_request refl

core-IsUnauthenticated : On IsUnauthenticated core.get_access_token
core-IsUnauthenticated = record { at = λ ctx q. record { at = λ w. omega arith } }

mutations_once_example :
    SendsAtMost 1 (create (env (answered 401 object)) core codec live create_params)
    × SendsAtMost 1 (update (env (answered 401 object)) core codec live "lsrq_1" update_params)
    × SendsAtMost 1 (cancel (env (answered 401 object)) core codec live "lsrq_1")
    × SendsAtMost 1 (request_approval (env (answered 401 object)) core codec live "lsrq_1")
mutations_once_example =
    mutations_once (env (answered 401 object)) core codec live "lsrq_1" create_params update_params
      core-IsUnauthenticated

create-IsComplete_example :
    IsComplete spend_request
    × (is_blank "csmrpd_1" ≡ false)
    × (is_blank "tea" ≡ false)
    × (validate_spend_request_items (item ∷ []) [] ≡ none)
unfolding create check mutate_spend_request perform engine authenticated_engine attempts
    after_attempt do_attempt http_request receive read_bounded some_token
    decode_spend_request_response is_json_object trim_bytes validate_spend_request_response
    validate_spend_request_items validate_items_from validate_totals_from validate_card
    validate_shared_payment_token validate_payment_status is_blank
create-IsComplete_example =
    create-IsComplete (env (answered 200 object)) core codec live create_params (world empty_store)
      spend_request refl
