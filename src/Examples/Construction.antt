-- ===== src/Examples/Construction.antt =====
-- The theorems on NewClient at concrete inputs: options that leave all but the body bound to the
-- defaults, on a file store.
use stripelink.Prelude.{◌+◌, ◌≤◌, ◌≡◌, refl, String, concat, ◌==◌, true, false, none, some, []}
use stripelink.Prelude.Int.{pos, negsuc}
use stripelink.Errors.{Err, misconfigured, invalid_configuration, is, ok, err}
use stripelink.World.{get, post, no_body}
use stripelink.World.Rules.{bearers}
use stripelink.Transport.{ApiRequest, perform}
use stripelink.Storage.{Storage}
use stripelink.FileStorage.Contract.{file_storage}
use stripelink.FileStorage.Path.{new_file_storage, default_path}
use stripelink.Client.{
  BaseUrl, resolve_base_url, normalize_base_url, check_base_url, without_slashes, trim_slashes,
  copy_and_validate_default_headers, copy_and_validate,
}
use stripelink.Client.Construction.{
  nil, Options, Process, Client, assemble, zero_client, refusing, direct, response_bound,
  own_transport, proxy_transport, resolve_http_client, resolve_spend_url, resolve_storage,
  new_client,
}
use stripelink.Client.Construction.Configured.{IsConfigured, new_client-IsConfigured}
use stripelink.Client.Construction.Refused.{new_client-error}
use stripelink.Client.Construction.Replays.{new_client_replays}
use stripelink.Examples.{live}
use stripelink.Examples.Disks.{disk_env, sys, sys-Documented, disk_world}

abbrev parsed : String → BaseUrl
parsed raw = record {
  absolute = true;
  opaque = "";
  host = raw;
  scheme = "https";
  has_user = false;
  raw_query = "";
  force_query = false;
  fragment = "";
  raw_fragment = "";
  hostname = raw;
  path = "/";
  raw_path = "";
}

abbrev process : Process
process = record {
  getenv = λ name. "";
  standard_default_transport = true;
  net = record {
    parse_url = λ raw. some (parsed raw);
    url_text = λ u. concat u.host u.path;
    is_loopback_ip = λ s. false;
    canonical_key = λ s. s;
    equal_fold = λ s t. s == t;
  };
  paths = record {
    user_config_dir = ok "/home/.config";
    join = λ parts. "/home/.config/stripelink/auth.json";
    abs = λ path. ok path;
    clean = λ path. path;
  };
}

abbrev store : String → Storage disk_env
store path = file_storage disk_env sys sys-Documented

abbrev defaults : Options disk_env
defaults = record {
  client_name = "";
  access_token = "";
  get_access_token = none;
  auth_storage = nil;
  http_client = none;
  default_headers = [];
  max_response_body_bytes = pos 100;
  auth_base_url = "";
  api_base_url = "";
  spend_request_base_url = "";
  logger = none;
  verbose = false;
}

abbrev made : Client disk_env
made =
    assemble disk_env process store defaults "https://login.link.com" "https://api.link.com"
      "https://api.link.com" (pos 100) (refusing direct zero_client) (store "")

new_client_lem : new_client disk_env process store defaults ≡ ok made
unfolding new_client resolve_base_url normalize_base_url check_base_url without_slashes trim_slashes
    copy_and_validate_default_headers copy_and_validate response_bound own_transport proxy_transport
    resolve_http_client resolve_spend_url resolve_storage new_file_storage default_path
new_client_lem = refl

new_client-IsConfigured_example : IsConfigured disk_env process.net defaults made
new_client-IsConfigured_example =
    new_client-IsConfigured disk_env process store defaults made new_client_lem

abbrev negative : Options disk_env
negative = record defaults { max_response_body_bytes = negsuc 0 }

abbrev bound_error : Err
bound_error = misconfigured "MaxResponseBodyBytes must not be negative"

negative_lem : new_client disk_env process store negative ≡ err bound_error
unfolding new_client resolve_base_url normalize_base_url check_base_url without_slashes trim_slashes
    copy_and_validate_default_headers copy_and_validate response_bound resolve_spend_url
negative_lem = refl

new_client-error_example : is invalid_configuration bound_error ≡ true
new_client-error_example = new_client-error disk_env process store negative bound_error negative_lem

abbrev reading : ApiRequest
reading = record {
  method = get;
  url = "https://api.link.com/userinfo";
  header = [];
  body = no_body;
  authenticated = true;
  retry_on_unauthorized = true;
}

new_client_replays_example :
    let sent = (perform disk_env made.core live reading disk_world).1.sent in
    (bearers sent ≤ 0 + 2)
    × (get ≡ post → bearers sent ≤ 0 + 1)
    × (true ≡ false → bearers sent ≤ 0 + 1)
new_client_replays_example =
    new_client_replays disk_env process store defaults made live reading disk_world refl
      new_client_lem
