-- ===== src/WebBotAuth/Fetch.antt =====
-- web_bot_auth.go: fetchWebBotAuth.
use stripelink.Prelude.{ℕ, String, concat, true, false, Option, none, some, List, [], ◌∷◌}
use stripelink.Errors.{wrap, Result, ok, err, invalid}
use stripelink.World.{Env, Context, M, ◌>>=◌, post, json, lift, pure, map_err, time_now}
use stripelink.Transport.{Core, ApiRequest}
use stripelink.Resources.{do_json, resource_operation_error}
use stripelink.WebBotAuth.{WebBotAuthBlock, Net, validate_web_bot_auth_block}

-- encoding/json on the request and the response; a nil block is `none`.
pub record WebBotCodec : Type 0 where
  pub write_url : String → Result (List ℕ)
  pub read_sign : List ℕ → Result (Option WebBotAuthBlock)

abbrev pub sign_request : String → List ℕ → ApiRequest
sign_request base body = record {
  method = post;
  url = concat base "/web_bot_auth/sign";
  header = ("Content-Type", "application/json") ∷ [];
  body = json body;
  authenticated = true;
  retry_on_unauthorized = false;
}

abbrev pub expect_block : Option WebBotAuthBlock → Result WebBotAuthBlock
expect_block none = err (invalid "Sign response missing web_bot_auth block")
expect_block (some block) = ok block

-- The block with its expiry, once it has been validated.
unfoldable pub dated : {S : Type 0} → Net → String → WebBotAuthBlock → M S (WebBotAuthBlock × ℕ)
dated net authority block = do
  now ← time_now
  expires_at ← lift (validate_web_bot_auth_block net block authority now)
  pure (block, expires_at)

module _ {S : Type 0} (env : Env S) (core : Core S) (net : Net) (codec : WebBotCodec) where
  unfoldable pub fetch_web_bot_auth : Context → String → String → M S (WebBotAuthBlock × ℕ)
  fetch_web_bot_auth ctx authority raw = do
    body ← map_err (wrap "encode web-bot-auth request") (lift (codec.write_url raw))
    response ←
        map_err (resource_operation_error "Failed to get web bot auth headers")
          (do_json env core codec.read_sign ctx (sign_request core.api_base_url body))
    block ← lift (expect_block response)
    dated net authority block
