-- ===== src/Diagnostics/Summary.antt =====
-- The String and Format methods of auth.go, client.go, storage.go, types.go and web_bot_auth.go: what
-- fmt prints of a value that holds credentials, as bytes. Format prints for every verb what String says.
pub mod Bounded
use stripelink.Prelude.{ℕ, ◌+◌, Bool, true, false, List, ◌∷◌, ◌++◌}
use stripelink.Prelude.Int.{ℤ, pos, negsuc}
use stripelink.World.{Env}
use stripelink.Transport.{AccessTokenRequest}
use stripelink.Session.{AuthTokens, PendingDeviceAuth, AuthStorageState}
use stripelink.Auth.Device.{DeviceAuth}
use stripelink.Types.{Card, SharedPaymentToken, SpendRequest, RequestApprovalResponse}
use stripelink.WebBotAuth.{WebBotAuthBlock}
use stripelink.Client.Construction.{Options}
use stripelink.Diagnostics.ErrorText.{bytes, decimal}

-- fmt's %d of an integer, and %t
unfoldable pub signed : ℤ → List ℕ
signed (pos n) = decimal n
signed (negsuc n) = b'-' ∷ decimal (n + 1)

unfoldable pub truth : Bool → List ℕ
truth true = bytes "true"
truth false = bytes "false"

-- String; Format prints it for every verb.
unfoldable pub device_auth_summary : DeviceAuth → List ℕ
device_auth_summary d =
    bytes
      "DeviceAuth{DeviceCode:<redacted> UserCode:<redacted> VerificationURL:<redacted> VerificationURLComplete:<redacted> ExpiresIn:"
    ++ (signed d.expires_in
        ++ (bytes " ExpiresAt:"
            ++ (signed d.expires_at ++ (bytes " Interval:" ++ (signed d.interval ++ bytes "}")))))

unfoldable pub auth_tokens_summary : AuthTokens → List ℕ
auth_tokens_summary t =
    bytes "AuthTokens{AccessToken:<redacted> RefreshToken:<redacted> ExpiresIn:"
    ++ (signed t.expires_in
        ++ (bytes " TokenType:<redacted> ExpiresAt:" ++ (signed t.expires_at ++ bytes "}")))

unfoldable pub access_token_request_summary : AccessTokenRequest → List ℕ
access_token_request_summary r =
    bytes "AccessTokenRequest{ForceRefresh:"
    ++ (truth r.force_refresh ++ bytes " RejectedToken:<redacted>}")

abbrev pub options_start : List ℕ
options_start =
    bytes
      "Options{ClientName:<redacted> AccessToken:<redacted> GetAccessToken:<redacted> AuthStorage:<redacted> HTTPClient:<redacted> DefaultHeaders:<redacted> MaxResponseBodyBytes:"

abbrev pub options_middle : List ℕ
options_middle =
    bytes
      " AuthBaseURL:<redacted> APIBaseURL:<redacted> SpendRequestBaseURL:<redacted> Logger:<redacted> Verbose:"

unfoldable pub options_summary : {S : Type 0} {env : Env S} → Options env → List ℕ
options_summary o =
    options_start
    ++ (signed o.max_response_body_bytes ++ (options_middle ++ (truth o.verbose ++ bytes "}")))

unfoldable pub pending_device_auth_summary : PendingDeviceAuth → List ℕ
pending_device_auth_summary p =
    bytes "PendingDeviceAuth{DeviceCode:<redacted> Interval:"
    ++ (signed p.interval
        ++ (bytes " ExpiresAt:"
            ++ (signed p.expires_at ++ bytes " VerificationURL:<redacted> Phrase:<redacted>}")))

unfoldable pub auth_storage_state_summary : AuthStorageState → List ℕ
auth_storage_state_summary s =
    bytes "AuthStorageState{Auth:<redacted> PendingDeviceAuth:<redacted> DeviceAuthGeneration:"
    ++ (decimal s.device_auth_generation ++ bytes "}")

unfoldable pub card_summary : Card → List ℕ
card_summary c =
    bytes "Card{ID:<redacted> Brand:<redacted> ExpMonth:"
    ++ (signed c.exp_month
        ++ (bytes " ExpYear:"
            ++ (signed c.exp_year
                ++ bytes
                    " Number:<redacted> CVC:<redacted> BillingAddress:<redacted> ValidUntil:<redacted>}")))

unfoldable pub shared_payment_token_summary : SharedPaymentToken → List ℕ
shared_payment_token_summary t =
    bytes "SharedPaymentToken{ID:<redacted> BillingAddress:<redacted> ValidUntil:<redacted>}"

unfoldable pub spend_request_summary : SpendRequest → List ℕ
spend_request_summary s =
    bytes "SpendRequest{ID:<redacted> Status:<redacted> Amount:"
    ++ (signed s.amount
        ++ bytes
            " Currency:<redacted> CredentialType:<redacted> Card:<redacted> SharedPaymentToken:<redacted> LinkPayToken:<redacted>}")

unfoldable pub request_approval_response_summary : RequestApprovalResponse → List ℕ
request_approval_response_summary r =
    bytes "RequestApprovalResponse{ID:<redacted> ApprovalLink:<redacted>}"

unfoldable pub web_bot_auth_block_summary : WebBotAuthBlock → List ℕ
web_bot_auth_block_summary b =
    bytes
      "WebBotAuthBlock{Signature:<redacted> SignatureInput:<redacted> SignatureAgent:<redacted> Authority:<redacted> ExpiresAt:<redacted>}"
