-- ===== src/WebBotAuth/Fetched.antt =====
-- What is fetched is bound to the authority and has not expired, and asked for once.
use stripelink.Prelude.{
  ℕ, ◌+◌, ◌≤◌, ◌<◌, String, ◌≡◌, refl, ap, eq_iff, inl, inr, true, false, is_blank, On, Option,
  none, some, arith,
}
use stripelink.Prelude.Int.{ℤ, pos_part}
use stripelink.Errors.{wrap, Result, ok, err, Result-cases}
use stripelink.World.{Env, World, Context, lift, map_err}
use stripelink.World.Rules.{
  Ensures, Ensures-bind, SendsAtMost, SendsAtMost-bind, SendsAtMost-lift, bearers,
}
use stripelink.Transport.{Core}
use stripelink.Transport.Replay.{IsUnauthenticated}
use stripelink.Resources.{do_json, resource_operation_error}
use stripelink.Resources.Reports.{do_json-SendsAtMost}
use stripelink.WebBotAuth.{
  WebBotAuthBlock, Net, canonical_web_bot_block_authority, is_bound, parsed_expiry,
  validate_web_bot_auth_block,
}
use stripelink.WebBotAuth.Fetch.{WebBotCodec, sign_request, expect_block, dated, fetch_web_bot_auth}

-- The block is signed for the authority, until `expires_at`.
pub record IsBound (net : Net) (authority : String) (block : WebBotAuthBlock) (expires_at : ℕ)
    : Type 0 where
  pub signature : is_blank block.signature ≡ false
  pub signature_input : is_blank block.signature_input ≡ false
  pub signature_agent : is_blank block.signature_agent ≡ false
  pub bound : canonical_web_bot_block_authority net block.authority ≡ ok authority
  pub expiry : (z : ℤ) × (net.parse_time block.expires_at ≡ some z) × (pos_part z ≡ expires_at)

is_bound-ok :
    (net : Net) (r : Result String) (authority : String)
    → is_bound net r authority ≡ true
    → r ≡ ok authority
is_bound-ok net (ok bound) authority h = ap ok ((eq_iff bound authority).0 h)
is_bound-ok net (err e) authority h = cc

parsed_expiry-some :
    (net : Net) (o : Option ℤ) (now e : ℕ)
    → parsed_expiry net o now ≡ ok e
    → ((z : ℤ) × (o ≡ some z) × (pos_part z ≡ e)) × (now < e)
parsed_expiry-some net none now e h = cc
parsed_expiry-some net (some z) now e h = ((z, refl, ground (arith, h)), ground (arith, h))

validate_web_bot_auth_block-IsBound :
    (net : Net) (block : WebBotAuthBlock) (authority : String) (now e : ℕ)
    → validate_web_bot_auth_block net block authority now ≡ ok e
    → IsBound net authority block e × (now < e)
unfolding validate_web_bot_auth_block
validate_web_bot_auth_block-IsBound net block authority now e h =
    let parsed =
      parsed_expiry-some net (net.parse_time block.expires_at) now e (ground (arith, h)) in
    (
      record {
        signature = ground (arith, h);
        signature_input = ground (arith, h);
        signature_agent = ground (arith, h);
        bound =
            is_bound-ok net (canonical_web_bot_block_authority net block.authority) authority
              (ground (arith, h));
        expiry = parsed.0;
      },
      parsed.1,
    )

module _ {S : Type 0} (env : Env S) (core : Core S) (net : Net) (codec : WebBotCodec) where
  -- `validateWebBotAuthBlock(block, authority, now)`, and what it returns
  dated-IsBound :
      (authority : String) (block : WebBotAuthBlock)
      → Ensures {S = S}
          (λ out w. IsBound net authority out.0 out.1 × (w.now < out.1))
          (dated net authority block)
  unfolding dated
  dated-IsBound authority block = record {
    at = λ w out h. elim (Result-cases (validate_web_bot_auth_block net block authority w.now)) [
      | inr (x, e) ↦ absurd (cc (rw e at h))
      | inl (expires, e) ↦
          let same : out ≡ (block, expires) = ground (arith, rw e at h) in
          rw e (rw same (validate_web_bot_auth_block-IsBound net block authority w.now expires e))
    ];
  }

  fetch_web_bot_auth-SendsAtMost :
      (ctx : Context) (authority raw : String)
      → On IsUnauthenticated core.get_access_token
      → SendsAtMost 1 (fetch_web_bot_auth env core net codec ctx authority raw)
  unfolding fetch_web_bot_auth dated
  fetch_web_bot_auth-SendsAtMost ctx authority raw h =
      SendsAtMost-bind 0 1 1
        (map_err (wrap "encode web-bot-auth request") (lift (codec.write_url raw))) _
        (record { at = λ w. omega arith })
        (λ body.
          SendsAtMost-bind 1 0 1
            (map_err (resource_operation_error "Failed to get web bot auth headers")
              (do_json env core codec.read_sign ctx (sign_request core.api_base_url body)))
            _
            (record {
              at =
                  (do_json-SendsAtMost env core codec.read_sign ctx
                    (sign_request core.api_base_url body) refl h).at;
            })
            (λ response.
              SendsAtMost-bind 0 0 0 (lift (expect_block response)) _ (SendsAtMost-lift 0 _)
                (λ block. record { at = λ w. ground arith }) (omega arith))
            (omega arith))
        (omega arith)

  -- A signature is asked for under a bearer token at most once, provided that the token source's own
  -- requests carry none; and a block that is fetched has its fields, is signed for the authority that
  -- was asked for, and expires after the time at which it is returned.
  pub fetch_web_bot_auth-IsBound :
      (ctx : Context) (authority raw : String) (w : World S)
      → On IsUnauthenticated core.get_access_token
      → let o = fetch_web_bot_auth env core net codec ctx authority raw w in
        (bearers o.1.sent ≤ bearers w.sent + 1)
        × ((out : WebBotAuthBlock × ℕ)
            → o.0 ≡ ok out
            → IsBound net authority out.0 out.1 × (o.1.now < out.1))
  unfolding fetch_web_bot_auth
  fetch_web_bot_auth-IsBound ctx authority raw w h = (
    (fetch_web_bot_auth-SendsAtMost ctx authority raw h).at w,
    (Ensures-bind (map_err (wrap "encode web-bot-auth request") (lift (codec.write_url raw))) _
          λ body.
            Ensures-bind
              (map_err (resource_operation_error "Failed to get web bot auth headers")
                (do_json env core codec.read_sign ctx (sign_request core.api_base_url body)))
              _
              λ response.
                Ensures-bind (lift (expect_block response)) (dated net authority)
                  λ block. dated-IsBound authority block).at
        w,
  )
