-- ===== src/Examples/Signing.antt =====
-- The theorems on web bot auth at concrete inputs: a signature that is fetched once, kept, and served.
use stripelink.Prelude.{
  true, inr, String, ℕ, ◌+◌, ◌≤◌, ◌<◌, ◌≡◌, refl, false, none, some, [], ◌∷◌, On, arith, subst,
  is_blank, trim_space,
}
use stripelink.Prelude.Int.{pos}
use stripelink.Errors.{Result, ok}
use stripelink.Json.{matches}
use stripelink.World.{answered, status_of}
use stripelink.World.Rules.{bearers}
use stripelink.Transport.Replay.{IsUnauthenticated}
use stripelink.WebBotAuth.{
  Url, web_bot_authority, check_url, WebBotAuthBlock, Net, contains_any, web_bot_auth_expiry_buffer,
  trim_last, canonical_web_bot_hostname, canonical_web_bot_block_authority,
}
use stripelink.WebBotAuth.Fetch.{WebBotCodec, fetch_web_bot_auth}
use stripelink.WebBotAuth.Fetched.{IsBound, fetch_web_bot_auth-IsBound}
use stripelink.WebBotAuth.Flight.{
  SignStep, Signer, Entry, new_signer, sign_url, sign_web_bot_auth, signs, completes, Reached,
  made_new, after_step,
}
use stripelink.WebBotAuth.Flight.Shared.{sign_url-IsGood, one_live_call}
use stripelink.WebBotAuth.Flight.Caller.{
  enter, wait_for_web_bot_auth, at_once, and_then, Returned, from_call,
}
use stripelink.WebBotAuth.Flight.Caller.Bound.{sign_url_returns}
use stripelink.Examples.{live, env, core, world, empty_store, body}

abbrev shop : Url
shop = record {
  absolute = true;
  opaque = "";
  host = "shop.test:8443";
  scheme = "https";
  has_user = false;
  hostname = "shop.test";
}

abbrev net : Net
net = record {
  parse_url = λ _. some shop;
  parse_ip = λ _. none;
  to_lower = λ s. s;
  parse_time = λ _. some (pos 100000000000);
}

abbrev block : WebBotAuthBlock
block = record {
  signature = "sig1=:AA==:";
  signature_input = "sig1=()";
  signature_agent = "https://agent.test";
  authority = "shop.test";
  expires_at = "1970-01-01T00:01:40Z";
}

block-IsBound : IsBound net "shop.test" block 100000000000
unfolding canonical_web_bot_block_authority canonical_web_bot_hostname contains_any trim_last
    is_blank trim_space
block-IsBound = record {
  signature = refl;
  signature_input = refl;
  signature_agent = refl;
  bound = refl;
  expiry = (pos 100000000000, refl, refl);
}

abbrev codec : WebBotCodec
codec = record { write_url = λ _. ok (1 ∷ []); read_sign = λ _. ok (some block) }

source-IsUnauthenticated : On IsUnauthenticated core.get_access_token
source-IsUnauthenticated = record { at = λ ctx q. record { at = λ w. omega arith } }

fetch_web_bot_auth-IsBound_example :
    let o =
      fetch_web_bot_auth
        (env (answered 200 (body 1)))
        core
        net
        codec
        live
        "shop.test"
        "https://shop.test/x"
        (world empty_store) in
    (bearers o.1.sent ≤ 0 + 1)
    × ((out : WebBotAuthBlock × ℕ)
        → o.0 ≡ ok out
        → IsBound net "shop.test" out.0 out.1 × (o.1.now < out.1))
fetch_web_bot_auth-IsBound_example =
    fetch_web_bot_auth-IsBound (env (answered 200 (body 1))) core net codec live "shop.test"
      "https://shop.test/x" (world empty_store) source-IsUnauthenticated

abbrev asking : Signer
asking = (sign_url 0 "shop.test" new_signer).1

abbrev kept : Signer
kept = sign_web_bot_auth 1000000000 0 (ok (block, 100000000000)) asking

asking-Reached : Reached (IsBound net) asking
asking-Reached = after_step made_new (signs 0 "shop.test")

entry_of :
    (b : WebBotAuthBlock) (e : ℕ)
    (h : ◌≡◌ {A = Result Entry} (ok (block, 100000000000)) (ok (b, e)))
    → ◌≡◌ {A = Entry} (block, 100000000000) (b, e)
entry_of b e h = cc

fetched : SignStep (IsBound net) asking kept
unfolding sign_url
fetched =
    completes 1000000000 0 (ok (block, 100000000000))
      (record { authority = "shop.test"; waiters = 1; result = none; cancelled = false }) refl refl
      (λ b e h.
        subst (λ (x : Entry). IsBound net "shop.test" x.0 x.1) (entry_of b e h) block-IsBound)

kept-Reached : Reached (IsBound net) kept
kept-Reached = after_step asking-Reached fetched

-- the cache answers at once
sign_url-IsGood_example :
    (e : ℕ) × IsBound net "shop.test" block e × (2000000000 + web_bot_auth_expiry_buffer < e)
unfolding sign_url sign_web_bot_auth
sign_url-IsGood_example = sign_url-IsGood (IsBound net) kept 2000000000 "shop.test" kept-Reached

one_live_call_example : ◌≡◌ {A = ℕ} 0 0
unfolding sign_url
one_live_call_example = one_live_call (IsBound net) asking "shop.test" 0 0 asking-Reached refl refl

-- the call that this caller has started
returned : Returned (IsBound net) net "https://shop.test:8443/x" block
unfolding enter sign_url web_bot_authority check_url canonical_web_bot_hostname contains_any
    trim_last status_of matches wait_for_web_bot_auth sign_web_bot_auth
returned = from_call live 0 0 0 new_signer kept made_new (inr refl) (and_then at_once fetched) refl

sign_url_returns_example :
    (a : String) × (web_bot_authority net "https://shop.test:8443/x" ≡ ok a)
    × ((e : ℕ) × IsBound net a block e)
sign_url_returns_example =
    sign_url_returns (IsBound net) net "https://shop.test:8443/x" block returned
