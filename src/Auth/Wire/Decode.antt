-- ===== src/Auth/Wire/Decode.antt =====
-- What the decoders of the OAuth answers accept.
use stripelink.Prelude.{
  ℕ, ◌+◌, ◌*◌, ◌/◌, ◌≤◌, ◌≡◌, inl, inr, Option-cases, some, List, arith, eq_iff,
}
use stripelink.Prelude.Int.{ℤ, pos, pos_part, max_int64}
use stripelink.Errors.{ok, >>=-eq-ok}
use stripelink.Session.{AuthTokens}
use stripelink.Session.Prepared.{IsPreparedAuth}
use stripelink.Auth.Wire.{
  Reader, second, tokens_of, decode_required_json, absolute_expiry, complete_tokens,
  decode_auth_tokens,
}

absolute_expiry_lem :
    (now : ℕ) (seconds t : ℤ)
    → absolute_expiry now seconds ≡ some t
    → (1 ≤ pos_part seconds)
      × (pos_part seconds * second ≤ max_int64)
      × (t ≡ pos ((now + pos_part seconds * second) / 1000000))
unfolding absolute_expiry
absolute_expiry_lem now seconds t h = ground arith

complete_tokens_lem :
    (now : ℕ) (a b : AuthTokens)
    → complete_tokens now a ≡ ok b
    → IsPreparedAuth b
      × (pos_part b.expires_in * second ≤ max_int64)
      × (b.expires_at ≡ pos ((now + pos_part b.expires_in * second) / 1000000))
unfolding complete_tokens
complete_tokens_lem now a b h = elim (Option-cases (absolute_expiry now a.expires_in)) [
  | inl e ↦ ground (arith, e)
  | inr (t, e) ↦ ground (
    arith,
    e,
    absolute_expiry_lem now a.expires_in t,
    eq_iff a.access_token "",
    eq_iff a.refresh_token "",
    eq_iff a.token_type "",
  )
]

-- Tokens that are decoded from a body can be stored as they are: no text is empty, the life time is
-- positive and at most the longest Duration, and the expiry is that many seconds from now.
pub decode_auth_tokens_lem :
    (parse : Reader) (now : ℕ) (body : List ℕ) (tokens : AuthTokens)
    → decode_auth_tokens parse now body ≡ ok tokens
    → IsPreparedAuth tokens
      × (pos_part tokens.expires_in * second ≤ max_int64)
      × (tokens.expires_at ≡ pos ((now + pos_part tokens.expires_in * second) / 1000000))
unfolding decode_auth_tokens
decode_auth_tokens_lem parse now body tokens h =
    let (a, _, e) = >>=-eq-ok (decode_required_json parse tokens_of body) (complete_tokens now) h in
    complete_tokens_lem now a tokens e
