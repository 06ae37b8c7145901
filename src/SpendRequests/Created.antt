-- ===== src/SpendRequests/Created.antt =====
-- What Create returns.
use stripelink.Prelude.{
  ℕ, String, ◌≡◌, refl, Bool, true, false, is_blank, Option, none, some, List, arith,
}
use stripelink.Errors.{Err, sentinel, wrap, join, invalid, invalid_argument, ok}
use stripelink.World.{Env, World, Context, M, lift, raise_if, map_err}
use stripelink.World.Rules.{Returns, Returns-bind, Returns-bind-returned, Returns-lift}
use stripelink.Transport.{Core, perform}
use stripelink.Types.{SpendRequest, CreateSpendRequestParams}
use stripelink.SpendRequests.Validation.{Flaw, validate_spend_request_items, some_items}
use stripelink.SpendRequests.Decode.{Codec, refuse_flaw, decode_spend_request_response}
use stripelink.SpendRequests.{
  mutation_request, check, check_items, expect_spend_success, mutate_spend_request, create,
}
use stripelink.SpendRequests.Complete.{IsComplete, validate_spend_request_response-IsComplete}

raise_if-Returns :
    {S : Type 0} (b : Bool) (e : Err) → Returns {S = S} (λ _. b ≡ false) (raise_if b e)
raise_if-Returns true e = record { at = λ w u h. cc }
raise_if-Returns false e = record { at = λ w u h. refl }

refuse_flaw-none :
    (f : Flaw → Err) (o : Option Flaw) (u : Unit {0}) → refuse_flaw f o ≡ ok u → o ≡ none
refuse_flaw-none f none u h = refl
refuse_flaw-none f (some x) u h = cc

Returns-weaken :
    {S A : Type 0} {P Q : A → Type 0} (m : M S A)
    → Returns P m
    → ((a : A) → P a → Q a)
    → Returns Q m
Returns-weaken m h f = record { at = λ w a e. f a (h.at w a e) }

decode-IsComplete :
    (codec : Codec) (name : String) (body : List ℕ) (r : SpendRequest)
    → decode_spend_request_response codec name body ≡ ok r
    → IsComplete r
unfolding decode_spend_request_response
decode-IsComplete codec name body r h = validate_spend_request_response-IsComplete r (ground arith)

module _ {S : Type 0} (env : Env S) (core : Core S) (codec : Codec) where
  mutate_spend_request-IsComplete :
      (ctx : Context) (name url : String) (body : Option (List ℕ))
      → Returns IsComplete (mutate_spend_request env core codec ctx name url body)
  unfolding mutate_spend_request
  mutate_spend_request-IsComplete ctx name url body =
      Returns-bind (perform env core ctx (mutation_request url body)) _ λ r.
        Returns-bind (expect_spend_success env core codec name r) _
          λ _. Returns-lift _ (decode-IsComplete codec name r.1)

  abbrev items : CreateSpendRequestParams → Option Flaw
  items params =
      validate_spend_request_items (some_items params.line_items) (some_items params.totals)

  abbrev Created : CreateSpendRequestParams → SpendRequest → Type 0
  Created params r =
      IsComplete r
      × (is_blank params.payment_details ≡ false)
      × (is_blank params.purpose ≡ false)
      × (items params ≡ none)

  -- A spend request that Create returns is complete, and its parameters passed the checks that
  -- go before the request: no blank payment details or context, and no flaw in the items and totals.
  pub create-IsComplete :
      (ctx : Context) (params : CreateSpendRequestParams) (w : World S) (r : SpendRequest)
      → (create env core codec ctx params w).0 ≡ ok r
      → IsComplete r
        × (is_blank params.payment_details ≡ false)
        × (is_blank params.purpose ≡ false)
        × (validate_spend_request_items (some_items params.line_items) (some_items params.totals)
            ≡ none)
  unfolding create
  create-IsComplete ctx params w r h =
      (Returns-bind {Q = Created params} (check env core codec ctx) _ λ _.
          Returns-bind-returned
            (raise_if (is_blank params.payment_details)
              (invalid "PaymentDetails must not be empty"))
            _ (raise_if-Returns _ _)
            λ _ details.
              Returns-bind-returned
                (raise_if (is_blank params.purpose) (invalid "Context must not be empty")) _
                (raise_if-Returns _ _)
                λ _ purpose.
                  Returns-bind-returned
                    (check_items env core codec "create spend request" (items params)) _
                    (Returns-lift _ (λ u e. refuse_flaw-none _ _ u e))
                    λ _ fine.
                      Returns-bind
                        (map_err
                          (λ e.
                            wrap "encode create spend request" (join (sentinel invalid_argument) e))
                          (lift (codec.write_create params)))
                        _
                        λ body.
                          Returns-weaken
                            (mutate_spend_request env core codec ctx "create spend request" _
                              (some body))
                            (mutate_spend_request-IsComplete ctx "create spend request" _
                              (some body))
                            (λ x complete. (complete, details, purpose, fine))).at
        w r h
