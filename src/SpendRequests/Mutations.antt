-- ===== src/SpendRequests/Mutations.antt =====
-- How often the operations of the resource send.
use stripelink.Prelude.{ℕ, String, concat, refl, not, is_blank, Option, none, some, List, On, arith}
use stripelink.Errors.{sentinel, wrap, join, invalid_argument, err}
use stripelink.World.{Env, Context, nil_context, context, lift, map_err}
use stripelink.World.Rules.{SendsAtMost, SendsAtMost-bind, SendsAtMost-lift, SendsAtMost-guard}
use stripelink.Transport.{Core, perform}
use stripelink.Transport.Replay.{IsUnauthenticated, perform_replays}
use stripelink.Auth.Wire.{is_success}
use stripelink.Types.{CreateSpendRequestParams, UpdateSpendRequestParams}
use stripelink.SpendRequests.Validation.{validate_spend_request_items, some_items}
use stripelink.SpendRequests.Decode.{Codec}
use stripelink.SpendRequests.{
  mutation_request, check, check_items, id_endpoint, mutate_spend_request, create, update, cancel,
  request_approval,
}

module _ {S : Type 0} (env : Env S) (core : Core S) (codec : Codec) where
  mutate_spend_request-SendsAtMost :
      (ctx : Context) (name url : String) (body : Option (List ℕ))
      → On IsUnauthenticated core.get_access_token
      → SendsAtMost 1 (mutate_spend_request env core codec ctx name url body)
  unfolding mutate_spend_request
  mutate_spend_request-SendsAtMost ctx name url body h =
      SendsAtMost-bind 1 0 1 (perform env core ctx (mutation_request url body)) _
        (record { at = λ w. (perform_replays env core ctx (mutation_request url body) w h).1 refl })
        (λ r. SendsAtMost-guard 0 (not (is_success r.0)) _ _ (SendsAtMost-lift 0 _)) (omega arith)

  check-SendsAtMost : (ctx : Context) → SendsAtMost 0 (check env core codec ctx)
  unfolding check
  check-SendsAtMost nil_context = SendsAtMost-lift 0 (err _)
  check-SendsAtMost (context f) = record { at = λ w. ground arith }

  create-SendsAtMost :
      (ctx : Context) (params : CreateSpendRequestParams)
      → On IsUnauthenticated core.get_access_token
      → SendsAtMost 1 (create env core codec ctx params)
  unfolding create
  create-SendsAtMost ctx params h =
      SendsAtMost-bind 0 1 1 (check env core codec ctx) _ (check-SendsAtMost ctx)
        (λ _. SendsAtMost-guard 1 (is_blank params.payment_details) _ _ (
          SendsAtMost-guard 1 (is_blank params.purpose) _ _ (
            SendsAtMost-bind 0 1 1
              (check_items env core codec "create spend request" (
                validate_spend_request_items (some_items params.line_items)
                  (some_items params.totals)))
              _ (SendsAtMost-lift 0 _)
              (λ _.
                SendsAtMost-bind 0 1 1
                  (map_err
                    (λ e. wrap "encode create spend request" (join (sentinel invalid_argument) e))
                    (lift (codec.write_create params)))
                  _ (record { at = λ w. omega arith })
                  (λ body.
                    mutate_spend_request-SendsAtMost ctx "create spend request" _ (some body) h)
                  (omega arith))
              (omega arith))))
        (omega arith)

  update-SendsAtMost :
      (ctx : Context) (id : String) (params : UpdateSpendRequestParams)
      → On IsUnauthenticated core.get_access_token
      → SendsAtMost 1 (update env core codec ctx id params)
  unfolding update
  update-SendsAtMost ctx id params h =
      SendsAtMost-bind 0 1 1 (check env core codec ctx) _ (check-SendsAtMost ctx)
        (λ _.
          SendsAtMost-bind 0 1 1 (lift (id_endpoint env core codec id)) _ (SendsAtMost-lift 0 _)
            (λ url.
              SendsAtMost-bind 0 1 1
                (check_items env core codec "update spend request" (
                  validate_spend_request_items (some_items params.line_items)
                    (some_items params.totals)))
                _ (SendsAtMost-lift 0 _)
                (λ _.
                  SendsAtMost-bind 0 1 1
                    (map_err
                      (λ e. wrap "encode update spend request" (join (sentinel invalid_argument) e))
                      (lift (codec.write_update params)))
                    _ (record { at = λ w. omega arith })
                    (λ body.
                      mutate_spend_request-SendsAtMost ctx "update spend request" url (some body) h)
                    (omega arith))
                (omega arith))
            (omega arith))
        (omega arith)

  cancel-SendsAtMost :
      (ctx : Context) (id : String)
      → On IsUnauthenticated core.get_access_token
      → SendsAtMost 1 (cancel env core codec ctx id)
  unfolding cancel
  cancel-SendsAtMost ctx id h =
      SendsAtMost-bind 0 1 1 (check env core codec ctx) _ (check-SendsAtMost ctx)
        (λ _.
          SendsAtMost-bind 0 1 1 (lift (id_endpoint env core codec id)) _ (SendsAtMost-lift 0 _)
            (λ url. mutate_spend_request-SendsAtMost ctx "cancel spend request" _ none h)
            (omega arith))
        (omega arith)

  request_approval-SendsAtMost :
      (ctx : Context) (id : String)
      → On IsUnauthenticated core.get_access_token
      → SendsAtMost 1 (request_approval env core codec ctx id)
  unfolding request_approval
  request_approval-SendsAtMost ctx id h =
      SendsAtMost-bind 0 1 1 (check env core codec ctx) _ (check-SendsAtMost ctx)
        (λ _.
          SendsAtMost-bind 0 1 1 (lift (id_endpoint env core codec id)) _ (SendsAtMost-lift 0 _)
            (λ url.
              SendsAtMost-bind 1 0 1
                (perform env core ctx (mutation_request (concat url "/request_approval") none)) _
                (record {
                  at = λ w.
                      (perform_replays env core ctx
                          (mutation_request (concat url "/request_approval") none) w h).1
                        refl;
                })
                (λ r. SendsAtMost-guard 0 (not (is_success r.0)) _ _ (SendsAtMost-lift 0 _))
                (omega arith))
            (omega arith))
        (omega arith)

  -- No mutation of a spend request is sent twice: each of the four operations puts at most one
  -- request under a bearer token on the wire, whatever the server answers, if the token source's own
  -- requests carry none.
  pub mutations_once :
      (ctx : Context) (id : String) (params : CreateSpendRequestParams)
      (changes : UpdateSpendRequestParams)
      → On IsUnauthenticated core.get_access_token
      → SendsAtMost 1 (create env core codec ctx params)
        × SendsAtMost 1 (update env core codec ctx id changes)
        × SendsAtMost 1 (cancel env core codec ctx id)
        × SendsAtMost 1 (request_approval env core codec ctx id)
  mutations_once ctx id params changes h = (
    create-SendsAtMost ctx params h,
    update-SendsAtMost ctx id changes h,
    cancel-SendsAtMost ctx id h,
    request_approval-SendsAtMost ctx id h,
  )
