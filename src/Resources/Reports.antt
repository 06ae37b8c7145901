-- ===== src/Resources/Reports.antt =====
-- What a report's creation sends and returns.
use stripelink.Prelude.{
  ℕ, ◌+◌, ◌≤◌, String, ◌≡◌, refl, inl, inr, subst, Bool-cases, false, not, is_blank, List, On,
  arith,
}
use stripelink.Errors.{Err, wrap, Result, ok, err}
use stripelink.World.{
  Env, World, Context, nil_context, context, ◌>>◌, lift, raise_if, map_err, pure, post,
}
use stripelink.World.Rules.{
  Ensures, Ensures-bind, SendsAtMost, SendsAtMost-bind, SendsAtMost-lift, SendsAtMost-guard,
  bearers,
}
use stripelink.Transport.{Core, ApiRequest, perform}
use stripelink.Transport.Replay.{IsUnauthenticated, perform_replays}
use stripelink.Auth.Wire.{is_success}
use stripelink.Resources.{
  CreateReportParams, ReportRecord, ResourceCodec, resource_operation_error, expect_object,
  report_request, lacks_field, do_json, check_resource, create_report,
}

-- No field is blank.
pub record IsFilled (r : ReportRecord) : Type 0 where
  pub object : is_blank r.object ≡ false
  pub created_at : is_blank r.created_at ≡ false
  pub domain : is_blank r.domain ≡ false
  pub outcome : is_blank r.outcome ≡ false
  pub spend_request_id : is_blank r.spend_request_id ≡ false
  pub status : is_blank r.status ≡ false

lacks_field-IsFilled : (r : ReportRecord) → lacks_field r ≡ false → IsFilled r
unfolding lacks_field
lacks_field-IsFilled r h = record {
  object = ground arith;
  created_at = ground arith;
  domain = ground arith;
  outcome = ground arith;
  spend_request_id = ground arith;
  status = ground arith;
}

module _ {S : Type 0} where
  -- `if r lacks a field { return an error }; return r`
  checked-IsFilled :
      (r : ReportRecord) (e : Err)
      → Ensures {S = S} (λ x _. IsFilled x) (raise_if (lacks_field r) e >> pure r)
  checked-IsFilled r e = record {
    at = λ w x h. elim (Bool-cases (lacks_field r)) [
      | inl y ↦ absurd (cc (rw y at h))
      | inr n ↦
          let same : r ≡ x = ground (arith, rw n at h) in
          subst IsFilled same (lacks_field-IsFilled r n)
    ];
  }

-- One call of doJSON with a POST.
pub do_json-SendsAtMost :
    {S A : Type 0} (env : Env S) (core : Core S) (read : List ℕ → Result A) (ctx : Context)
    (req : ApiRequest)
    → req.method ≡ post
    → On IsUnauthenticated core.get_access_token
    → SendsAtMost 1 (do_json env core read ctx req)
unfolding do_json
do_json-SendsAtMost env core read ctx req is_post h =
    SendsAtMost-bind 1 0 1 (perform env core ctx req) _
      (record { at = λ w. (perform_replays env core ctx req w h).1 is_post })
      (λ r. SendsAtMost-guard 0 (not (is_success r.0)) _ _ (record { at = λ w. omega arith }))
      (omega arith)

module _ {S : Type 0} (env : Env S) (core : Core S) (codec : ResourceCodec) where
  check_resource-SendsAtMost :
      (ctx : Context) (m : String) → SendsAtMost 0 (check_resource env core ctx m)
  unfolding check_resource
  check_resource-SendsAtMost nil_context m = SendsAtMost-lift 0 (err _)
  check_resource-SendsAtMost (context f) m = record { at = λ w. ground arith }

  create_report-SendsAtMost :
      (ctx : Context) (params : CreateReportParams)
      → On IsUnauthenticated core.get_access_token
      → SendsAtMost 1 (create_report env core codec ctx params)
  unfolding create_report
  create_report-SendsAtMost ctx params h =
      SendsAtMost-bind 0 1 1 (check_resource env core ctx "reports resource is not configured") _
        (check_resource-SendsAtMost ctx _)
        (λ _.
          SendsAtMost-bind 0 1 1
            (map_err (wrap "encode report request") (lift (codec.write_report params))) _
            (record { at = λ w. omega arith })
            (λ body.
              SendsAtMost-bind 1 0 1
                (map_err (resource_operation_error "Failed to create report")
                  (do_json env core codec.read_report ctx (report_request core.api_base_url body)))
                _
                (record {
                  at =
                      (do_json-SendsAtMost env core codec.read_report ctx
                        (report_request core.api_base_url body) refl h).at;
                })
                (λ response.
                  SendsAtMost-bind 0 0 0 (lift (expect_object response)) _ (SendsAtMost-lift 0 _)
                    (λ r. SendsAtMost-guard 0 (lacks_field r) _ _ (SendsAtMost-lift 0 (ok r)))
                    (omega arith))
                (omega arith))
            (omega arith))
        (omega arith)

  -- A report is submitted at most once, whatever comes back, provided that the token source's own
  -- requests carry no bearer token; and a record that is returned has no blank field.
  pub create_report_once :
      (ctx : Context) (params : CreateReportParams) (w : World S)
      → On IsUnauthenticated core.get_access_token
      → (bearers (create_report env core codec ctx params w).1.sent ≤ bearers w.sent + 1)
        × ((r : ReportRecord) → (create_report env core codec ctx params w).0 ≡ ok r → IsFilled r)
  unfolding create_report
  create_report_once ctx params w h = (
    (create_report-SendsAtMost ctx params h).at w,
    (Ensures-bind (check_resource env core ctx "reports resource is not configured") _ λ _.
          Ensures-bind (map_err (wrap "encode report request") (lift (codec.write_report params))) _
            λ body.
              Ensures-bind
                (map_err (resource_operation_error "Failed to create report")
                  (do_json env core codec.read_report ctx (report_request core.api_base_url body)))
                _
                λ response.
                  Ensures-bind (lift (expect_object response)) _ λ r. checked-IsFilled r _).at
        w,
  )
