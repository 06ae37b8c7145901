-- ===== src/Examples/Reporting.antt =====
-- The theorem on reports at a concrete input.
use stripelink.Prelude.{◌+◌, ◌≤◌, ◌≡◌, none, some, [], ◌∷◌, On, arith}
use stripelink.Errors.{ok}
use stripelink.World.{answered}
use stripelink.World.Rules.{bearers}
use stripelink.Transport.Replay.{IsUnauthenticated}
use stripelink.Resources.{CreateReportParams, ReportRecord, ResourceCodec, create_report}
use stripelink.Resources.Reports.{IsFilled, create_report_once}
use stripelink.Examples.{live, env, core, world, empty_store, body}

abbrev params : CreateReportParams
params = record {
  domain = "shop.test";
  outcome = "success";
  spend_request_id = "lsrq_1";
  tags = none;
  step = none;
  freeform_context = none;
}

abbrev report : ReportRecord
report = record {
  object = "agent_observation";
  created_at = "2026-01-01";
  domain = "shop.test";
  outcome = "success";
  spend_request_id = "lsrq_1";
  status = "recorded";
}

abbrev resource_codec : ResourceCodec
resource_codec = record {
  write_report = λ _. ok (1 ∷ []);
  read_report = λ _. ok (some report);
  read_payment_methods = λ _. ok none;
  read_shipping_addresses = λ _. ok none;
  read_user_info = λ _. ok none;
}

source-IsUnauthenticated : On IsUnauthenticated core.get_access_token
source-IsUnauthenticated = record { at = λ ctx q. record { at = λ w. omega arith } }

create_report_once_example :
    (bearers
        (create_report
          (env (answered 200 (body 1)))
          core
          resource_codec
          live
          params
          (world empty_store)).1.sent
      ≤ 0 + 1)
    × ((r : ReportRecord)
        → (create_report
            (env (answered 200 (body 1)))
            core
            resource_codec
            live
            params
            (world empty_store)).0
          ≡ ok r
        → IsFilled r)
create_report_once_example =
    create_report_once (env (answered 200 (body 1))) core resource_codec live params
      (world empty_store) source-IsUnauthenticated
