-- ===== src/Tests/Events.antt =====
-- A payment delivered twice.
use unhalted.Prelude.{◌≡◌, refl, ◌+◌, true, false, none, some, [], ◌∷◌}
use unhalted.Policy.{policy_yaml}
use unhalted.Models.{Text, CaseState, ingest, signal_already_known}
use unhalted.Store.Tables.{Store, empty}
use unhalted.Store.Cases.{case_of, case_for_payment, open_case_or_get}
use unhalted.Store.Trail.{latest_diagnosis}
use unhalted.Store.Payments.{open_case_or_get_again}
use unhalted.Agent.Entry.{log}
use unhalted.Agent.Failure.{process}
use unhalted.Webhooks.{payment_failed, link_paid, Request, duplicate, razorpay_webhook}
use unhalted.Webhooks.Delivery.{razorpay_webhook_again}
use unhalted.Tests.Fixtures.{
  morning, eleven, no_link, causes, bank_down, timed_out, case_one, opened, worked,
}

open_case_or_get_again_example :
    open_case_or_get 9 timed_out opened ≡ some (case_one, false, opened)
unfolding open_case_or_get case_for_payment case_of
open_case_or_get_again_example =
    open_case_or_get_again 1 9 bank_down timed_out case_one true empty opened refl refl

abbrev sum_digest : Text → Text → Text
sum_digest secret raw = secret + raw

abbrev first_request : Request
first_request = record {
  raw = 100;
  signature = 103;
  event_id = 41;
  body = payment_failed (some bank_down);
}

-- the same event id, with another body
abbrev second_request : Request
second_request = record { raw = 200; signature = 203; event_id = 41; body = link_paid 1 49900 }

abbrev marked : Store
marked = record worked {
  processed_events = record { event_id = 41; case_id = 1 } ∷ [];
  audit =
      record {
        case_id = 1;
        at = morning;
        decision_type = ingest;
        action = signal_already_known;
        rules_fired = [];
        confidence = none;
      }
      ∷ [];
}

razorpay_webhook_again_example :
    razorpay_webhook policy_yaml causes no_link sum_digest 3 8 9 second_request eleven marked
    ≡ some (duplicate 1, marked)
unfolding razorpay_webhook open_case_or_get case_for_payment latest_diagnosis process log
razorpay_webhook_again_example =
    razorpay_webhook_again policy_yaml causes no_link sum_digest 3 1 2 8 9 1 first_request
      second_request bank_down CaseState.open_case morning eleven worked marked refl refl refl refl
      refl refl refl refl
