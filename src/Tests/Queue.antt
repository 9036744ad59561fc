-- ===== src/Tests/Queue.antt =====
-- The runner on a store with one message due.
use unhalted.Prelude.{◌≡◌, refl, false, some, [], ◌∷◌, All}
use unhalted.Policy.{policy_yaml}
use unhalted.Models.{Kind, slug, nudge, cancelled}
use unhalted.Windows.{is_contact_allowed}
use unhalted.Store.Tables.{Store}
use unhalted.Store.Queue.{is_among, lease_due_actions, in_reach, action, cancel_pending}
use unhalted.Store.Leases.{lease_exclusive}
use unhalted.Runner.{Pass, RunReport, executors, run_action, run_due}
use unhalted.Runner.Gates.{cancellation_wins, run_due_silent}
use unhalted.Tests.Fixtures.{morning, night, no_link, queued, worked}

abbrev nobody_counted : RunReport
nobody_counted = record {
  reclaimed = 0;
  claimed = 1;
  done_count = 0;
  held = 0;
  cancelled_count = 0;
  no_adapter_count = 0;
  failed_count = 0;
}

abbrev passing : Store → Pass
passing s = record { report = nobody_counted; store = s; outbox = [] }

-- the store after everything of customer 7 was cancelled
abbrev emptied : Store
emptied = record worked {
  pending_actions =
      record (queued (slug nudge) morning) { state = cancelled; cancelled_at = some morning }
      ∷ record (queued Kind.retry night) { id = 2; state = cancelled; cancelled_at = some morning }
      ∷ [];
}

cancellation_wins_example :
    ((run_action
        (executors policy_yaml no_link)
        morning
        (queued (slug nudge) morning)
        (passing emptied)).store
      ≡ emptied)
    × ((run_action
          (executors policy_yaml no_link)
          morning
          (queued (slug nudge) morning)
          (passing emptied)).outbox
        ≡ [])
unfolding action in_reach cancel_pending
cancellation_wins_example =
    cancellation_wins (executors policy_yaml no_link) 7 0 (some morning) morning
      (queued (slug nudge) morning) (queued (slug nudge) morning) 2 (passing emptied) worked refl
      refl refl refl

run_due_silent_example : (run_due (executors policy_yaml no_link) night 5 50 worked).outbox ≡ []
unfolding is_contact_allowed
run_due_silent_example = run_due_silent policy_yaml no_link night 5 50 worked refl

-- the first worker takes the message, the second the retry of the evening
lease_exclusive_example :
    All
      (λ a. is_among (lease_due_actions morning 5 300000000 1 worked).0 a ≡ false)
      (lease_due_actions night 6 300000000 50 (lease_due_actions morning 5 300000000 1 worked).1).0
lease_exclusive_example = lease_exclusive morning night 5 6 300000000 300000000 1 50 worked
