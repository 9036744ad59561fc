-- ===== src/Tests/Runs.antt =====
-- A run of the whole program: a failed debit is worked, and the runner sends the message.
use unhalted.Prelude.{reads_as, refl, none, some, Option}
use unhalted.Policy.{policy_yaml}
use unhalted.Models.{Text, Case}
use unhalted.Taxonomy.{lookup}
use unhalted.Taxonomy.Table.{table}
use unhalted.Ladder.{evaluate}
use unhalted.Limits.{check, may_attempt, method_is}
use unhalted.Scheduler.{backoff_for}
use unhalted.Store.Tables.{Store, empty}
use unhalted.Agent.Failure.{handle_failure}
use unhalted.Runner.{executors, run_due}
use unhalted.Runner.Ceiling.{CeilingHolds}
use unhalted.System.{failure, pass, Reach, start, then}
use unhalted.System.Ceiling.{Reach-CeilingHolds}
use unhalted.System.Trail.{Extends, Step-Extends}
use unhalted.System.Limiter.{Sends, ledger, Step-refines}
use unhalted.Tests.Fixtures.{morning, eleven, no_link, causes, short_of_funds, case_one}

abbrev no_digest : Text → Text → Text
no_digest secret raw = 0

abbrev or_nothing : Option (Case × Store) → Case × Store
or_nothing none = (case_one, empty)
or_nothing (some r) = r

-- the failed debit is worked in the morning: a message is queued, and a retry behind it
abbrev taken : Case × Store
taken = or_nothing (handle_failure policy_yaml causes no_link 1 short_of_funds none morning empty)

-- and at eleven the runner sends the message
abbrev told : Store
told = (run_due (executors policy_yaml no_link) eleven 5 50 (taken.1)).store

Reach-taken : Reach policy_yaml causes no_link no_digest (taken.1)
unfolding handle_failure lookup table evaluate may_attempt check method_is reads_as backoff_for
Reach-taken = then start (failure 1 short_of_funds none morning (taken.0) (taken.1) refl)

Reach-CeilingHolds_example : CeilingHolds policy_yaml told
Reach-CeilingHolds_example =
    Reach-CeilingHolds policy_yaml causes no_link no_digest told
      (then Reach-taken (pass eleven 5 50))

Step-refines_example : Sends policy_yaml (ledger (taken.1)) (ledger told)
Step-refines_example =
    Step-refines policy_yaml causes no_link no_digest (taken.1) told Reach-taken (pass eleven 5 50)

Step-Extends_example : Extends (taken.1) told
Step-Extends_example =
    Step-Extends policy_yaml causes no_link no_digest (taken.1) told (pass eleven 5 50)
