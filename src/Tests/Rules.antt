-- ===== src/Tests/Rules.antt =====
-- The rules of the shell and the taxonomy on concrete inputs.

use unhalted.Prelude.{
  any, not, ◌&&◌, ◌*◌, ◌+◌, ◌≤◌, ◌<◌, ◌≡◌, ◌↔◌, ◌⊎◌, refl, true, false, none, some, [], ◌∷◌,
  reads_as, arith,
}
use unhalted.Clock.{Instant, day, hour}
use unhalted.Policy.{policy_yaml, policy_yaml-IsCoherent}
use unhalted.Models.{StopCode, authority, hold_for_human, nudge}
use unhalted.Windows.{
  BudgetCheck, subject_to_execution_bands, is_execution_allowed, next_allowed_execution,
  is_contact_allowed, next_allowed_contact,
}
use unhalted.Windows.Execution.{next_allowed_execution_earliest}
use unhalted.Windows.Contact.{next_allowed_contact_earliest}
use unhalted.Scheduler.{schedule_retry}
use unhalted.Scheduler.Earliest.{schedule_retry_earliest}
use unhalted.Limits.{may_attempt, check}
use unhalted.Limits.Permission.{Consented, rail_ceiling, may_attempt-check}
use unhalted.Ladder.{refuses, rate_of, evaluate}
use unhalted.Ladder.Economics.{cost, stake, approved_iff}
use unhalted.Replies.{decide}
use unhalted.Replies.Precedence.{stops, is_caused, is_forestalled, stop_code-decide}
use unhalted.Taxonomy.{Reasons, causes_under, lookup, diagnose, documented_causes}
use unhalted.Taxonomy.Caution.{ambiguous_held}
use unhalted.Taxonomy.Ignorance.{lookup_without_method}
use unhalted.Tests.Fixtures.{today, morning, eleven, night, causes, ambiguous, leave_me_alone}

abbrev one_o_clock : Instant
one_o_clock = 20000 * day + 13 * hour

-- one message this morning, and the budget is spent tonight
abbrev spent : BudgetCheck
spent = record { allowed = false; used = 1; limit = 1; free_at = some (morning + 14 * day) }

next_allowed_execution_earliest_example :
    (eleven ≤ next_allowed_execution policy_yaml eleven (some "upi"))
    × ((is_execution_allowed policy_yaml
          (next_allowed_execution policy_yaml eleven (some "upi"))
          (some "upi")).allowed
        ≡ true)
    × ((u : Instant)
        → eleven ≤ u
        → (is_execution_allowed policy_yaml u (some "upi")).allowed ≡ true
        → next_allowed_execution policy_yaml eleven (some "upi") ≤ u)
next_allowed_execution_earliest_example =
    next_allowed_execution_earliest policy_yaml policy_yaml-IsCoherent eleven (some "upi")

next_allowed_contact_earliest_example :
    (night ≤ next_allowed_contact policy_yaml night)
    × ((is_contact_allowed policy_yaml (next_allowed_contact policy_yaml night)).allowed ≡ true)
    × ((u : Instant)
        → night ≤ u
        → (is_contact_allowed policy_yaml u).allowed ≡ true
        → next_allowed_contact policy_yaml night ≤ u)
next_allowed_contact_earliest_example =
    next_allowed_contact_earliest policy_yaml policy_yaml-IsCoherent night

schedule_retry_earliest_example :
    (eleven ≤ one_o_clock)
    × (morning ≤ one_o_clock)
    × ((is_execution_allowed policy_yaml one_o_clock (some "upi")).allowed ≡ true)
    × (one_o_clock ≤ night)
unfolding schedule_retry is_execution_allowed next_allowed_execution subject_to_execution_bands
    reads_as
schedule_retry_earliest_example =
    schedule_retry_earliest policy_yaml policy_yaml-IsCoherent eleven morning 0 (some "upi")
      one_o_clock night refl (omega arith) (omega arith) refl

may_attempt-check_example :
    (may_attempt (check policy_yaml 1500001 (some "UPI") (some 2000000) false) ≡ true) ↔ (
      (0 < 1500001)
      × Consented 1500001 (some 2000000)
      × (1500001 ≤ rail_ceiling policy_yaml (some "UPI") false))
may_attempt-check_example = may_attempt-check policy_yaml 1500001 (some "UPI") (some 2000000) false

approved_iff_example : ((evaluate policy_yaml nudge 49900 none [] none).approved ≡ true) ↔ (
    (refuses nudge [] ≡ false)
    × ((cost policy_yaml nudge ≡ 0)
        ⊎ (cost policy_yaml nudge * 100 < rate_of none nudge * stake policy_yaml 49900 none)))
unfolding rate_of
approved_iff_example = approved_iff policy_yaml nudge 49900 none [] none (omega arith)

stop_code-decide_example :
    (((decide policy_yaml leave_me_alone today none).stop_code ≡ some StopCode.opt_out) ↔ (
      is_caused 500000 leave_me_alone StopCode.opt_out
        && not (is_forestalled 500000 leave_me_alone StopCode.opt_out)
      ≡ true))
    × (((decide policy_yaml leave_me_alone today none).stop_code ≡ none)
        ↔ (any (is_caused 500000 leave_me_alone) stops ≡ false))
stop_code-decide_example =
    stop_code-decide policy_yaml leave_me_alone today none StopCode.opt_out refl

ambiguous_held_example :
    ((diagnose causes ambiguous).confidence ≤ 500000)
    × (authority policy_yaml (diagnose causes ambiguous) ≡ hold_for_human)
unfolding documented_causes
ambiguous_held_example =
    ambiguous_held policy_yaml causes ambiguous "payment_failed" refl refl (omega arith)
      (omega arith) (omega arith)

-- a reason with one documented cause on cards and two on UPI
abbrev two_methods : Reasons
two_methods = ("card", ("payment_failed", 1) ∷ []) ∷ causes

lookup_without_method_example :
    ((lookup two_methods none (some "payment_failed") none none).confidence
      ≤ (lookup two_methods (some "card") (some "payment_failed") none none).confidence)
    × ((lookup two_methods none (some "payment_failed") none none).rule
        ≡ (lookup two_methods (some "card") (some "payment_failed") none none).rule)
unfolding documented_causes causes_under
lookup_without_method_example =
    lookup_without_method two_methods "card" "payment_failed" none none refl refl refl refl
      (omega arith)
