-- ===== src/Tests/Loop.antt =====
-- The control loop on one customer's failed debit.
use unhalted.Prelude.{◌≡◌, refl, true, false, none, some, [], ◌∷◌, reads_as, All, Yields}
use unhalted.Policy.{policy_yaml, policy_yaml-IsCoherent}
use unhalted.Models.{DiagnosisClass, Diagnosis, rules_table, StopCode, nudge, has}
use unhalted.Limits.{check, may_attempt, above_mandate, method_is}
use unhalted.Windows.{is_execution_allowed, subject_to_execution_bands}
use unhalted.Verify.{unavailable}
use unhalted.Stops.{rule}
use unhalted.Replies.{decide}
use unhalted.Taxonomy.{needs_verification}
use unhalted.Store.Tables.{Store, empty}
use unhalted.Store.Cases.{get_case, case_of, case_for_payment, open_case_or_get, first_signal}
use unhalted.Store.Trail.{latest_diagnosis}
use unhalted.Store.Suppressions.{contact_suppression}
use unhalted.Agent.Escalation.{climb, above_entry, is_executable, escalate_after_cap}
use unhalted.Agent.Failure.{handle_failure}
use unhalted.Agent.Reply.{handle_reply}
use unhalted.Agent.Review.{resume_after_review, mark_recovered}
use unhalted.Agent.Idle.{SameQueue, handle_failure_again, handle_failure_unverified}
use unhalted.Agent.Quiet.{IsQuiet}
use unhalted.Agent.Person.{is_unpaid, handle_reply-IsQuiet, mark_recovered-IsQuiet}
use unhalted.Agent.Standing.{handle_reply_no_rearming}
use unhalted.Agent.Spent.{is_answered, climb_settles, escalate_after_cap-answered}
use unhalted.Agent.Placed.{AreLawful}
use unhalted.Agent.LawfulReply.{handle_reply-AreLawful, resume_after_review-AreLawful}
use unhalted.Agent.LawfulCase.{handle_failure-AreLawful}
use unhalted.Tests.Fixtures.{
  morning, eleven, night, no_link, causes, bank_down, timed_out, case_one, spent_case, opened,
  worked, leave_me_alone, cancel_it, on_the_second,
}

abbrev taken_in : Store
taken_in = (record empty {
  cases = case_one ∷ [];
  signals = record { case_id = 1; signal = bank_down } ∷ [];
})

handle_failure-AreLawful_example :
    Yields
      (λ r. AreLawful policy_yaml 1 (some bank_down) (r.1.pending_actions))
      (handle_failure policy_yaml causes no_link 1 bank_down none morning empty)
unfolding open_case_or_get case_for_payment case_of
handle_failure-AreLawful_example =
    handle_failure-AreLawful policy_yaml policy_yaml-IsCoherent causes no_link 1 bank_down none
      morning case_one true empty taken_in refl refl tt

abbrev bank_is_down : Diagnosis
bank_is_down = record {
  klass = DiagnosisClass.recoverable_technical;
  confidence = 1000000;
  source = rules_table;
}

handle_failure_again_example :
    Yields
      (λ r.
        (r.0 ≡ case_one)
        × SameQueue worked (r.1)
        × (r.1.cases ≡ worked.cases)
        × (r.1.signals ≡ worked.signals)
        × (r.1.diagnoses ≡ worked.diagnoses)
        × (r.1.contact_suppressions ≡ worked.contact_suppressions)
        × (r.1.processed_events ≡ worked.processed_events))
      (handle_failure policy_yaml causes no_link 2 bank_down none eleven worked)
unfolding case_for_payment latest_diagnosis
handle_failure_again_example =
    handle_failure_again policy_yaml causes no_link 2 bank_down none eleven case_one bank_is_down
      worked refl refl

abbrev timed_out_case : Store
timed_out_case = (record empty {
  cases = case_one ∷ [];
  signals = record { case_id = 1; signal = timed_out } ∷ [];
})

handle_failure_unverified_example :
    Yields
      (λ r. SameQueue empty (r.1))
      (handle_failure policy_yaml causes no_link 1 timed_out (some unavailable) morning empty)
unfolding open_case_or_get case_for_payment case_of needs_verification unavailable
handle_failure_unverified_example =
    handle_failure_unverified policy_yaml causes no_link 1 timed_out (some unavailable) morning
      case_one true empty timed_out_case refl refl refl

handle_reply-IsQuiet_example :
    Yields
      (λ x. IsQuiet 1 7 (x.1.pending_actions))
      (handle_reply policy_yaml no_link case_one cancel_it morning worked)
unfolding contact_suppression decide has
handle_reply-IsQuiet_example =
    handle_reply-IsQuiet policy_yaml no_link case_one cancel_it morning worked refl refl refl refl

handle_reply_no_rearming_example :
    Yields
      (λ x.
        Yields
          (λ y. (y.0.needs_human ≡ true) × SameQueue (x.1) (y.1))
          (handle_reply policy_yaml no_link case_one on_the_second eleven (x.1)))
      (handle_reply policy_yaml no_link case_one leave_me_alone morning worked)
unfolding contact_suppression decide has rule
handle_reply_no_rearming_example =
    handle_reply_no_rearming policy_yaml no_link case_one leave_me_alone on_the_second
      StopCode.opt_out morning eleven worked refl refl refl refl refl

escalate_after_cap-answered_example :
    is_answered 1 night (
      escalate_after_cap policy_yaml no_link spent_case
        (some DiagnosisClass.recoverable_balance)
        night
        opened)
    ≡ true
escalate_after_cap-answered_example =
    escalate_after_cap-answered policy_yaml no_link spent_case
      (some DiagnosisClass.recoverable_balance) night opened refl

climb_settles_example : is_executable policy_yaml no_link nudge ≡ true
unfolding climb above_entry
climb_settles_example =
    climb_settles policy_yaml no_link (some DiagnosisClass.recoverable_technical) nudge refl

-- the queue holds a retry at night, outside the bands
worked-AreLawful : AreLawful policy_yaml 1 (some bank_down) worked.pending_actions
unfolding check may_attempt above_mandate method_is reads_as is_execution_allowed
    subject_to_execution_bands
worked-AreLawful = (refl, (refl, tt))

handle_reply-AreLawful_example :
    Yields
      (λ x. AreLawful policy_yaml 1 (first_signal 1 worked) (x.1.pending_actions))
      (handle_reply policy_yaml no_link case_one on_the_second eleven worked)
unfolding first_signal
handle_reply-AreLawful_example =
    handle_reply-AreLawful policy_yaml no_link policy_yaml-IsCoherent case_one on_the_second eleven
      worked refl refl worked-AreLawful

resume_after_review-AreLawful_example :
    AreLawful policy_yaml 1
      (first_signal 1 worked)
      (resume_after_review policy_yaml no_link case_one eleven worked).1.pending_actions
unfolding first_signal
resume_after_review-AreLawful_example =
    resume_after_review-AreLawful policy_yaml no_link policy_yaml-IsCoherent case_one eleven worked
      worked-AreLawful

mark_recovered-IsQuiet_example :
    Yields
      (λ x. IsQuiet 1 7 (x.1.pending_actions) × All (λ c. is_unpaid 1 c ≡ false) (x.1.cases))
      (mark_recovered policy_yaml no_link 1 49900 eleven worked)
unfolding get_case
mark_recovered-IsQuiet_example =
    mark_recovered-IsQuiet policy_yaml no_link case_one 1 7 49900 eleven worked refl refl
