-- ===== src/Tests/Reports.antt =====
-- The reports of the two policies on a batch, and on one case.
use unhalted.Prelude.{
  Bool, map, leb, IsOrdered, ◌+◌, ◌*◌, ◌≤◌, ◌≡◌, refl, reads_as, none, some, List, [], ◌∷◌, length,
  select,
}
use unhalted.Clock.{day}
use unhalted.Policy.{policy_yaml}
use unhalted.Models.{
  DiagnosisClass, AuditRecord, schedule, escalation, nudge, reauthorisation, retry_at, after_review,
  on_failure, retries_spent_escalating_to, CaseState,
}
use unhalted.Windows.{subject_to_execution_bands}
use unhalted.Ladder.{rate_of, evaluate}
use unhalted.Measure.Outcomes.{nothing_at_risk, classify, envelope, breakeven}
use unhalted.Measure.Buckets.{
  sorted_into, Item, money_of, number_of, is_revoked, is_class, is_broken, envelope-classify,
  breakeven-approved,
}
use unhalted.Measure.Baseline.{one_if, is_futile, model_for, run}
use unhalted.Measure.Replay.{violation, run_all_or_none}
use unhalted.Measure.Compare.{Event, agent_side, starts_scheduled, compare_case}
use unhalted.Measure.Marks.{is_of_agent, is_attempt, is_doomed, in_band, told, replayed}
use unhalted.Measure.Columns.{shown, compare-columns}
use unhalted.Tests.Fixtures.{eleven, morning, case_one, bank_down}

abbrev batch : List Item
batch =
    (49900, DiagnosisClass.mandate_state_broken)
    ∷ (10000, DiagnosisClass.customer_intent_revoked)
    ∷ (25000, DiagnosisClass.recoverable_balance)
    ∷ []

envelope-classify_example :
    ((envelope (classify batch)).agent_ceiling_paise + money_of is_revoked batch
      ≡ money_of is_class batch)
    × ((envelope (classify batch)).baseline_ceiling_paise + money_of is_broken batch
        ≡ (envelope (classify batch)).agent_ceiling_paise)
    × ((classify batch).unreachable_cases
          + (classify batch).must_not_take_cases
          + (classify batch).unclassified_cases
          + (classify batch).contested_cases
        ≡ number_of is_class batch)
    × (classify batch ≡ sorted_into batch nothing_at_risk)
envelope-classify_example = envelope-classify batch

breakeven-approved_example :
    (breakeven policy_yaml (classify batch) reauthorisation).rate.over * 100
    ≤ rate_of none reauthorisation
      * (breakeven policy_yaml (classify batch) reauthorisation).rate.under
unfolding evaluate
breakeven-approved_example =
    breakeven-approved policy_yaml reauthorisation batch
      (λ _. refl, (λ revoked. absurd (cc), (λ other. absurd (cc), tt)))

run_all_or_none_example :
    ((run policy_yaml bank_down DiagnosisClass.unknown).attempts ≡ 3)
    × ((run policy_yaml bank_down DiagnosisClass.unknown).scheduled_at
        ≡ (morning + day) ∷ (morning + 2 * day) ∷ (morning + 3 * day) ∷ [])
    × ((run policy_yaml bank_down DiagnosisClass.unknown).futile_attempts
        ≡ 3 * one_if (is_futile DiagnosisClass.unknown))
    × ((run policy_yaml bank_down DiagnosisClass.unknown).attempts_in_restricted_window
        ≡ 3 * violation policy_yaml (model_for (some "upi")) morning)
run_all_or_none_example = run_all_or_none policy_yaml bank_down DiagnosisClass.unknown

-- a silent retry, a retry after review, and the message when the retries are spent
abbrev trail : List AuditRecord
trail =
    record {
      case_id = 1;
      at = eleven;
      decision_type = schedule;
      action = retry_at on_failure (eleven + day);
      rules_fired = [];
      confidence = none;
    }
    ∷ record {
      case_id = 1;
      at = eleven + day;
      decision_type = schedule;
      action = retry_at after_review (eleven + day);
      rules_fired = [];
      confidence = none;
    }
    ∷ record {
      case_id = 1;
      at = eleven + 2 * day;
      decision_type = escalation;
      action = retries_spent_escalating_to nudge;
      rules_fired = [];
      confidence = none;
    }
    ∷ []

-- of the two retries and the one message the column counts one retry
agent_side_leaves_out :
    ((agent_side policy_yaml trail DiagnosisClass.unknown CaseState.open_case).1.attempts ≡ 1)
    × ((agent_side policy_yaml trail DiagnosisClass.unknown CaseState.open_case).1.contacts ≡ 0)
unfolding agent_side starts_scheduled
agent_side_leaves_out = (refl, refl)

abbrev in_the_morning : Event → Bool
in_the_morning e = leb e.at (eleven + day)

compare-columns_example :
    (shown is_of_agent (compare_case policy_yaml case_one (some bank_down) none trail)
      ≡ length trail)
    × (shown
          (λ e. is_attempt e.baseline)
          (compare_case policy_yaml case_one (some bank_down) none trail)
        ≡ (compare_case policy_yaml case_one (some bank_down) none trail).base.attempts)
    × (shown
          (λ e. is_doomed e.baseline)
          (compare_case policy_yaml case_one (some bank_down) none trail)
        ≡ (compare_case policy_yaml case_one (some bank_down) none trail).base.futile_attempts)
    × (shown
          (λ e. in_band e.baseline)
          (compare_case policy_yaml case_one (some bank_down) none trail)
        ≡ (compare_case policy_yaml case_one
            (some bank_down)
            none
            trail).base.attempts_in_restricted_window)
    × (shown in_the_morning (compare_case policy_yaml case_one (some bank_down) none trail)
        ≡ length (select in_the_morning (map told trail))
          + length (
              select in_the_morning (replayed policy_yaml bank_down DiagnosisClass.unknown eleven)))
    × IsOrdered (λ e. e.at) (compare_case policy_yaml case_one (some bank_down) none trail).events
unfolding model_for subject_to_execution_bands reads_as
compare-columns_example =
    compare-columns policy_yaml in_the_morning case_one bank_down none trail refl
