-- ===== src/Scheduler.antt =====
-- src/unhalted/shell/scheduler.py: when a retry may be scheduled.
pub mod Earliest
use unhalted.Prelude.{
  ℕ, ◌-◌, Bool, true, false, String, Option, none, some, List, [], ◌∷◌, ◌++◌, leb, ltb, ◌==◌, not,
  min, max, length, get_elem?, if◌then◌else◌,
}
use unhalted.Clock.{Instant, Duration, day}
use unhalted.Policy.{Policy, Backoff}
use unhalted.Models.{
  DiagnosisClass, StopCode, RuleFired, not_in_the_past, window_violation, stop_rule,
}
use unhalted.Windows.{WindowCheck, is_execution_allowed, next_allowed_execution}

-- `BACKOFF.get(klass)`
unfoldable pub schedule_of : Backoff → DiagnosisClass → List Duration
schedule_of b DiagnosisClass.recoverable_technical = b.recoverable_technical
schedule_of b DiagnosisClass.recoverable_balance = b.recoverable_balance
schedule_of b DiagnosisClass.notification_gap = b.notification_gap
schedule_of b DiagnosisClass.mandate_state_broken = b.mandate_state_broken
schedule_of b DiagnosisClass.customer_intent_revoked = b.customer_intent_revoked
schedule_of b DiagnosisClass.unknown = b.unknown

-- `schedule[min(attempt, len(schedule) - 1)]`; `none` is an `IndexError`
unfoldable pub tier : List Duration → ℕ → Option Duration
tier schedule attempt = get_elem? schedule (min attempt (length schedule - 1))

pub record ScheduleDecision : Type 0 where
  pub scheduled_for : Option Instant
  pub accepted : Bool
  pub rules_fired : List RuleFired
  pub requested : Instant

module _ (p : Policy) where
  -- `if not schedule: return DEFAULT_BACKOFF`
  backoff_in : List Duration → ℕ → Option Duration
  unfolding tier
  backoff_in [] attempt = some p.default_backoff
  backoff_in (d ∷ ds) attempt = tier (d ∷ ds) attempt

  unfoldable pub backoff_for : Option DiagnosisClass → ℕ → Option Duration
  unfolding backoff_in schedule_of
  backoff_for none attempt = some p.default_backoff
  backoff_for (some klass) attempt = backoff_in (schedule_of p.backoff klass) attempt

  -- the candidate before the bands are asked: never in the past
  candidate_from : Instant → Option Instant → Instant
  candidate_from requested none = requested
  candidate_from requested (some now) = max requested now

  late : Instant → Instant → List RuleFired
  late requested candidate = if candidate == requested then [] else not_in_the_past ∷ []

  unfoldable pub schedule_retry : Instant → ℕ → Option Instant → Option String → ScheduleDecision
  unfolding candidate_from late
  schedule_retry requested retry_count now method =
      let candidate = candidate_from requested now in
      let moved : ScheduleDecision = record {
        scheduled_for = some (next_allowed_execution p candidate method);
        accepted = true;
        rules_fired = late requested candidate ++ window_violation ∷ [];
        requested = requested;
      } in
      if leb p.retry_cap retry_count
      then record {
        scheduled_for = none;
        accepted = false;
        rules_fired = stop_rule StopCode.retry_cap ∷ [];
        requested = requested;
      }
      else if (is_execution_allowed p candidate method).allowed
      then record {
        scheduled_for = some candidate;
        accepted = true;
        rules_fired = late requested candidate;
        requested = requested;
      }
      else moved
