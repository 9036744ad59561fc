-- ===== src/Measure/Marks.antt =====
-- What a record of the trail and a line of the baseline are to a reader of the table of
-- src/unhalted/measure/compare.py.

use unhalted.Prelude.{ℕ, ◌+◌, ◌&&◌, ◌||◌, Bool, true, false, none, some, List, [], ◌∷◌, any}
use unhalted.Clock.{Instant, day}
use unhalted.Policy.{Policy}
use unhalted.Models.{
  DiagnosisClass, FailureSignal, AuditRecord, AuditAction, retry_at, after_review,
}
use unhalted.Measure.Baseline.{is_futile}
use unhalted.Measure.Replay.{is_restricted}
use unhalted.Measure.Compare.{
  BaselineLine, nothing, debit_attempt, halted_line, Event, is_schedule, is_stop, is_violation,
}

abbrev pub is_of_agent : Event → Bool
is_of_agent e = elim e.agent [ none ↦ false | some a ↦ true ]

abbrev pub is_attempt : BaselineLine → Bool
is_attempt (debit_attempt n total w b) = true
is_attempt _ = false

abbrev pub in_band : BaselineLine → Bool
in_band (debit_attempt n total w b) = b
in_band _ = false

abbrev pub is_doomed : BaselineLine → Bool
is_doomed (debit_attempt n total w b) = w
is_doomed _ = false

-- a retry that is on the calendar, but for those that a reviewer re-armed
abbrev pub is_timed : AuditAction → Bool
is_timed (retry_at after_review at) = false
is_timed (retry_at occasion at) = true
is_timed _ = false

-- the line of a record: a stop is marked, and a retry that was moved out of a band
abbrev pub told : AuditRecord → Event
told r = record {
  at = r.at;
  baseline = nothing;
  agent = some r.action;
  marked =
      is_stop r.decision_type
      || (is_schedule r.decision_type && (is_timed r.action && any is_violation r.rules_fired));
}

module _ (p : Policy) (signal : FailureSignal) (klass : DiagnosisClass) (anchor : Instant) where
  -- the line of attempt `n` of three
  abbrev pub replayed_attempt : ℕ → Instant → Event
  replayed_attempt n at = record {
    at = at;
    baseline = debit_attempt n 3 (is_futile klass) (is_restricted p signal.method at);
    agent = none;
    marked = true;
  }

  -- T+1, T+2, T+3, and the end
  abbrev pub replayed : List Event
  replayed =
      replayed_attempt 1 (anchor + day)
      ∷ replayed_attempt 2 (anchor + day + day)
      ∷ replayed_attempt 3 (anchor + day + day + day)
      ∷ record {
        at = anchor + day + day + day;
        baseline = halted_line;
        agent = none;
        marked = false;
      }
      ∷ []
