-- ===== src/Measure/Compare.antt =====
-- src/unhalted/measure/compare.py: one case under both policies, from its audit trail and from a
-- replay of the documented retries. The texts of an event are what they say.
use unhalted.Prelude.{
  String, ℕ, zero, suc, ◌+◌, ◌-◌, Bool, true, false, not, ◌&&◌, ◌==◌, Option, none, some, List, [],
  ◌∷◌, ◌++◌, any, ltb, sort_by, if◌then◌else◌,
}
use unhalted.Prelude.Texts.{codes}
use unhalted.Language.Evidence.{is_prefix}
use unhalted.Clock.{Instant, day}
use unhalted.Policy.{Policy}
use unhalted.Models.{
  DiagnosisClass, Diagnosis, FailureSignal, Case, CaseState, AuditRecord, DecisionType, schedule,
  escalation, stop, AuditAction, entering_at, retry_at, retry_refused, refused_on_amount,
  on_failure, as_fallback, on_promise, after_review, RuleFired, window_violation,
}
use unhalted.Windows.{is_execution_allowed}
use unhalted.Ladder.{cost_in}
use unhalted.Measure.Baseline.{run, is_futile, one_if}

-- What the baseline's column says: attempt `n` of `of`, with its marks, or the end.
pub data BaselineLine : Type 0 where
  nothing halted_line : BaselineLine
  debit_attempt : (n total : ℕ) (cannot_work npci_band : Bool) → BaselineLine

pub record Event : Type 0 where
  pub at : Instant
  pub baseline : BaselineLine
  pub agent : Option AuditAction
  pub marked : Bool

pub data SideOutcome : Type 0 where
  ended_in : CaseState → SideOutcome
  halted not_comparable : SideOutcome

pub record Side : Type 0 where
  pub attempts : ℕ
  pub futile_attempts : ℕ
  pub attempts_in_restricted_window : ℕ
  pub contacts : ℕ
  pub corrected_into_window : ℕ
  pub outcome : SideOutcome

abbrev pub no_counts : SideOutcome → Side
no_counts o = record {
  attempts = 0;
  futile_attempts = 0;
  attempts_in_restricted_window = 0;
  contacts = 0;
  corrected_into_window = 0;
  outcome = o;
}

-- `_SCHEDULED`
abbrev scheduled_words : List String
scheduled_words = "retry at" ∷ "retry realigned to" ∷ "fallback retry at" ∷ []

-- The words of a record on a retry, up to its time: those of `handle_failure`, of
-- `_schedule_balance_fallback`, of `handle_reply` and of `resume_after_review`. The other records are
-- not of type "schedule".
unfoldable pub retry_words : AuditAction → String
retry_words (retry_at on_failure at) = "retry at "
retry_words (retry_at as_fallback at) = "fallback retry at "
retry_words (retry_at on_promise at) = "retry realigned to "
retry_words (retry_at after_review at) = "retry re-armed after review to "
retry_words (retry_refused on_failure) = "retry refused"
retry_words (retry_refused as_fallback) = "fallback retry refused"
retry_words (retry_refused on_promise) = "realignment refused"
retry_words (retry_refused after_review) = "re-arm after review refused"
retry_words (refused_on_amount on_failure) = "retry refused on amount"
retry_words (refused_on_amount as_fallback) = "fallback retry refused on amount"
retry_words (refused_on_amount on_promise) = "realignment refused on amount"
retry_words (refused_on_amount after_review) = "re-arm after review refused on amount"
retry_words _ = ""

-- `text.startswith(_SCHEDULED)`
unfoldable pub starts_scheduled : AuditAction → Bool
unfolding retry_words
starts_scheduled a = any (λ w. is_prefix (codes w) (codes (retry_words a))) scheduled_words

abbrev pub is_schedule : DecisionType → Bool
is_schedule schedule = true
is_schedule _ = false

abbrev pub is_escalation : DecisionType → Bool
is_escalation escalation = true
is_escalation _ = false

abbrev pub is_stop : DecisionType → Bool
is_stop stop = true
is_stop _ = false

abbrev pub is_violation : RuleFired → Bool
is_violation window_violation = true
is_violation _ = false

abbrev pub puts_debit : AuditRecord → Bool
puts_debit r = is_schedule r.decision_type && starts_scheduled r.action

abbrev pub is_corrected : AuditRecord → Bool
is_corrected r = puts_debit r && any is_violation r.rules_fired

abbrev pub agent_event : AuditRecord → Event
agent_event r = record {
  at = r.at;
  baseline = nothing;
  agent = some r.action;
  marked = if is_corrected r then true else is_stop r.decision_type;
}

-- `Comparison`; its other fields repeat the case
pub record Comparison : Type 0 where
  pub events : List Event
  pub agent : Side
  pub base : Side

-- `timeline[0].at if timeline else case.opened_at`
abbrev pub anchor_of : Case → List AuditRecord → Instant
anchor_of c [] = c.opened_at
anchor_of c (r ∷ rest) = r.at

abbrev pub klass_of : Option Diagnosis → DiagnosisClass
klass_of none = DiagnosisClass.unknown
klass_of (some d) = d.klass

module _ (p : Policy) where
  -- `(record.inputs or {}).get("cost_paise") or 0`: only the record of an entry carries it
  unfoldable pub cost_paise : AuditAction → ℕ
  cost_paise (entering_at rung) = cost_in p.ladder_rung_costs_paise rung
  cost_paise _ = 0

  -- one turn of the loop of `_agent_side`, on the counts
  unfoldable pub count_record : DiagnosisClass → AuditRecord → Side → Side
  unfolding cost_paise
  count_record klass r side = record side {
    attempts = side.attempts + one_if (puts_debit r);
    futile_attempts = side.futile_attempts + one_if (puts_debit r && is_futile klass);
    corrected_into_window = side.corrected_into_window + one_if (is_corrected r);
    contacts =
        side.contacts + one_if (is_escalation r.decision_type && not (cost_paise r.action == 0));
  }

  unfoldable pub agent_loop :
      DiagnosisClass → List AuditRecord → List Event × Side → List Event × Side
  unfolding count_record
  agent_loop klass [] x = x
  agent_loop klass (r ∷ rest) (events, side) =
      agent_loop klass rest (events ++ agent_event r ∷ [], count_record klass r side)

  -- `_agent_side`
  unfoldable pub agent_side : List AuditRecord → DiagnosisClass → CaseState → List Event × Side
  unfolding agent_loop
  agent_side timeline klass state = agent_loop klass timeline ([], no_counts (ended_in state))

  -- the event of one attempt of the baseline
  unfoldable pub attempt_event : FailureSignal → DiagnosisClass → ℕ → ℕ → Instant → Event
  attempt_event signal klass n total at = record {
    at = at;
    baseline =
        debit_attempt n total (is_futile klass)
          (not (is_execution_allowed p at signal.method).allowed);
    agent = none;
    marked = true;
  }

  -- the loop over `range(1, run.attempts + 1)`, and the end: `left` attempts are left
  unfoldable pub attempt_events : ℕ → FailureSignal → DiagnosisClass → ℕ → ℕ → Instant → List Event
  unfolding attempt_event
  attempt_events zero signal klass n total at =
      record { at = at; baseline = halted_line; agent = none; marked = false } ∷ []
  attempt_events (suc left) signal klass n total at =
      attempt_event signal klass n total (at + day)
      ∷ attempt_events left signal klass (n + 1) total (at + day)

  -- `_baseline_side`
  unfoldable pub baseline_side : FailureSignal → DiagnosisClass → Instant → List Event × Side
  unfolding attempt_events
  baseline_side signal klass anchor =
      let moved = record signal { occurred_at = anchor } in
      let r = run p moved klass in
      (
        attempt_events r.attempts moved klass 1 r.attempts anchor,
        record {
          attempts = r.attempts;
          futile_attempts = r.futile_attempts;
          attempts_in_restricted_window = r.attempts_in_restricted_window;
          contacts = 0;
          corrected_into_window = 0;
          outcome = halted;
        },
      )

  abbrev pub base_of :
      Case → Option FailureSignal → DiagnosisClass → List AuditRecord → List Event × Side
  base_of c none klass timeline = ([], no_counts not_comparable)
  base_of c (some signal) klass timeline = baseline_side signal klass (anchor_of c timeline)

  -- `compare`, on the first of the case's signals
  unfoldable pub compare_case :
      Case → Option FailureSignal → Option Diagnosis → List AuditRecord → Comparison
  unfolding agent_side baseline_side
  compare_case c signal diagnosis timeline =
      let a = agent_side timeline (klass_of diagnosis) c.state in
      let b = base_of c signal (klass_of diagnosis) timeline in
      record { events = sort_by (λ e. e.at) (a.0 ++ b.0); agent = a.1; base = b.1 }

-- a row of `differences`: the two counts, and the number that its note gives
pub record Difference : Type 0 where
  pub agent : ℕ
  pub base : ℕ
  pub fewer : Option ℕ

abbrev pub lead : ℕ → ℕ → Option ℕ
lead a b = if ltb a b then some (b - a) else none

unfoldable pub differences : Side → Side → List Difference
differences a b =
    record { agent = a.attempts; base = b.attempts; fewer = lead a.attempts b.attempts }
    ∷ record {
      agent = a.futile_attempts;
      base = b.futile_attempts;
      fewer = lead a.futile_attempts b.futile_attempts;
    }
    ∷ record {
      agent = a.attempts_in_restricted_window;
      base = b.attempts_in_restricted_window;
      fewer =
          if b.attempts_in_restricted_window == 0
          then none
          else some b.attempts_in_restricted_window;
    }
    ∷ record { agent = a.contacts; base = b.contacts; fewer = none }
    ∷ []
