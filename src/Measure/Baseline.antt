-- ===== src/Measure/Baseline.antt =====
-- src/unhalted/measure/baseline.py: Razorpay's documented retries, replayed against one failure.
-- The notes are left out; a time that is listed is the instant.
use unhalted.Prelude.{
  ℕ, zero, suc, ◌+◌, Bool, true, false, not, ◌&&◌, String, Option, none, some, List, [], ◌∷◌, ◌++◌,
  reads_as, if◌then◌else◌,
}
use unhalted.Clock.{Instant, Duration, day}
use unhalted.Policy.{Policy}
use unhalted.Models.{DiagnosisClass, FailureSignal}
use unhalted.Windows.{is_execution_allowed}

-- `klass in FUTILE`
abbrev pub is_futile : DiagnosisClass → Bool
is_futile DiagnosisClass.mandate_state_broken = true
is_futile DiagnosisClass.customer_intent_revoked = true
is_futile _ = false

pub record RetryModel : Type 0 where
  pub retries : ℕ
  pub interval : Duration
  pub subject_to_npci_bands : Bool
  pub count_is_documented : Bool

-- `UPI`, `CARD`, `EMANDATE` and `UNKNOWN_METHOD`; the last two differ in their notes
abbrev pub upi : RetryModel
upi = record {
  retries = 3;
  interval = day;
  subject_to_npci_bands = true;
  count_is_documented = true;
}

abbrev pub card : RetryModel
card = record {
  retries = 3;
  interval = day;
  subject_to_npci_bands = false;
  count_is_documented = true;
}

abbrev pub emandate : RetryModel
emandate = record {
  retries = 3;
  interval = day;
  subject_to_npci_bands = false;
  count_is_documented = false;
}

-- `MODELS.get((method or "").lower(), UNKNOWN_METHOD)`
unfoldable pub model_for : Option String → RetryModel
model_for none = emandate
model_for (some method) =
    if reads_as method "upi" then upi else if reads_as method "card" then card else emandate

pub record BaselineRun : Type 0 where
  pub attempts : ℕ
  pub attempts_in_restricted_window : ℕ
  pub futile_attempts : ℕ
  pub scheduled_at : List Instant
  pub assumption_used : Bool

abbrev pub one_if : Bool → ℕ
one_if true = 1
one_if false = 0

module _ (p : Policy) where
  -- one attempt, at the time that it falls on
  unfoldable pub attempt : RetryModel → DiagnosisClass → Instant → BaselineRun → BaselineRun
  attempt model klass at result = record result {
    attempts = result.attempts + 1;
    scheduled_at = result.scheduled_at ++ at ∷ [];
    attempts_in_restricted_window =
        result.attempts_in_restricted_window
        + one_if (model.subject_to_npci_bands && not (is_execution_allowed p at none).allowed);
    futile_attempts = result.futile_attempts + one_if (is_futile klass);
  }

  -- the loop over `range(policy.retries)`
  unfoldable pub replay : ℕ → RetryModel → DiagnosisClass → Instant → BaselineRun → BaselineRun
  unfolding attempt
  replay zero model klass at result = result
  replay (suc n) model klass at result =
      let next = at + model.interval in replay n model klass next (attempt model klass next result)

  -- `run`
  unfoldable pub run : FailureSignal → DiagnosisClass → BaselineRun
  unfolding replay model_for
  run signal klass =
      let model = model_for signal.method in
      replay model.retries model klass signal.occurred_at (record {
        attempts = 0;
        attempts_in_restricted_window = 0;
        futile_attempts = 0;
        scheduled_at = [];
        assumption_used = not model.count_is_documented;
      })
