-- ===== src/Measure/Replay.antt =====
-- `run` of src/unhalted/measure/baseline.py in closed form.
use unhalted.Prelude.{
  ℕ, zero, suc, ◌+◌, ◌*◌, ◌≡◌, refl, not, ◌&&◌, Bool, String, Option, none, some, [], ◌∷◌, arith,
}
use unhalted.Clock.{Instant, day, time_of}
use unhalted.Policy.{Policy}
use unhalted.Models.{DiagnosisClass, FailureSignal}
use unhalted.Windows.{is_execution_allowed}
use unhalted.Measure.Baseline.{
  RetryModel, model_for, BaselineRun, one_if, is_futile, attempt, replay, run,
}

model_for-daily :
    (method : Option String)
    → ((model_for method).retries ≡ 3) × ((model_for method).interval ≡ day)
unfolding model_for
model_for-daily none = (refl, refl)
model_for-daily (some method) = ground arith

module _ (p : Policy) where
  -- the bands are the same every day
  pub is_execution_allowed-day :
      (at : Instant) (method : Option String)
      → is_execution_allowed p (at + day) method ≡ is_execution_allowed p at method
  unfolding is_execution_allowed
  is_execution_allowed-day at method =
      let same : time_of (at + day) ≡ time_of at = omega arith in rw same refl

  abbrev pub is_restricted : Option String → Instant → Bool
  is_restricted method at = not (is_execution_allowed p at method).allowed

  -- what one attempt adds to the count of violations
  abbrev pub violation : RetryModel → Instant → ℕ
  violation model at = one_if (model.subject_to_npci_bands && is_restricted none at)

  pub replay-counts :
      (n : ℕ) (model : RetryModel) (klass : DiagnosisClass) (at : Instant) (r : BaselineRun)
      → model.interval ≡ day
      → ((replay p n model klass at r).attempts ≡ r.attempts + n)
        × ((replay p n model klass at r).futile_attempts
            ≡ r.futile_attempts + n * one_if (is_futile klass))
        × ((replay p n model klass at r).attempts_in_restricted_window
            ≡ r.attempts_in_restricted_window + n * violation model at)
  unfolding replay attempt
  replay-counts zero model klass at r daily = omega arith
  replay-counts (suc n) model klass at r daily =
      let next = at + model.interval in
      let ih = replay-counts n model klass next (attempt p model klass next r) daily in
      let e : is_execution_allowed p next none ≡ is_execution_allowed p at none =
        rw daily (is_execution_allowed-day at none) in
      ground (arith, ih, e)

  replay-scheduled :
      (model : RetryModel) (klass : DiagnosisClass) (at : Instant) (r : BaselineRun)
      → model.interval ≡ day
      → r.scheduled_at ≡ []
      → (replay p 3 model klass at r).scheduled_at
        ≡ (at + day) ∷ (at + 2 * day) ∷ (at + 3 * day) ∷ []
  unfolding replay attempt
  replay-scheduled model klass at r daily none_yet = ground (arith, daily, none_yet)

  -- The documented policy spends three attempts, one and two and three days after the failure,
  -- whatever the failure is. All of them are futile, or none is; and since they fall on the time of
  -- day of the failure, all of them lie in a restricted band, or none does.
  pub run_all_or_none :
      (signal : FailureSignal) (klass : DiagnosisClass)
      → ((run p signal klass).attempts ≡ 3)
        × ((run p signal klass).scheduled_at
            ≡ (signal.occurred_at + day)
              ∷ (signal.occurred_at + 2 * day)
              ∷ (signal.occurred_at + 3 * day)
              ∷ [])
        × ((run p signal klass).futile_attempts ≡ 3 * one_if (is_futile klass))
        × ((run p signal klass).attempts_in_restricted_window
            ≡ 3 * violation (model_for signal.method) signal.occurred_at)
  unfolding run
  run_all_or_none signal klass =
      let m = model_for signal.method in
      let (three, daily) = model_for-daily signal.method in
      let r : BaselineRun = record {
        attempts = 0;
        attempts_in_restricted_window = 0;
        futile_attempts = 0;
        scheduled_at = [];
        assumption_used = not m.count_is_documented;
      } in
      let counts = replay-counts 3 m klass signal.occurred_at r daily in
      rw three (
        omega (arith, counts.0),
        replay-scheduled m klass signal.occurred_at r daily refl,
        omega (arith, counts.1),
        omega (arith, counts.2),
      )
