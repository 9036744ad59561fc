-- ===== src/Scheduler/Earliest.antt =====
-- `backoff_for` and `schedule_retry` of src/unhalted/shell/scheduler.py: the cap and the instant.
use unhalted.Prelude.{
  ℕ, zero, suc, ◌≤◌, ◌<◌, ◌-◌, ◌≡◌, ◌≢◌, ◌↔◌, true, String, Option, none, some, List, [], ◌∷◌,
  arith, min, max, length, get_elem?,
}
use unhalted.Clock.{Instant, Duration}
use unhalted.Policy.{Policy, IsCoherent}
use unhalted.Models.{DiagnosisClass}
use unhalted.Windows.{is_execution_allowed, next_allowed_execution}
use unhalted.Windows.Execution.{
  next_allowed-free, next_allowed_execution-IsAllowed, next_allowed_execution_least,
}
use unhalted.Scheduler.{schedule_of, backoff_in, backoff_for, schedule_retry}

get_elem?-total : (ds : List Duration) (i : ℕ) → i < length ds → get_elem? ds i ≢ none
get_elem?-total [] i h = absurd (omega arith)
get_elem?-total (d ∷ ds) zero h = cc
get_elem?-total (d ∷ ds) (suc i) h = get_elem?-total ds i (omega arith)

module _ (p : Policy) where
  backoff_in-total : (ds : List Duration) (attempt : ℕ) → backoff_in p ds attempt ≢ none
  unfolding backoff_in
  backoff_in-total [] attempt = cc
  backoff_in-total (d ∷ ds) attempt =
      get_elem?-total (d ∷ ds) (min attempt (length (d ∷ ds) - 1)) (omega arith)

  -- A wait is found for every class and every attempt: the index never leaves the schedule.
  pub backoff_for-total :
      (klass : Option DiagnosisClass) (attempt : ℕ) → backoff_for p klass attempt ≢ none
  unfolding backoff_for
  backoff_for-total none attempt = cc
  backoff_for-total (some klass) attempt = backoff_in-total (schedule_of p.backoff klass) attempt

  -- A retry is refused exactly when the cap is reached, and a refusal schedules nothing.
  pub schedule_retry_cap :
      (requested now : Instant) (count : ℕ) (method : Option String)
      → ((schedule_retry p requested count (some now) method).accepted ≡ true)
        ↔ (count < p.retry_cap)
  unfolding schedule_retry
  schedule_retry_cap requested now count method = ground arith

  -- A retry is given no instant exactly when the case has used up the policy's retries, however late
  -- the request and whatever the rail.
  scheduled-none :
      (requested now : Instant) (count : ℕ) (method : Option String)
      → ((schedule_retry p requested count (some now) method).scheduled_for ≡ none)
        ↔ (p.retry_cap ≤ count)
  unfolding schedule_retry
  scheduled-none requested now count method = ground arith

  -- the instant of an accepted retry is the one that the window rules give for the candidate
  pub scheduled-eq :
      (requested now : Instant) (count : ℕ) (method : Option String) (at : Instant)
      → (schedule_retry p requested count (some now) method).scheduled_for ≡ some at
      → at ≡ next_allowed_execution p (max requested now) method
  unfolding schedule_retry
  scheduled-eq requested now count method at h =
      ground (arith, next_allowed-free p (max requested now) method)

  -- In a coherent policy, a scheduled retry is neither in the past nor before the time asked for,
  -- lies outside every band that governs its rail, and is not later than any other such instant.
  pub schedule_retry_earliest :
      IsCoherent p
      → (requested now : Instant) (count : ℕ) (method : Option String) (at u : Instant)
      → (schedule_retry p requested count (some now) method).scheduled_for ≡ some at
      → requested ≤ u
      → now ≤ u
      → (is_execution_allowed p u method).allowed ≡ true
      → (requested ≤ at)
        × (now ≤ at)
        × ((is_execution_allowed p at method).allowed ≡ true)
        × (at ≤ u)
  schedule_retry_earliest c requested now count method at u h r n ok =
      let eq = scheduled-eq requested now count method at h in
      let good = next_allowed_execution-IsAllowed p c (max requested now) method in
      let least = next_allowed_execution_least p c (max requested now) u method in
      rw eq (omega (arith, good.0), omega (arith, good.0), good.1, least (omega arith) ok)
