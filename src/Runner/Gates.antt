-- ===== src/Runner/Gates.antt =====
-- The gates of src/unhalted/runner.py in front of an executor: a cancellation, a standing
-- suppression, and contact hours.
use mathlib.Core.List.{append-nil}
use unhalted.Store.Cases.{get_case}
use unhalted.Prelude.{
  ap, ◌∙◌, ℕ, ◌≡◌, ◌≢◌, refl, true, false, Option, none, some, List, [], ◌∷◌, ◌++◌, arith,
  Option-cases, inl, inr,
}
use unhalted.Clock.{Instant}
use unhalted.Policy.{Policy}
use unhalted.Models.{
  Text, Case, Kind, slug, retry, silent_retry, nudge, reauthorisation, voice_call, human_callback,
  cancelled,
}
use unhalted.Windows.{is_contact_allowed}
use unhalted.Notify.{Message}
use unhalted.Store.Tables.{Store, Action}
use unhalted.Store.Queue.{
  is_live, is_cancelled, in_reach, cancel_row, cancel_pending, action, finish_action,
}
use unhalted.Store.Rows.{action-cancel_pending, state-cancel_row}
use unhalted.Store.Suppressions.{contact_suppression}
use unhalted.Runner.{
  Outcome, Executor, Pass, after_executor, execute, unless_cancelled, run_action, run_claimed,
  run_due, nudge_case, execute_nudge, executors,
}

-- the re-read finds the row cancelled
run_action-cancelled :
    (table : Kind → Option Executor) (now : Instant) (claimed current : Action) (x : Pass)
    → action claimed.id x.store ≡ some current
    → is_cancelled current.state ≡ true
    → ((run_action table now claimed x).store ≡ x.store)
      × ((run_action table now claimed x).outbox ≡ x.outbox)
unfolding run_action
run_action-cancelled table now claimed current x found off =
    rw (found, unless_cancelled, off) (refl, refl)

-- A cancellation in whose reach a pending or leased row lies wins over the worker that claimed the
-- row: its turn for the row changes nothing in the store and sends nothing, whatever the executors
-- do.
pub cancellation_wins :
    (table : Kind → Option Executor) (customer_ref case_id : Text) (at : Option Instant)
    (now : Instant) (claimed current : Action) (count : ℕ) (x : Pass) (s : Store)
    → action claimed.id s ≡ some current
    → is_live current.state ≡ true
    → in_reach customer_ref case_id current ≡ true
    → cancel_pending customer_ref case_id at s ≡ some (count, x.store)
    → ((run_action table now claimed x).store ≡ x.store)
      × ((run_action table now claimed x).outbox ≡ x.outbox)
cancellation_wins table customer_ref case_id at now claimed current count x s found live reach e =
    run_action-cancelled table now claimed (cancel_row customer_ref case_id at current) x
      (action-cancel_pending customer_ref case_id at claimed.id count current s x.store found e)
      (state-cancel_row customer_ref case_id at current live reach)

-- A row that is not cancelled, and whose case or customer is under a standing suppression, is not
-- run, whatever the executors do: the turn sends nothing, leaves the trail and the cases as they
-- were and only marks the row as cancelled.
suppressed_not_run :
    (table : Kind → Option Executor) (now : Instant) (claimed current : Action) (x : Pass)
    → action claimed.id x.store ≡ some current
    → is_cancelled current.state ≡ false
    → contact_suppression current.case_id current.customer_ref x.store ≢ none
    → ((run_action table now claimed x).outbox ≡ x.outbox)
      × ((run_action table now claimed x).store.audit ≡ x.store.audit)
      × ((run_action table now claimed x).store.cases ≡ x.store.cases)
      × ((run_action table now claimed x).store ≡ finish_action claimed.id cancelled x.store)
unfolding run_action finish_action
suppressed_not_run table now claimed current x found live bar =
    elim (Option-cases (contact_suppression current.case_id current.customer_ref x.store)) [
      | inl free ↦ absurd (bar free)
      | inr (b, at) ↦ rw (found, unless_cancelled, live, at) (refl, refl, refl, refl)
    ]

-- what an executor's turn sends is what the executor sent
outbox-after_executor :
    (a : Action) (now : Instant) (r : Option Outcome × List Message) (x : Pass)
    → r.1 ≡ []
    → (after_executor a now r x).outbox ≡ x.outbox ++ []
unfolding after_executor
outbox-after_executor a now (none, out) x e = ap (λ o. x.outbox ++ o) e
outbox-after_executor a now (some o, out) x e = ap (λ o. x.outbox ++ o) e

module _ (p : Policy) (link : Case → Option Text) where
  -- a silent executor hands nothing to the channel outside contact hours
  abbrev IsSilent : Instant → Option Executor → Type 0
  IsSilent now none = Unit
  IsSilent now (some ex) = (s : Store) (a : Action) → (ex s a now).1 ≡ []

  nudge_case-silent :
      (c : Case) (s : Store) (a : Action) (now : Instant)
      → (is_contact_allowed p now).allowed ≡ false
      → (nudge_case p link c s a now).1 ≡ []
  unfolding nudge_case
  nudge_case-silent c s a now shut = ground arith

  execute_nudge-silent :
      (s : Store) (a : Action) (now : Instant)
      → (is_contact_allowed p now).allowed ≡ false
      → (execute_nudge p link s a now).1 ≡ []
  unfolding execute_nudge
  execute_nudge-silent s a now shut = elim (Option-cases (get_case a.case_id s)) [
    | inl gone ↦ rw (gone, execute_nudge)
    | inr (c, at) ↦ rw (at, execute_nudge) (nudge_case-silent c s a now shut)
  ]

  executors-IsSilent :
      (k : Kind) (now : Instant)
      → (is_contact_allowed p now).allowed ≡ false
      → IsSilent now (executors p link k)
  unfolding executors
  executors-IsSilent (slug silent_retry) now shut = tt
  executors-IsSilent (slug nudge) now shut = λ s a. execute_nudge-silent s a now shut
  executors-IsSilent (slug reauthorisation) now shut = tt
  executors-IsSilent (slug voice_call) now shut = tt
  executors-IsSilent (slug human_callback) now shut = tt
  executors-IsSilent retry now shut = λ s a. refl

  execute-silent :
      (e : Option Executor) (a : Action) (now : Instant) (x : Pass)
      → IsSilent now e
      → (execute e a now x).outbox ≡ x.outbox
  unfolding execute
  execute-silent none a now x h = refl
  execute-silent (some ex) a now x h =
      outbox-after_executor a now (ex x.store a now) x (h x.store a) ∙ append-nil x.outbox

  unless_cancelled-silent :
      (current : Option Action) (e : Option Executor) (a : Action) (now : Instant) (x : Pass)
      → IsSilent now e
      → (unless_cancelled current e a now x).outbox ≡ x.outbox
  unfolding unless_cancelled
  unless_cancelled-silent none e a now x h = refl
  unless_cancelled-silent (some c) e a now x h =
      elim (Option-cases (contact_suppression c.case_id c.customer_ref x.store)) [
        | inl free ↦ rw free (ground (arith, execute-silent e a now x h))
        | inr (b, at) ↦ rw at (ground arith)
      ]

  run_claimed-silent :
      (now : Instant) (claimed : List Action) (x : Pass)
      → (is_contact_allowed p now).allowed ≡ false
      → (run_claimed (executors p link) now claimed x).outbox ≡ x.outbox
  unfolding run_claimed run_action
  run_claimed-silent now [] x shut = refl
  run_claimed-silent now (a ∷ rest) x shut =
      run_claimed-silent now rest _ shut
      ∙ unless_cancelled-silent (action a.id x.store) (executors p link a.kind) a now x
          (executors-IsSilent a.kind now shut)

  -- Outside contact hours a pass sends no message at all, whatever is due.
  pub run_due_silent :
      (now : Instant) (worker : Text) (limit : ℕ) (s : Store)
      → (is_contact_allowed p now).allowed ≡ false
      → (run_due (executors p link) now worker limit s).outbox ≡ []
  unfolding run_due
  run_due_silent now worker limit s shut = run_claimed-silent now _ _ shut
