-- ===== src/Runner/Turns.antt =====
-- The turns of the loop of `run_due` (src/unhalted/runner.py) as changes of the audit trail.

use unhalted.Prelude.{
  ℕ, ◌-◌, ◌<◌, ◌≡◌, refl, true, ◌==◌, Option, none, some, List, [], ◌∷◌, ◌++◌, length, arith,
  Bool-cases, Option-cases, inl, inr,
}
use unhalted.Clock.{Instant}
use unhalted.Policy.{Policy}
use unhalted.Models.{Text, Case, CaseState, executed, ActionState, done, failed}
use unhalted.Windows.{BudgetCheck, contact_budget, inside_window}
use unhalted.Notify.{Message}
use unhalted.Store.Tables.{Store, Action}
use unhalted.Store.Cases.{get_case, set_state, increment_retry_count, update_case}
use unhalted.Store.Trail.{is_nudge_done, belongs_to, contacts_since, write}
use unhalted.Store.Queue.{finish_action, return_action}
use unhalted.Store.Ownership.{belongs_to-set_state, belongs_to-increment}
use unhalted.Runner.{
  Outcome, Executor, Pass, execution_record, count_attempt, settle, after_executor, execute_nudge,
  execute_retry, nudge_case,
}
use unhalted.Runner.Ceiling.{Turn, quiet, noted, sent}

owners-count_attempt :
    (a : Action) (o : Outcome) (s : Store) (ref id : Text)
    → belongs_to ref (count_attempt a o s) id ≡ belongs_to ref s id
unfolding count_attempt
owners-count_attempt a o s ref id = ground (arith, belongs_to-increment ref id a.case_id s)

audit-count_attempt : (a : Action) (o : Outcome) (s : Store) → (count_attempt a o s).audit ≡ s.audit
unfolding count_attempt increment_retry_count update_case
audit-count_attempt a o s = ground arith

pub owners-finish :
    (id : ℕ) (state : ActionState) (s : Store) (ref case : Text)
    → belongs_to ref (finish_action id state s) case ≡ belongs_to ref s case
unfolding finish_action belongs_to
owners-finish id state s ref case = refl

pub owners-write :
    (a : Action) (o : Outcome) (now : Instant) (s : Store) (ref case : Text)
    → belongs_to ref (write (execution_record a o now) s) case ≡ belongs_to ref s case
unfolding write belongs_to
owners-write a o now s ref case = refl

abbrev returned : ℕ → Option Instant → Store → Store
returned id none s = s
returned id (some at) s = return_action id at s

owners-return :
    (id : ℕ) (at : Option Instant) (s : Store) (ref case : Text)
    → belongs_to ref (returned id at s) case ≡ belongs_to ref s case
unfolding return_action belongs_to
owners-return id none s ref case = refl
owners-return id (some at) s ref case = refl

pub owners-settle :
    (a : Action) (o : Outcome) (now : Instant) (s : Store) (ref id : Text)
    → belongs_to ref (settle a o now s) id ≡ belongs_to ref s id
unfolding settle
owners-settle a o now s ref id =
    let s1 = write (execution_record a o now) s in
    let s2 = count_attempt a o s1 in
    ground (
      arith,
      owners-write a o now s ref id,
      owners-count_attempt a o s1 ref id,
      owners-return a.id o.retry_at s2 ref id,
      owners-finish a.id o.state s2 ref id,
      belongs_to-set_state ref id a.case_id CaseState.held_for_human
          (finish_action a.id o.state s2),
    )

pub audit-settle :
    (a : Action) (o : Outcome) (now : Instant) (s : Store)
    → (settle a o now s).audit ≡ s.audit ++ execution_record a o now ∷ []
unfolding settle set_state update_case finish_action return_action write count_attempt
    increment_retry_count
audit-settle a o now s = ground arith

module _ (p : Policy) where
  allowed_room :
      (recent : List Instant) (now : Instant) (b : BudgetCheck)
      → contact_budget p recent now ≡ some b
      → b.allowed ≡ true
      → length (inside_window p recent now) < p.contact_max_per_window
  unfolding contact_budget
  allowed_room recent now b e ok = go (inside_window p recent now) refl
    where
      go :
          (inside : List Instant)
          → inside_window p recent now ≡ inside
          → length (inside_window p recent now) < p.contact_max_per_window
      go [] i = ground arith
      go (oldest ∷ rest) i = ground arith

  -- a delivered nudge: the case is on file, and its customer's budget had room
  abbrev pub HasRoom : Text → Instant → Store → Type 0
  HasRoom id now s =
      (c : Case) × (get_case id s ≡ some c)
      × (length (inside_window p (contacts_since c.customer_ref (now - p.contact_window) s) now)
          < p.contact_max_per_window)

  module _ (link : Case → Option Text) where
    done_in_budget :
        (c : Case) (s : Store) (a : Action) (now : Instant) (o : Outcome) (out : List Message)
        → nudge_case p link c s a now ≡ (some o, out)
        → o.state ≡ done
        → (b : BudgetCheck) × (contact_budget p
              (contacts_since c.customer_ref (now - p.contact_window) s)
              now
            ≡ some b)
          × (b.allowed ≡ true)
    unfolding nudge_case
    done_in_budget c s a now o out e d =
        elim (Option-cases
          (contact_budget p (contacts_since c.customer_ref (now - p.contact_window) s) now)) [
            | inl raised ↦ absurd (ground arith)
            | inr (b, at) ↦ (b, at, ground arith)
          ]

    pub done_HasRoom :
        (s : Store) (a : Action) (now : Instant) (o : Outcome) (out : List Message)
        → execute_nudge p link s a now ≡ (some o, out)
        → o.state ≡ done
        → HasRoom a.case_id now s
    unfolding execute_nudge
    done_HasRoom s a now o out e d = elim (Option-cases (get_case a.case_id s)) [
      | inl gone ↦ absurd (ground arith)
      | inr (c, at) ↦
          let (b, budget, ok) = done_in_budget c s a now o out (ground arith) d in
          (
            c,
            at,
            allowed_room (contacts_since c.customer_ref (now - p.contact_window) s) now b budget ok,
          )
    ]

    -- An executor is guarded at a row if it delivers no nudge but within the budget.
    abbrev pub IsGuarded : Action → Instant → Store → Executor → Type 0
    IsGuarded a now s ex =
        (o : Outcome) (out : List Message)
        → ex s a now ≡ (some o, out)
        → is_nudge_done (executed a.kind o.state) ≡ true
        → HasRoom a.case_id now s

    pub execute_nudge-IsGuarded :
        (a : Action) (now : Instant) (s : Store) → IsGuarded a now s (execute_nudge p link)
    execute_nudge-IsGuarded a now s o out e k = done_HasRoom s a now o out e (ground arith)

    pub execute_retry-IsGuarded :
        (a : Action) (now : Instant) (s : Store) → IsGuarded a now s execute_retry
    unfolding execute_retry
    execute_retry-IsGuarded a now s o out e k = absurd (ground arith)

    owner_of :
        (c : Case) (id : Text) (s : Store) (ref : Text)
        → get_case id s ≡ some c
        → belongs_to ref s id ≡ (c.customer_ref == ref)
    unfolding belongs_to
    owner_of c id s ref e = ground arith

    settle-Turn :
        (a : Action) (o : Outcome) (now : Instant) (s : Store)
        → (is_nudge_done (executed a.kind o.state) ≡ true → HasRoom a.case_id now s)
        → Turn p now s (settle a o now s)
    unfolding execution_record
    settle-Turn a o now s room = elim (Bool-cases (is_nudge_done (executed a.kind o.state))) [
      | inl delivered ↦
          let (c, at, fits) = room delivered in
          sent (execution_record a o now) c.customer_ref (owners-settle a o now s)
            (audit-settle a o now s) refl (λ ref. owner_of c a.case_id s ref at) fits
      | inr other ↦
          noted (execution_record a o now) (owners-settle a o now s) (audit-settle a o now s) other
    ]

    pub finish-Turn :
        (now : Instant) (id : ℕ) (state : ActionState) (s : Store)
        → Turn p now s (finish_action id state s)
    unfolding finish_action
    finish-Turn now id state s = quiet (owners-finish id state s) refl

    pub after_executor-Turn :
        (a : Action) (now : Instant) (r : Option Outcome × List Message) (x : Pass)
        → ((o : Outcome)
            → r.0 ≡ some o
            → is_nudge_done (executed a.kind o.state) ≡ true
            → HasRoom a.case_id now x.store)
        → Turn p now x.store (after_executor a now r x).store
    unfolding after_executor
    after_executor-Turn a now (none, out) x room = finish-Turn now a.id failed x.store
    after_executor-Turn a now (some o, out) x room = settle-Turn a o now x.store (room o refl)
