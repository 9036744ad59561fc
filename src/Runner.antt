-- ===== src/Runner.antt =====
-- src/unhalted/runner.py: one pass over the actions that are due.
mod Executors
pub mod Gates
pub mod Ceiling
pub mod Turns
pub mod Passes
unfoldable pub use Executors.*
use unhalted.Prelude.{
  ℕ, suc, ◌*◌, Bool, true, false, Option, none, some, List, [], ◌∷◌, ◌++◌, length, if◌then◌else◌,
}
use unhalted.Clock.{Instant, Duration, minute}
use unhalted.Models.{
  Text, CaseState, AuditRecord, execution, executed, runner, Kind, slug, retry, cancelled, done,
  failed, no_adapter,
}
use unhalted.Notify.{Message}
use unhalted.Store.Tables.{Store, Action, Suppression}
use unhalted.Store.Cases.{set_state, increment_retry_count}
use unhalted.Store.Trail.{write}
use unhalted.Store.Queue.{
  is_pending, is_cancelled, action, finish_action, return_action, release_expired_leases,
  lease_due_actions,
}
use unhalted.Store.Suppressions.{contact_suppression}

-- `LEASE` and `BATCH`
abbrev pub lease_time : Duration
lease_time = 5 * minute

abbrev pub batch : ℕ
batch = 50

pub record RunReport : Type 0 where
  pub reclaimed : ℕ
  pub claimed : ℕ
  pub done_count : ℕ
  pub held : ℕ
  pub cancelled_count : ℕ
  pub no_adapter_count : ℕ
  pub failed_count : ℕ

-- what a pass threads through its loop
pub record Pass : Type 0 where
  pub report : RunReport
  pub store : Store
  pub outbox : List Message

abbrev pub is_retry : Kind → Bool
is_retry (slug _) = false
is_retry retry = true

-- `outcome.state == "pending" and outcome.retry_at is not None`
abbrev pub deferral : Outcome → Option Instant
deferral o = if is_pending o.state then o.retry_at else none

-- `_record`
unfoldable pub execution_record : Action → Outcome → Instant → AuditRecord
execution_record a o now = record {
  case_id = a.case_id;
  at = now;
  decision_type = execution;
  action = executed a.kind o.state;
  rules_fired = runner ∷ [];
  confidence = none;
}

-- the counters after an action that was not deferred
unfoldable pub count_outcome : Outcome → RunReport → RunReport
count_outcome o r = if o.hold_case then record r { held = suc r.held } else elim o.state [
  | done ↦ record r { done_count = suc r.done_count }
  | no_adapter ↦ record r { no_adapter_count = suc r.no_adapter_count }
  | _ ↦ record r { failed_count = suc r.failed_count }
]

-- a debit attempt is counted whatever came back, unless it was deferred
unfoldable pub count_attempt : Action → Outcome → Store → Store
count_attempt a o s = elim (deferral o) [
  | none ↦ if is_retry a.kind then increment_retry_count a.case_id s else s
  | some _ ↦ s
]

-- the rest of the loop's body once an executor has answered
unfoldable pub settle : Action → Outcome → Instant → Store → Store
unfolding count_attempt execution_record
settle a o now s =
    let s' = count_attempt a o (write (execution_record a o now) s) in
    elim (deferral o) [
      | some at ↦ return_action a.id at s'
      | none ↦
          if o.hold_case
          then set_state a.case_id CaseState.held_for_human (finish_action a.id o.state s')
          else finish_action a.id o.state s'
    ]

unfoldable pub settle_report : Outcome → RunReport → RunReport
unfolding count_outcome
settle_report o r = elim (deferral o) [ none ↦ count_outcome o r | some _ ↦ r ]

abbrev count_cancelled : RunReport → RunReport
count_cancelled r = record r { cancelled_count = suc r.cancelled_count }

-- an executor's answer, or its exception
unfoldable pub after_executor : Action → Instant → Option Outcome × List Message → Pass → Pass
unfolding settle settle_report
after_executor a now (none, sent) x = record {
  report = record (x.report) { failed_count = suc x.report.failed_count };
  store = finish_action a.id failed x.store;
  outbox = x.outbox ++ sent;
}
after_executor a now (some o, sent) x = record {
  report = settle_report o x.report;
  store = settle a o now x.store;
  outbox = x.outbox ++ sent;
}

-- `table.get(kind)`, and the executor's run
unfoldable pub execute : Option Executor → Action → Instant → Pass → Pass
unfolding after_executor
execute none a now x = record x {
  report = record (x.report) { no_adapter_count = suc x.report.no_adapter_count };
  store = finish_action a.id no_adapter x.store;
}
execute (some executor) a now x = after_executor a now (executor x.store a now) x

-- the gate on a standing suppression
unfoldable pub unless_suppressed :
    Option Suppression → Option Executor → Action → Instant → Pass → Pass
unfolding execute
unless_suppressed (some bar) executor a now x = record x {
  report = count_cancelled x.report;
  store = finish_action a.id cancelled x.store;
}
unless_suppressed none executor a now x = execute executor a now x

-- the re-read, which lets a cancellation win
unfoldable pub unless_cancelled : Option Action → Option Executor → Action → Instant → Pass → Pass
unfolding unless_suppressed
unless_cancelled none executor a now x = record x { report = count_cancelled x.report }
unless_cancelled (some current) executor a now x =
    if is_cancelled current.state
    then record x { report = count_cancelled x.report }
    else unless_suppressed (contact_suppression current.case_id current.customer_ref x.store)
        executor a now x

-- one turn of the loop of `run_due`
unfoldable pub run_action : (Kind → Option Executor) → Instant → Action → Pass → Pass
unfolding unless_cancelled
run_action table now a x = unless_cancelled (action a.id x.store) (table a.kind) a now x

unfoldable pub run_claimed : (Kind → Option Executor) → Instant → List Action → Pass → Pass
run_claimed table now [] x = x
run_claimed table now (a ∷ rest) x = run_claimed table now rest (run_action table now a x)

unfoldable pub run_due : (Kind → Option Executor) → Instant → Text → ℕ → Store → Pass
run_due table now worker limit s =
    let (reclaimed, s1) = release_expired_leases now s in
    let (claimed, s2) = lease_due_actions now worker lease_time limit s1 in
    run_claimed table now claimed (record {
      report = record {
        reclaimed = reclaimed;
        claimed = length claimed;
        done_count = 0;
        held = 0;
        cancelled_count = 0;
        no_adapter_count = 0;
        failed_count = 0;
      };
      store = s2;
      outbox = [];
    })
