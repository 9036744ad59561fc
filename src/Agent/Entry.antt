-- ===== src/Agent/Entry.antt =====
-- The audit records that src/unhalted/agent.py writes, and the case that its handlers return.
use unhalted.Prelude.{ℕ, Option, none, some, List}
use unhalted.Clock.{Instant}
use unhalted.Models.{Text, Case, DecisionType, AuditAction, RuleFired}
use unhalted.Store.Tables.{Store}
use unhalted.Store.Cases.{get_case}
use unhalted.Store.Trail.{write}

-- `store.record(AuditRecord(...))`
unfoldable pub log :
    Text → Instant → DecisionType → AuditAction → List RuleFired → Option ℕ → Store → Store
unfolding write
log case_id now decision what rules confidence = write (record {
  case_id = case_id;
  at = now;
  decision_type = decision;
  action = what;
  rules_fired = rules;
  confidence = confidence;
})

-- `store.get_case(case.id) or case`
unfoldable pub current : Case → Store → Case
unfolding get_case
current c s = elim (get_case c.id s) [ none ↦ c | some row ↦ row ]
