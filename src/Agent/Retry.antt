-- ===== src/Agent/Retry.antt =====
-- The retries that src/unhalted/agent.py schedules: whether the amount may be debited, the row of
-- the queue, and the blind retry behind a question.
use unhalted.Prelude.{
  ◌+◌, Bool, true, false, Option, none, some, List, [], ◌∷◌, ◌++◌, String, if◌then◌else◌,
}
use unhalted.Clock.{Instant}
use unhalted.Policy.{Policy}
use unhalted.Models.{
  FailureSignal, Diagnosis, Case, schedule, permitted, RetryOccasion, as_fallback,
  refused_on_amount, retry_refused, retry_at, AuditAction, RuleFired, limit, no_signal_on_file,
  awaiting_reply, retry,
}
use unhalted.Limits.{LimitCheck, may_attempt, check}
use unhalted.Scheduler.{ScheduleDecision, backoff_for, schedule_retry}
use unhalted.Store.Tables.{Store}
use unhalted.Store.Queue.{schedule_action}
use unhalted.Agent.Entry.{log}

-- `[limit.code] if limit.code else []`
unfoldable pub limit_rules : LimitCheck → List RuleFired
limit_rules c = elim c.outcome [ permitted ↦ [] | o ↦ limit o ∷ [] ]

-- `if decision.scheduled_for: store.schedule_action(...)`
unfoldable pub arm : Case → Option Instant → Store → Store
unfolding schedule_action
arm c none s = s
arm c (some at) s = (schedule_action c.id c.customer_ref retry (some at) none s).1

-- the action of the record that follows
abbrev pub outcome_of : RetryOccasion → Option Instant → AuditAction
outcome_of occasion none = retry_refused occasion
outcome_of occasion (some at) = retry_at occasion at

-- `signals[0].method if signals else None`
abbrev pub method_of : Option FailureSignal → Option String
method_of none = none
method_of (some signal) = signal.method

module _ (p : Policy) where
  -- `_amount_permitted`
  unfoldable pub amount_permitted :
      Case → Option FailureSignal → RetryOccasion → Instant → Store → Bool × Store
  unfolding log limit_rules
  amount_permitted c none occasion now s =
      (false, log c.id now schedule (refused_on_amount occasion) (no_signal_on_file ∷ []) none s)
  amount_permitted c (some signal) occasion now s =
      let l = check p signal.amount_paise signal.method signal.mandate_max_paise false in
      if may_attempt l
      then (true, s)
      else (false, log c.id now schedule (refused_on_amount occasion) (limit_rules l) none s)

  -- the row and the record of a decision to retry
  unfoldable pub enact :
      Case → ScheduleDecision → RetryOccasion → List RuleFired → Instant → Store → Store
  unfolding arm log
  enact c d occasion more now s =
      log c.id now schedule (outcome_of occasion d.scheduled_for) (d.rules_fired ++ more) none
        (arm c d.scheduled_for s)

  unfoldable pub fallback_decision : Case → FailureSignal → Instant → Instant → ScheduleDecision
  fallback_decision c signal wait now =
      schedule_retry p (now + p.reply_grace + wait) c.retry_count (some now) signal.method

  unfoldable pub fallback_after :
      Case → FailureSignal → Instant → Bool × Store → Option Instant → Option Store
  unfolding enact fallback_decision
  fallback_after c signal now (false, s) wait = some s
  fallback_after c signal now (true, s) none = none
  fallback_after c signal now (true, s) (some wait) =
      some (enact c (fallback_decision c signal wait now) as_fallback (awaiting_reply ∷ []) now s)

  -- `_schedule_balance_fallback`
  unfoldable pub schedule_balance_fallback :
      Case → Diagnosis → FailureSignal → Instant → Store → Option Store
  unfolding amount_permitted fallback_after
  schedule_balance_fallback c d signal now s =
      fallback_after c signal now (amount_permitted c (some signal) as_fallback now s)
        (backoff_for p (some d.klass) c.retry_count)
