-- ===== src/Agent/Review.antt =====
-- `resume_after_review` and `mark_recovered` of src/unhalted/agent.py.
use unhalted.Prelude.{ℕ, false, Option, none, some, List, [], ◌∷◌, if◌then◌else◌}
use unhalted.Clock.{Instant}
use unhalted.Policy.{Policy}
use unhalted.Models.{
  Text, FailureSignal, Case, recovered, recovery, paid_via_recovery_link, after_review,
  amount_refused,
}
use unhalted.Scheduler.{ScheduleDecision, schedule_retry}
use unhalted.Notify.{Message, confirmation, confirmation_body, console, deliver}
use unhalted.Store.Tables.{Store}
use unhalted.Store.Cases.{get_case, set_state, first_signal}
use unhalted.Store.Trail.{latest_diagnosis}
use unhalted.Store.Queue.{cancel_pending}
use unhalted.Agent.Entry.{log}
use unhalted.Agent.Retry.{method_of, amount_permitted, enact}
use unhalted.Agent.Escalation.{escalate_after_cap}
use unhalted.Agent.Reply.{class_of}

module _ (p : Policy) (link : Case → Option Text) where
  unfoldable pub rearm : Case → Option FailureSignal → Instant → Store → ScheduleDecision × Store
  unfolding enact escalate_after_cap latest_diagnosis
  rearm c signal now s =
      let d = schedule_retry p now c.retry_count (some now) (method_of signal) in
      let s' = enact p c d after_review [] now s in
      (
        d,
        if d.accepted
            then s'
            else escalate_after_cap p link c (class_of (latest_diagnosis c.id s')) now s',
      )

  unfoldable pub resume_after_review : Case → Instant → Store → ScheduleDecision × Store
  unfolding amount_permitted rearm first_signal
  resume_after_review c now s =
      let signal = first_signal c.id s in
      let (allowed, s') = amount_permitted p c signal after_review now s in
      if allowed then rearm c signal now s' else (
        record {
          scheduled_for = none;
          accepted = false;
          rules_fired = amount_refused ∷ [];
          requested = now;
        },
        s',
      )

  -- the word back to a customer who has paid
  unfoldable pub confirm : Option Case → Text → ℕ → Instant → List Message
  confirm none case_id amount now = []
  confirm (some c) case_id amount now =
      (deliver p console
        (record {
          customer_ref = c.customer_ref;
          body = confirmation_body amount;
          case_id = case_id;
          kind = confirmation;
        })
        now).1

  -- How many actions were cancelled, the store, and what was handed to the channel. The record of a
  -- case that has no row is refused by the trail's foreign key: `record` raises.
  unfoldable pub mark_recovered : Text → ℕ → Instant → Store → Option (ℕ × Store × List Message)
  unfolding cancel_pending set_state log confirm get_case
  mark_recovered case_id amount now s = elim (get_case case_id s) [
    | none ↦ none
    | some c ↦ elim (cancel_pending 0 case_id (some now) s) [
      | none ↦ none
      | some (count, s1) ↦ some (
        count,
        log case_id now recovery paid_via_recovery_link [] none (set_state case_id recovered s1),
        confirm (some c) case_id amount now,
      )
    ]
  ]
