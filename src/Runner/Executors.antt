-- ===== src/Runner/Executors.antt =====
-- The executors of src/unhalted/runner.py: `execute_nudge` and `execute_retry`.
--
-- `paylink.create_payment_link` asks Razorpay for a link: it is the parameter `link`. An executor
-- returns `none` where it raises; with its outcome come the messages that it handed to the channel.
use unhalted.Prelude.{◌-◌, Bool, true, false, Option, none, some, List, [], ltb, if◌then◌else◌}
use unhalted.Clock.{Instant, Day, date_of, combine}
use unhalted.Policy.{Policy}
use unhalted.Models.{
  Text, Case, Kind, slug, retry, nudge, ActionState, pending, done, failed, no_adapter,
}
use unhalted.Windows.{is_contact_allowed, next_allowed_contact, BudgetCheck, contact_budget}
use unhalted.Notify.{Message, nudge_message, body_for, console, deliver}
use unhalted.Store.Tables.{Store, Action}
use unhalted.Store.Cases.{get_case}
use unhalted.Store.Trail.{contacts_since}

pub record Outcome : Type 0 where
  pub state : ActionState
  pub retry_at : Option Instant
  pub hold_case : Bool

abbrev pub Executor : Type 0
Executor = Store → Action → Instant → Option Outcome × List Message

abbrev outcome : ActionState → Outcome
outcome state = record { state = state; retry_at = none; hold_case = false }

abbrev deferred : Option Instant → Outcome
deferred at = record { state = pending; retry_at = at; hold_case = false }

-- `case.nudges_suspended_until and now.date() < case.nudges_suspended_until`
unfoldable pub suspended : Option Day → Instant → Option Day
suspended none now = none
suspended (some until) now = if ltb (date_of now) until then some until else none

-- `execute_retry`: no adapter exists, and the case goes to a person
unfoldable pub execute_retry : Executor
execute_retry s a now =
    (some (record { state = no_adapter; retry_at = none; hold_case = true }), [])

module _ (p : Policy) (link : Case → Option Text) where
  -- the end of `execute_nudge`: build the message and hand it over
  unfoldable pub send_nudge : Case → Action → Instant → Option Outcome × List Message
  send_nudge c a now =
      let message : Message = record {
        customer_ref = c.customer_ref;
        body = body_for a.variant c.amount_paise (link c);
        case_id = c.id;
        kind = nudge_message;
      } in
      let (delivery, sent) = deliver p console message now in
      if delivery.sent
      then (some (outcome done), sent)
      else (some (deferred (some (next_allowed_contact p now))), sent)

  -- the contact-hour check before a link is asked for
  unfoldable pub nudge_in_hours : Case → Action → Instant → Option Outcome × List Message
  unfolding send_nudge
  nudge_in_hours c a now =
      if (is_contact_allowed p now).allowed
      then send_nudge c a now
      else (some (deferred (some (next_allowed_contact p now))), [])

  unfoldable pub nudge_in_budget :
      Option BudgetCheck → Case → Action → Instant → Option Outcome × List Message
  unfolding nudge_in_hours
  nudge_in_budget none c a now = (none, [])
  nudge_in_budget (some budget) c a now =
      if budget.allowed then nudge_in_hours c a now else (some (deferred budget.free_at), [])

  unfoldable pub nudge_case : Case → Store → Action → Instant → Option Outcome × List Message
  unfolding nudge_in_budget
  nudge_case c s a now = elim (suspended c.nudges_suspended_until now) [
    | some until ↦ (some (deferred (some (combine until p.contact_open))), [])
    | none ↦
        nudge_in_budget
          (contact_budget p (contacts_since c.customer_ref (now - p.contact_window) s) now) c a now
  ]

  unfoldable pub execute_nudge : Executor
  unfolding nudge_case
  execute_nudge s a now = elim (get_case a.case_id s) [
    | none ↦ (some (outcome failed), [])
    | some c ↦ nudge_case c s a now
  ]

  -- `EXECUTORS`
  unfoldable pub executors : Kind → Option Executor
  unfolding execute_nudge execute_retry
  executors (slug nudge) = some execute_nudge
  executors (slug _) = none
  executors retry = some execute_retry
