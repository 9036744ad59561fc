-- ===== src/Agent/Frame/Escalation.antt =====
-- A frame across the retries and the escalation of src/unhalted/agent.py.
use unhalted.Prelude.{refl, ◌≡◌, false, List, Option, none, some, [], Bool-cases, inl, inr}
use unhalted.Clock.{Instant}
use unhalted.Policy.{Policy}
use unhalted.Models.{Text, FailureSignal, Case, DiagnosisClass, Rung, RetryOccasion, RuleFired}
use unhalted.Limits.{may_attempt, check}
use unhalted.Ladder.{evaluate}
use unhalted.Scheduler.{ScheduleDecision}
use unhalted.Store.Tables.{Store}
use unhalted.Store.Trail.{is_nudge_done}
use unhalted.Agent.Entry.{log}
use unhalted.Agent.Retry.{arm, outcome_of, enact, amount_permitted}
use unhalted.Agent.Escalation.{
  take_rung, finish_ladder, escalate_from, escalate_after_cap, climb, above_entry,
  exhausted_nudge_sent,
}
use unhalted.Agent.Frame.{Frame, framed-write, framed-set_state, framed-schedule}

quiet-outcome_of :
    (o : RetryOccasion) (at : Option Instant) → is_nudge_done (outcome_of o at) ≡ false
quiet-outcome_of o none = refl
quiet-outcome_of o (some at) = refl

module _ (F : Frame) where
  framed-arm : {s s1 : Store} (c : Case) (at : Option Instant) → F.rel s s1 → F.rel s (arm c at s1)
  unfolding arm
  framed-arm c none h = h
  framed-arm c (some at) h = framed-schedule F _ _ _ _ _ h

  module _ (p : Policy) where
    pub framed-enact :
        {s s1 : Store} (c : Case) (d : ScheduleDecision) (o : RetryOccasion) (more : List RuleFired)
        (now : Instant)
        → F.rel s s1
        → F.rel s (enact p c d o more now s1)
    unfolding enact log
    framed-enact c d o more now h =
        framed-write F _ (framed-arm c d.scheduled_for h) (quiet-outcome_of o d.scheduled_for)

    pub framed-amount_permitted :
        {s s1 : Store} (c : Case) (x : Option FailureSignal) (o : RetryOccasion) (now : Instant)
        → F.rel s s1
        → F.rel s (amount_permitted p c x o now s1).1
    unfolding amount_permitted log
    framed-amount_permitted c none o now h = framed-write F _ h refl
    framed-amount_permitted c (some x) o now h =
        elim (Bool-cases
          (may_attempt (check p x.amount_paise x.method x.mandate_max_paise false))) [
            | inl ok ↦ rw ok h
            | inr over ↦ rw over (framed-write F _ h refl)
          ]

    module _ (link : Case → Option Text) where
      framed-take_rung :
          {s s1 : Store} (c : Case) (rung : Rung) (now : Instant)
          → F.rel s s1
          → F.rel s (take_rung p link c rung now s1)
      unfolding take_rung log
      framed-take_rung c rung now h =
          elim (Bool-cases (evaluate p rung c.amount_paise none [] none).approved) [
            | inl worth ↦ rw worth (framed-write F _ (framed-schedule F _ _ _ _ _ h) refl)
            | inr not_worth ↦ rw not_worth (framed-write F _ (framed-set_state F _ _ h) refl)
          ]

      framed-escalate_from :
          {s s1 : Store} (c : Case) (rung : Option Rung) (now : Instant)
          → F.rel s s1
          → F.rel s (escalate_from p link c rung now s1)
      unfolding escalate_from finish_ladder log
      framed-escalate_from c (some rung) now h = framed-take_rung c rung now h
      framed-escalate_from {s1} c none now h = elim (Bool-cases (exhausted_nudge_sent c.id s1)) [
        | inl sent ↦ rw sent (framed-write F _ (framed-set_state F _ _ h) refl)
        | inr unsent ↦ rw unsent (framed-take_rung c Rung.nudge now h)
      ]

      pub framed-escalate :
          {s s1 : Store} (c : Case) (klass : Option DiagnosisClass) (now : Instant)
          → F.rel s s1
          → F.rel s (escalate_after_cap p link c klass now s1)
      unfolding escalate_after_cap
      framed-escalate c klass now h =
          framed-escalate_from c (climb p link 5 (above_entry klass)) now h
