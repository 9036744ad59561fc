-- ===== src/Agent/Placed.antt =====
-- The retries of src/unhalted/agent.py against the ceilings and the execution bands: the steps that
-- the handlers share.
use unhalted.Prelude.{
  ℕ, ◌≡◌, refl, Bool, true, false, ◌&&◌, ◌==◌, Option, none, some, List, [], ◌∷◌, ◌++◌, map, max,
  All, arith, Bool-cases, inl, inr, if◌then◌else◌,
}
use unhalted.Clock.{Instant}
use unhalted.Policy.{Policy, IsCoherent}
use unhalted.Models.{
  Text, FailureSignal, Case, DiagnosisClass, RuleFired, RetryOccasion, slug, NudgeVariant, Rung,
}
use unhalted.Limits.{may_attempt, check}
use unhalted.Windows.{is_execution_allowed}
use unhalted.Windows.Execution.{next_allowed_execution-IsAllowed}
use unhalted.Scheduler.{schedule_retry}
use unhalted.Scheduler.Earliest.{scheduled-eq}
use unhalted.Ladder.{evaluate}
use unhalted.Runner.{is_retry}
use unhalted.Store.Tables.{Store, Action}
use unhalted.Store.Cases.{set_state, update_case}
use unhalted.Store.Queue.{schedule_action, cancel_row, cancel_pending}
use unhalted.Agent.Entry.{log}
use unhalted.Agent.Retry.{arm, enact, method_of}
use unhalted.Agent.Escalation.{
  exhausted_nudge_sent, take_rung, finish_ladder, escalate_from, climb, above_entry,
  escalate_after_cap,
}

module _ (p : Policy) where
  -- the amount of the signal may be debited
  abbrev pub is_payable : Option FailureSignal → Bool
  is_payable none = false
  is_payable (some x) = may_attempt (check p x.amount_paise x.method x.mandate_max_paise false)

  abbrev is_outside_bands : Option FailureSignal → Option Instant → Bool
  is_outside_bands signal none = false
  is_outside_bands signal (some at) = (is_execution_allowed p at (method_of signal)).allowed

  -- A row that is no retry of the case, or a retry whose amount may be debited and whose instant
  -- lies outside every band of its rail.
  abbrev pub is_lawful : Text → Option FailureSignal → Action → Bool
  is_lawful id signal a =
      if a.case_id == id && is_retry a.kind
      then is_payable signal && is_outside_bands signal a.scheduled_for
      else true

  abbrev pub AreLawful : Text → Option FailureSignal → List Action → Type 0
  AreLawful id signal rows = All (λ a. is_lawful id signal a ≡ true) rows

  append-AreLawful :
      (id : Text) (signal : Option FailureSignal) (rows : List Action) (a : Action)
      → AreLawful id signal rows
      → is_lawful id signal a ≡ true
      → AreLawful id signal (rows ++ a ∷ [])
  append-AreLawful id signal [] a l e = (e, tt)
  append-AreLawful id signal (x ∷ xs) a l e = (l.0, append-AreLawful id signal xs a l.1 e)

  -- a cancellation moves no row
  cancel_row-AreLawful :
      (id : Text) (signal : Option FailureSignal) (ref reach : Text) (now : Option Instant)
      (rows : List Action)
      → AreLawful id signal rows
      → AreLawful id signal (map (cancel_row ref reach now) rows)
  unfolding cancel_row
  cancel_row-AreLawful id signal ref reach now [] l = tt
  cancel_row-AreLawful id signal ref reach now (a ∷ rows) l =
      (ground (arith, l.0), cancel_row-AreLawful id signal ref reach now rows l.1)

  pub arm-AreLawful :
      (c : Case) (signal : Option FailureSignal) (at : Option Instant) (s : Store)
      → AreLawful c.id signal s.pending_actions
      → is_payable signal ≡ true
      → ((t : Instant) → at ≡ some t → (is_execution_allowed p t (method_of signal)).allowed ≡ true)
      → AreLawful c.id signal (arm c at s).pending_actions
  unfolding arm schedule_action
  arm-AreLawful c signal none s l ok out = l
  arm-AreLawful c signal (some at) s l ok out =
      append-AreLawful c.id signal s.pending_actions _ l (ground (arith, ok, out at refl))

  -- what `schedule_retry` decides may be armed
  pub enact-AreLawful :
      IsCoherent p
      → (c : Case) (signal : Option FailureSignal) (requested : Instant) (count : ℕ) (now : Instant)
        (occasion : RetryOccasion) (more : List RuleFired) (s : Store)
      → AreLawful c.id signal s.pending_actions
      → is_payable signal ≡ true
      → AreLawful c.id signal
          (enact p c
            (schedule_retry p requested count (some now) (method_of signal))
            occasion
            more
            now
            s).pending_actions
  unfolding enact log
  enact-AreLawful k c signal requested count now occasion more s l ok =
      let m = method_of signal in
      arm-AreLawful c signal (schedule_retry p requested count (some now) m).scheduled_for s l ok
        (λ t e.
          rw (scheduled-eq p requested now count m t e)
            (next_allowed_execution-IsAllowed p k (max requested now) m).1)

  -- a message is no retry
  pub slug-AreLawful :
      (id : Text) (signal : Option FailureSignal) (case_id ref : Text) (rung : Rung)
      (at : Option Instant) (variant : Option NudgeVariant) (s : Store)
      → AreLawful id signal s.pending_actions
      → AreLawful id signal (schedule_action case_id ref (slug rung) at variant s).1.pending_actions
  unfolding schedule_action
  slug-AreLawful id signal case_id ref rung at variant s l =
      append-AreLawful id signal s.pending_actions _ l (ground arith)

  pub cancel_pending-AreLawful :
      (id : Text) (signal : Option FailureSignal) (ref reach : Text) (now : Instant) (n : ℕ)
      (s s' : Store)
      → AreLawful id signal s.pending_actions
      → cancel_pending ref reach (some now) s ≡ some (n, s')
      → AreLawful id signal s'.pending_actions
  unfolding cancel_pending
  cancel_pending-AreLawful id signal ref reach now n s s' l e =
      let same : s'.pending_actions ≡ map (cancel_row ref reach (some now)) s.pending_actions =
        ground (arith, e) in
      rw same (cancel_row-AreLawful id signal ref reach (some now) s.pending_actions l)

  module _ (link : Case → Option Text) where
    take_rung-AreLawful :
        (id : Text) (signal : Option FailureSignal) (c : Case) (rung : Rung) (now : Instant)
        (s : Store)
        → AreLawful id signal s.pending_actions
        → AreLawful id signal (take_rung p link c rung now s).pending_actions
    unfolding take_rung log set_state update_case
    take_rung-AreLawful id signal c rung now s l =
        elim (Bool-cases (evaluate p rung c.amount_paise none [] none).approved) [
          | inl worth ↦
              rw worth (slug-AreLawful id signal c.id c.customer_ref rung (some now) _ s l)
          | inr not_worth ↦ rw not_worth l
        ]

    escalate_from-AreLawful :
        (id : Text) (signal : Option FailureSignal) (c : Case) (rung : Option Rung) (now : Instant)
        (s : Store)
        → AreLawful id signal s.pending_actions
        → AreLawful id signal (escalate_from p link c rung now s).pending_actions
    unfolding escalate_from finish_ladder log set_state update_case
    escalate_from-AreLawful id signal c (some rung) now s l =
        take_rung-AreLawful id signal c rung now s l
    escalate_from-AreLawful id signal c none now s l =
        elim (Bool-cases (exhausted_nudge_sent c.id s)) [
          | inl sent ↦ rw sent l
          | inr unsent ↦ rw unsent (take_rung-AreLawful id signal c Rung.nudge now s l)
        ]

    -- the ladder adds messages only
    pub escalate_after_cap-AreLawful :
        (id : Text) (signal : Option FailureSignal) (c : Case) (klass : Option DiagnosisClass)
        (now : Instant) (s : Store)
        → AreLawful id signal s.pending_actions
        → AreLawful id signal (escalate_after_cap p link c klass now s).pending_actions
    unfolding escalate_after_cap
    escalate_after_cap-AreLawful id signal c klass now s l =
        escalate_from-AreLawful id signal c (climb p link 5 (above_entry klass)) now s l
