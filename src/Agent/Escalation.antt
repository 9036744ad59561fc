-- ===== src/Agent/Escalation.antt =====
-- What src/unhalted/agent.py does when the retries are spent: `escalate_after_cap`.
use unhalted.Prelude.{
  ℕ, zero, suc, Bool, true, false, ◌&&◌, Option, none, some, [], ◌∷◌, ◌++◌, any, if◌then◌else◌,
}
use unhalted.Clock.{Instant}
use unhalted.Policy.{Policy}
use unhalted.Models.{
  Text, DiagnosisClass, Case, unrecovered, AuditRecord, DecisionType, escalation, Rung, nudge, slug,
  exhausted, ladder_terminated, ladder_exhausted, retries_spent_escalating_to, RuleFired,
  ladder_end, escalated_after_cap, CaseState,
}
use unhalted.Ladder.{entry_rung, next_rung, evaluate}
use unhalted.Runner.{executors}
use unhalted.Store.Tables.{Store}
use unhalted.Store.Cases.{set_state}
use unhalted.Store.Trail.{timeline}
use unhalted.Store.Queue.{schedule_action}
use unhalted.Agent.Entry.{log}

abbrev is_escalation : DecisionType → Bool
is_escalation escalation = true
is_escalation _ = false

abbrev is_after_cap : RuleFired → Bool
is_after_cap escalated_after_cap = true
is_after_cap _ = false

abbrev pub marks_exhausted : AuditRecord → Bool
marks_exhausted r = is_escalation r.decision_type && any is_after_cap r.rules_fired

-- `_exhausted_nudge_sent`
unfoldable pub exhausted_nudge_sent : Text → Store → Bool
unfolding timeline
exhausted_nudge_sent case_id s = any marks_exhausted (timeline case_id s)

-- `ladder.next_rung(entry) if entry else None`, where `entry` is the class's, if there is a class
unfoldable pub above_entry : Option DiagnosisClass → Option Rung
unfolding entry_rung next_rung
above_entry none = none
above_entry (some klass) = elim (entry_rung klass) [ none ↦ none | some e ↦ next_rung e [] ]

module _ (p : Policy) (link : Case → Option Text) where
  -- `ladder.SLUG[rung] in runner.EXECUTORS`
  unfoldable pub is_executable : Rung → Bool
  unfolding executors
  is_executable rung = elim (executors p link (slug rung)) [ none ↦ false | some _ ↦ true ]

  -- The `while` of `escalate_after_cap`. The ladder has five rungs, and each turn leaves one behind.
  unfoldable pub climb : ℕ → Option Rung → Option Rung
  unfolding is_executable next_rung
  climb zero rung = rung
  climb (suc fuel) none = none
  climb (suc fuel) (some rung) =
      let further = climb fuel (next_rung rung []) in
      if is_executable rung then some rung else further

  -- the last part: the rung is worth its cost, or the case ends here
  unfoldable pub take_rung : Case → Rung → Instant → Store → Store
  unfolding log set_state schedule_action
  take_rung c rung now s =
      let economics = evaluate p rung c.amount_paise none [] none in
      if economics.approved
      then log c.id now escalation (retries_spent_escalating_to rung)
          (economics.rules_fired ++ escalated_after_cap ∷ []) none
          (schedule_action c.id c.customer_ref (slug rung) (some now) (some exhausted) s).1
      else log c.id now escalation (ladder_terminated rung) economics.rules_fired none
          (set_state c.id unrecovered s)

  unfoldable pub finish_ladder : Case → Instant → Store → Store
  unfolding log set_state
  finish_ladder c now s =
      log c.id now escalation ladder_exhausted (ladder_end ∷ []) none
        (set_state c.id CaseState.held_for_human s)

  unfoldable pub escalate_from : Case → Option Rung → Instant → Store → Store
  unfolding take_rung finish_ladder exhausted_nudge_sent
  escalate_from c (some rung) now s = take_rung c rung now s
  escalate_from c none now s =
      if exhausted_nudge_sent c.id s then finish_ladder c now s else take_rung c nudge now s

  unfoldable pub escalate_after_cap : Case → Option DiagnosisClass → Instant → Store → Store
  unfolding escalate_from climb above_entry
  escalate_after_cap c klass now s = escalate_from c (climb 5 (above_entry klass)) now s
