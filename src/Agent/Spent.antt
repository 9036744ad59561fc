-- ===== src/Agent/Spent.antt =====
-- `escalate_after_cap` of src/unhalted/agent.py: the climb, and what it leaves on the case.
use unhalted.Prelude.{
  ◌≡◌, refl, Bool, true, false, ◌&&◌, ◌||◌, ◌==◌, inl, inr, Option, none, some, List, [], ◌∷◌, ◌++◌,
  any, map, arith, Bool-cases,
}
use unhalted.Clock.{Instant}
use unhalted.Policy.{Policy}
use unhalted.Models.{
  Text, DiagnosisClass, Case, CaseState, unrecovered, Rung, nudge, slug, NudgeVariant, exhausted,
}
use unhalted.Ladder.{evaluate, entry_rung, next_rung}
use unhalted.Store.Tables.{Store, Action}
use unhalted.Store.Cases.{has_id, on_case, set_state, update_case}
use unhalted.Store.Queue.{is_due, schedule_action}
use unhalted.Runner.{executors}
use unhalted.Agent.Entry.{log}
use unhalted.Agent.Escalation.{
  above_entry, exhausted_nudge_sent, is_executable, climb, take_rung, finish_ladder, escalate_from,
  escalate_after_cap,
}

-- a case that a person holds, or that is closed as unrecovered
abbrev pub is_closed : CaseState → Bool
is_closed CaseState.held_for_human = true
is_closed unrecovered = true
is_closed _ = false

abbrev pub is_settled : Text → Case → Bool
is_settled id c = c.id == id && is_closed c.state

-- a message that is due now
abbrev pub is_due_nudge : Text → Instant → Action → Bool
is_due_nudge id now a =
    a.case_id == id && (is_due now a && elim a.kind [ slug nudge ↦ true | _ ↦ false ])

-- Something of the case is due, or the case is with a person or closed.
abbrev pub is_answered : Text → Instant → Store → Bool
is_answered id now s = any (is_due_nudge id now) s.pending_actions || any (is_settled id) s.cases

any-last :
    (f : Action → Bool) (xs : List Action) (x : Action) → f x ≡ true → any f (xs ++ x ∷ []) ≡ true
any-last f [] x e = rw e refl
any-last f (y ∷ ys) x e = ground (arith, any-last f ys x e)

due-schedule_action :
    (id ref : Text) (variant : Option NudgeVariant) (now : Instant) (s : Store)
    → any
        (is_due_nudge id now)
        (schedule_action id ref (slug nudge) (some now) variant s).1.pending_actions
      ≡ true
unfolding schedule_action
due-schedule_action id ref variant now s =
    any-last (is_due_nudge id now) s.pending_actions _ (ground arith)

settled-set_state :
    (id : Text) (state : CaseState) (cs : List Case)
    → is_closed state ≡ true
    → any (has_id id) cs ≡ true
    → any (is_settled id) (map (on_case id (λ c. record c { state = state })) cs) ≡ true
settled-set_state id state [] e h = h
settled-set_state id state (c ∷ cs) e h = ground (arith, e, h, settled-set_state id state cs e)

module _ (p : Policy) (link : Case → Option Text) where
  -- the only rung that has an executor
  executable-nudge : (rung : Rung) → is_executable p link rung ≡ true → rung ≡ nudge
  unfolding is_executable executors
  executable-nudge rung e = ground (arith, e)

  take_rung-answered :
      (c : Case) (now : Instant) (s : Store)
      → any (has_id c.id) s.cases ≡ true
      → is_answered c.id now (take_rung p link c nudge now s) ≡ true
  unfolding take_rung log set_state update_case schedule_action
  take_rung-answered c now s h =
      elim (Bool-cases (evaluate p nudge c.amount_paise none [] none).approved) [
        | inl worth ↦
            let due = due-schedule_action c.id c.customer_ref (some exhausted) now s in
            rw (worth, due) refl
        | inr not_worth ↦
            let closed = settled-set_state c.id unrecovered s.cases refl h in
            rw not_worth (ground (arith, closed))
      ]

  -- Five turns of the climb are enough: if it stops at a rung, that rung has an executor.
  pub climb_settles :
      (klass : Option DiagnosisClass) (rung : Rung)
      → climb p link 5 (above_entry klass) ≡ some rung
      → is_executable p link rung ≡ true
  unfolding climb above_entry entry_rung next_rung is_executable executors
  climb_settles klass rung e = ground (arith, e)

  escalate_from-answered :
      (c : Case) (rung : Option Rung) (now : Instant) (s : Store)
      → any (has_id c.id) s.cases ≡ true
      → ((r : Rung) → rung ≡ some r → is_executable p link r ≡ true)
      → is_answered c.id now (escalate_from p link c rung now s) ≡ true
  unfolding escalate_from finish_ladder log set_state update_case
  escalate_from-answered c (some rung) now s h settles =
      rw (executable-nudge rung (settles rung refl)) (take_rung-answered c now s h)
  escalate_from-answered c none now s h settles = elim (Bool-cases (exhausted_nudge_sent c.id s)) [
    | inl sent ↦
        let held = settled-set_state c.id CaseState.held_for_human s.cases refl h in
        rw sent (ground (arith, held))
    | inr unsent ↦ rw unsent (take_rung-answered c now s h)
  ]

  -- A case that has a row and whose retries are spent does not go quiet: after the escalation a
  -- message of that case is due at once, or a row of the case reads held for a person or
  -- unrecovered.
  pub escalate_after_cap-answered :
      (c : Case) (klass : Option DiagnosisClass) (now : Instant) (s : Store)
      → any (has_id c.id) s.cases ≡ true
      → is_answered c.id now (escalate_after_cap p link c klass now s) ≡ true
  unfolding escalate_after_cap
  escalate_after_cap-answered c klass now s h =
      escalate_from-answered c (climb p link 5 (above_entry klass)) now s h
        (λ rung e. climb_settles klass rung e)
