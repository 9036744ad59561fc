-- ===== src/Agent/Failure.antt =====
-- `handle_failure` and `_verify` of src/unhalted/agent.py: a failed debit, from its signal to the
-- next action.
--
-- `table` is the parameter `reasons` of the taxonomy; `fresh` is the id of a case that is opened.
use unhalted.Prelude.{◌+◌, Bool, true, false, Option, none, some, [], ◌∷◌, if◌then◌else◌}
use unhalted.Clock.{Instant, Duration}
use unhalted.Policy.{Policy}
use unhalted.Models.{
  Text, DiagnosisClass, FailureSignal, Diagnosis, Authority, authority, Case, CaseState,
  closed_false_failure, unrecovered, Rung, silent_retry, slug, ask_date, ingest, stop, verification,
  diagnosis, escalation, AuditAction, signal_already_known, case_opened, opened_under_stop,
  check_before_deciding, classified, held_for_a_human, no_intervention_applies, ladder_terminated,
  entering_at, closed_as_false_failure, confirmed_unpaid, on_failure, contact_suppressed,
  verify_before_retry, taxonomy, confidence_below_threshold, no_ladder, verification_unavailable,
  false_failure, verified_unpaid,
}
use unhalted.Verify.{Verifier, Verification}
use unhalted.Taxonomy.{Reasons, diagnose, needs_verification}
use unhalted.Ladder.{entry_rung, LadderDecision, evaluate}
use unhalted.Scheduler.{backoff_for, schedule_retry}
use unhalted.Store.Tables.{Store, Suppression}
use unhalted.Store.Cases.{open_case_or_get, set_state}
use unhalted.Store.Trail.{record_diagnosis, latest_diagnosis}
use unhalted.Store.Queue.{schedule_action, cancel_pending}
use unhalted.Store.Suppressions.{contact_suppression}
use unhalted.Agent.Entry.{log, current}
use unhalted.Agent.Retry.{amount_permitted, enact, schedule_balance_fallback}
use unhalted.Agent.Escalation.{escalate_after_cap}

abbrev pub is_balance : DiagnosisClass → Bool
is_balance DiagnosisClass.recoverable_balance = true
is_balance _ = false

abbrev pub is_silent : Rung → Bool
is_silent silent_retry = true
is_silent _ = false

abbrev pub is_held : Authority → Bool
is_held Authority.hold_for_human = true
is_held _ = false

-- `signal.order_id or ""`
abbrev pub order_or_empty : FailureSignal → Text
order_or_empty signal = elim signal.order_id [ none ↦ 0 | some o ↦ o ]

-- a verification that cannot be performed holds the case
unfoldable pub hold_unverified : Case → Instant → Store → Store
unfolding log set_state
hold_unverified c now s =
    log c.id now stop held_for_a_human (verification_unavailable ∷ []) none
      (set_state c.id CaseState.held_for_human s)

unfoldable pub close_false_failure : Case → Instant → Store → Option Store
unfolding log set_state cancel_pending
close_false_failure c now s =
    elim (cancel_pending 0 c.id (some now) (set_state c.id closed_false_failure s)) [
      | none ↦ none
      | some (count, s') ↦
          some (log c.id now stop closed_as_false_failure (false_failure ∷ []) none s')
    ]

-- the verifier's answer
unfoldable pub settle_verification :
    Case → Instant → Option Verification → Store → Option (Bool × Store)
unfolding hold_unverified close_false_failure log
settle_verification c now none s = some (true, hold_unverified c now s)
settle_verification c now (some v) s =
    if v.already_paid
    then elim (close_false_failure c now s) [ none ↦ none | some s' ↦ some (true, s') ]
    else some (false, log c.id now verification confirmed_unpaid (verified_unpaid ∷ []) none s)

-- `_verify`: whether the case is settled by it, and the store
unfoldable pub verify :
    Case → FailureSignal → Option Verifier → Instant → Store → Option (Bool × Store)
unfolding hold_unverified settle_verification
verify c signal none now s = some (true, hold_unverified c now s)
verify c signal (some verifier) now s =
    settle_verification c now (verifier (order_or_empty signal)) s

module _ (p : Policy) (table : Reasons) (link : Case → Option Text) where
  -- the decision to retry is made, written down, and passed up the ladder if it was refused
  unfoldable pub enact_retry :
      Case → DiagnosisClass → FailureSignal → Instant → Store → Option Duration → Option Store
  unfolding enact escalate_after_cap
  enact_retry c klass signal now s none = none
  enact_retry c klass signal now s (some wait) =
      let d = schedule_retry p (now + wait) c.retry_count (some now) signal.method in
      let s' = enact p c d on_failure [] now s in
      some (if d.accepted then s' else escalate_after_cap p link c (some klass) now s')

  unfoldable pub retry_if : Case → Diagnosis → FailureSignal → Instant → Bool × Store → Option Store
  unfolding enact_retry
  retry_if c d signal now (false, s) = some s
  retry_if c d signal now (true, s) =
      enact_retry c d.klass signal now s (backoff_for p (some d.klass) c.retry_count)

  -- the lowest rung
  unfoldable pub first_retry : Case → Diagnosis → FailureSignal → Instant → Store → Option Store
  unfolding amount_permitted retry_if
  first_retry c d signal now s =
      retry_if c d signal now (amount_permitted p c (some signal) on_failure now s)

  -- the rungs above
  unfoldable pub first_contact :
      Case → Diagnosis → Rung → FailureSignal → Instant → Store → Option Store
  unfolding schedule_action schedule_balance_fallback
  first_contact c d rung signal now s =
      let balance = is_balance d.klass in
      let (_, s') =
        schedule_action c.id c.customer_ref (slug rung) (some now)
          (if balance then some ask_date else none) s in
      if balance then schedule_balance_fallback p c d signal now s' else some s'

  unfoldable pub enter_rung :
      Case → Diagnosis → Rung → FailureSignal → Instant → Store → Option Store
  unfolding first_retry first_contact
  enter_rung c d rung signal now s =
      if is_silent rung then first_retry c d signal now s else first_contact c d rung signal now s

  unfoldable pub terminate : Case → Rung → LadderDecision → Instant → Store → Option Store
  unfolding set_state cancel_pending log
  terminate c rung economics now s =
      elim (cancel_pending 0 c.id (some now) (set_state c.id unrecovered s)) [
        | none ↦ none
        | some (count, s') ↦
            some (log c.id now escalation (ladder_terminated rung) economics.rules_fired none s')
      ]

  unfoldable pub take_up :
      Case → Diagnosis → Option Rung → FailureSignal → Instant → Store → Option Store
  unfolding log terminate enter_rung
  take_up c d none signal now s =
      some (log c.id now escalation no_intervention_applies (no_ladder ∷ []) none s)
  take_up c d (some rung) signal now s =
      let economics = evaluate p rung c.amount_paise none [] none in
      if economics.approved
      then enter_rung c d rung signal now
          (log c.id now escalation (entering_at rung) economics.rules_fired none s)
      else terminate c rung economics now s

  -- from the diagnosis on
  unfoldable pub act_on : Case → Diagnosis → FailureSignal → Instant → Store → Option Store
  unfolding take_up log set_state authority entry_rung record_diagnosis
  act_on c d signal now s =
      let s1 =
        log c.id now diagnosis (classified d.klass) (taxonomy ∷ []) (some d.confidence)
          (record_diagnosis c.id d s) in
      if is_held (authority p d)
      then some (
          log c.id now stop AuditAction.hold_for_human (confidence_below_threshold ∷ []) none
            (set_state c.id CaseState.held_for_human s1))
      else take_up c d (entry_rung d.klass) signal now s1

  unfoldable pub after_verification :
      Case → FailureSignal → Instant → Option (Bool × Store) → Option Store
  unfolding act_on diagnose
  after_verification c signal now none = none
  after_verification c signal now (some (true, s)) = some s
  after_verification c signal now (some (false, s)) = act_on c (diagnose table signal) signal now s

  unfoldable pub verify_first :
      Case → FailureSignal → Option Verifier → Instant → Store → Option (Bool × Store)
  unfolding verify log needs_verification
  verify_first c signal verifier now s =
      if needs_verification signal
      then verify c signal verifier now
          (log c.id now verification check_before_deciding (verify_before_retry ∷ []) none s)
      else some (false, s)

  -- a standing stop, or none
  unfoldable pub work :
      Option Suppression → Case → FailureSignal → Option Verifier → Instant → Store → Option Store
  unfolding after_verification verify_first log set_state
  work (some standing) c signal verifier now s = some (
      log c.id now stop opened_under_stop (contact_suppressed standing.code ∷ []) none
        (set_state c.id CaseState.held_for_human s))
  work none c signal verifier now s =
      after_verification c signal now (verify_first c signal verifier now s)

  -- what follows the opening of the case, by whether it was diagnosed before
  unfoldable pub process :
      Option Diagnosis
      → Case
      → FailureSignal
      → Option Verifier
      → Instant
      → Store
      → Option (Case × Store)
  unfolding work log contact_suppression current
  process (some d) c signal verifier now s =
      some (c, log c.id now ingest signal_already_known [] none s)
  process none c signal verifier now s =
      let s1 = log c.id now ingest case_opened [] none s in
      elim (work (contact_suppression c.id c.customer_ref s1) c signal verifier now s1) [
        | none ↦ none
        | some s2 ↦ some (current c s2, s2)
      ]

  unfoldable pub handle_failure :
      Text → FailureSignal → Option Verifier → Instant → Store → Option (Case × Store)
  unfolding open_case_or_get process latest_diagnosis
  handle_failure fresh signal verifier now s = elim (open_case_or_get fresh signal s) [
    | none ↦ none
    | some (c, created, s1) ↦ process (latest_diagnosis c.id s1) c signal verifier now s1
  ]
