-- ===== src/Agent/Reply.antt =====
-- `handle_reply` of src/unhalted/agent.py: a customer's reply, from words to consequence.
--
-- `parsed` is what `core.reply.parse` makes of the text; the handler asks for it only where no stop
-- stands.
use unhalted.Prelude.{
  ℕ, Bool, true, false, Option, none, some, List, [], ◌∷◌, max, select, if◌then◌else◌,
}
use unhalted.Clock.{Instant, Day, date_of, combine}
use unhalted.Policy.{Policy}
use unhalted.Models.{
  Text, DiagnosisClass, FailureSignal, Diagnosis, Case, CaseState, DetectedIntent, ParsedReply,
  StopCode, stop, reply, AuditAction, not_acted_on, parsed, held_for_a_human,
  held_as_well_as_stopped, on_promise, RuleFired, stop_rule, contact_suppressed, held_for_human,
}
use unhalted.Stops.{rule}
use unhalted.Replies.{ReplyOutcome, no_change, decide}
use unhalted.Scheduler.{schedule_retry}
use unhalted.Store.Tables.{Store, Suppression}
use unhalted.Store.Cases.{set_state, suspend_nudges_until, first_signal}
use unhalted.Store.Trail.{latest_diagnosis}
use unhalted.Store.Queue.{cancel_pending}
use unhalted.Store.Suppressions.{contact_suppression}
use unhalted.Agent.Entry.{log, current}
use unhalted.Agent.Retry.{method_of, amount_permitted, enact}
use unhalted.Agent.Escalation.{escalate_after_cap}
use unhalted.Agent.Stop.{stop_on_file}

-- `max((i.confidence for i in parsed.intents), default=None)`
unfoldable pub top_confidence : List DetectedIntent → Option ℕ
top_confidence [] = none
top_confidence (i ∷ is) = elim (top_confidence is) [
  | none ↦ some i.confidence
  | some c ↦ some (max i.confidence c)
]

-- `latest.klass if latest else None`
abbrev pub class_of : Option Diagnosis → Option DiagnosisClass
class_of none = none
class_of (some d) = some d.klass

abbrev is_other_rule : RuleFired → Bool
is_other_rule (stop_rule _) = false
is_other_rule _ = true

-- the outcome under a standing stop
abbrev pub barred : Suppression → ReplyOutcome
barred standing = record no_change {
  needs_human = true;
  rules_fired = contact_suppressed standing.code ∷ [];
}

-- A stop that needs a person too, and whose rule has no terminal state, holds the case.
unfoldable pub hold_as_well : Case → StopCode → ReplyOutcome → Instant → Store → Store
unfolding log set_state rule
hold_as_well c code out now s =
    let held =
      log c.id now stop held_as_well_as_stopped (select is_other_rule out.rules_fired) none
        (set_state c.id CaseState.held_for_human s) in
    if out.needs_human then elim (rule code).terminal_state [ none ↦ held | some _ ↦ s ] else s

unfoldable pub enact_stop : Case → StopCode → ReplyOutcome → Instant → Store → Option Store
unfolding stop_on_file hold_as_well
enact_stop c code out now s = elim (stop_on_file code c.id c.customer_ref now s) [
  | none ↦ none
  | some (count, s') ↦ some (hold_as_well c code out now s')
]

-- nothing automated stays on a case that a person owns
unfoldable pub hold_case : Case → Instant → Store → Option Store
unfolding cancel_pending set_state log
hold_case c now s = elim (cancel_pending 0 c.id (some now) s) [
  | none ↦ none
  | some (count, s') ↦ some (
      log c.id now stop held_for_a_human (held_for_human ∷ []) none
        (set_state c.id CaseState.held_for_human s'))
]

unfoldable pub suspend : Case → Option Day → Store → Store
unfolding suspend_nudges_until
suspend c none s = s
suspend c (some until) s = suspend_nudges_until c.id (some until) s

module _ (p : Policy) (link : Case → Option Text) where
  -- a promised day: the retry is moved there, and nudges wait
  unfoldable pub place_promise :
      Case → Day → Option Day → Option FailureSignal → Instant → Store → Store
  unfolding enact suspend escalate_after_cap latest_diagnosis current
  place_promise c promised until signal now s =
      let d =
        schedule_retry p (combine promised p.contact_open) c.retry_count (some now)
          (method_of signal) in
      let s' = suspend c until (enact p c d on_promise [] now s) in
      if d.accepted
      then s'
      else escalate_after_cap p link (current c s') (class_of (latest_diagnosis c.id s')) now s'

  unfoldable pub realign_in : Case → Day → Option Day → Instant → Store → Store
  unfolding amount_permitted place_promise suspend first_signal
  realign_in c promised until now s =
      let signal = first_signal c.id s in
      let (allowed, s') = amount_permitted p c signal on_promise now s in
      if allowed then place_promise c promised until signal now s' else suspend c until s'

  unfoldable pub realign : Case → Day → Option Day → Instant → Store → Option Store
  unfolding cancel_pending realign_in
  realign c promised until now s = elim (cancel_pending 0 c.id (some now) s) [
    | none ↦ none
    | some (count, s') ↦ some (realign_in c promised until now s')
  ]

  -- the branches on what `decide` said
  unfoldable pub enact_reply : Case → ReplyOutcome → Instant → Store → Option Store
  unfolding enact_stop hold_case realign
  enact_reply c out now s = elim out.stop_code [
    | some code ↦ enact_stop c code out now s
    | none ↦ if out.needs_human then hold_case c now s else elim out.realign_to [
      | none ↦ some s
      | some promised ↦ realign c promised out.suspend_nudges_until now s
    ]
  ]

  unfoldable pub read_reply : Case → ParsedReply → Instant → Store → Option (ReplyOutcome × Store)
  unfolding enact_reply log top_confidence
  read_reply c r now s =
      let out = decide p r (date_of now) none in
      let s1 =
        log c.id now reply (if r.failed then AuditAction.parse_failed else parsed) out.rules_fired
          (top_confidence r.intents) s in
      elim (enact_reply c out now s1) [ none ↦ none | some s2 ↦ some (out, s2) ]

  unfoldable pub answer :
      Option Suppression → Case → ParsedReply → Instant → Store → Option (ReplyOutcome × Store)
  unfolding read_reply log
  answer none c r now s = read_reply c r now s
  answer (some standing) c r now s = some (
    barred standing,
    log c.id now reply not_acted_on (contact_suppressed standing.code ∷ []) none s,
  )

  unfoldable pub handle_reply : Case → ParsedReply → Instant → Store → Option (ReplyOutcome × Store)
  unfolding answer contact_suppression
  handle_reply c r now s = answer (contact_suppression c.id c.customer_ref s) c r now s
