-- ===== src/Models/Vocabulary.antt =====
-- The closed sets of words: the enums of src/unhalted/models.py, the codes of
-- src/unhalted/shell/stops.py, the outcomes of shell/limits.py, the rungs of shell/ladder.py, and
-- the texts that `AuditRecord.action` and `AuditRecord.rules_fired` take.
use unhalted.Prelude.{ℕ, Bool, true, false, not, ◌==◌}
use unhalted.Clock.{Instant, Day}

abbrev pub Text : Type 0
Text = ℕ

-- `if text:`
abbrev pub is_given : Text → Bool
is_given t = not (t == 0)

pub data DiagnosisClass : Type 0 where
  recoverable_technical recoverable_balance notification_gap : DiagnosisClass
  mandate_state_broken customer_intent_revoked unknown : DiagnosisClass

pub data DiagnosisSource : Type 0 where
  rules_table model : DiagnosisSource

pub data Authority : Type 0 where
  auto_execute auto_execute_sampled_qa hold_for_human : Authority

pub data Intent : Type 0 where
  promise_to_pay dispute set_off_request opt_out cancellation_request : Intent
  service_complaint distress channel_preference unknown : Intent

-- `i.type is intent`
abbrev pub same_intent : Intent → Intent → Bool
same_intent promise_to_pay promise_to_pay = true
same_intent dispute dispute = true
same_intent set_off_request set_off_request = true
same_intent opt_out opt_out = true
same_intent cancellation_request cancellation_request = true
same_intent service_complaint service_complaint = true
same_intent distress distress = true
same_intent channel_preference channel_preference = true
same_intent Intent.unknown Intent.unknown = true
same_intent _ _ = false

pub data Sentiment : Type 0 where
  cooperative neutral frustrated distressed : Sentiment

pub data CaseState : Type 0 where
  open_case held_for_human recovered unrecovered closed_revoked closed_false_failure : CaseState

-- The text in `payment_date_raw`: absent or empty, no date, or the date that it spells.
pub data ProposedDate : Type 0 where
  missing malformed : ProposedDate
  spelled : Day → ProposedDate

-- The keys of `stops.RULES`.
pub data StopCode : Type 0 where
  revoked opt_out dispute distress retry_cap ladder_end : StopCode
  chargeback merchant_pause reg_hold : StopCode

pub data Rung : Type 0 where
  silent_retry nudge reauthorisation voice_call human_callback : Rung

pub data LimitOutcome : Type 0 where
  permitted would_fail needs_additional_auth exceeds_mandate : LimitOutcome

-- `pending_actions.kind`: the slugs of `ladder.SLUG`, and "retry"
pub data Kind : Type 0 where
  slug : Rung → Kind
  retry : Kind

-- `notify.NudgeVariant`
pub data NudgeVariant : Type 0 where
  standard ask_date exhausted : NudgeVariant

-- `pending_actions.state`; an executor's `Outcome.state` is one of these too
pub data ActionState : Type 0 where
  pending leased cancelled done failed no_adapter : ActionState

pub data DecisionType : Type 0 where
  ingest stop verification diagnosis escalation schedule reply execution : DecisionType
  recovery human_review : DecisionType

-- Which retry a record of the schedule is about: its text begins with "retry", "fallback retry",
-- "realignment" or "re-arm after review".
pub data RetryOccasion : Type 0 where
  on_failure as_fallback on_promise after_review : RetryOccasion

-- `AuditRecord.action`. Where the text names a time or a rung, so does the constructor.
pub data AuditAction : Type 0 where
  signal_already_known case_opened opened_under_stop check_before_deciding : AuditAction
  classified : DiagnosisClass → AuditAction
  hold_for_human held_for_a_human held_as_well_as_stopped no_intervention_applies : AuditAction
  ladder_terminated entering_at retries_spent_escalating_to : Rung → AuditAction
  ladder_exhausted not_acted_on parsed parse_failed : AuditAction
  refused_on_amount retry_refused : RetryOccasion → AuditAction
  retry_at : RetryOccasion → Instant → AuditAction
  stop_action : StopCode → AuditAction
  closed_as_false_failure confirmed_unpaid paid_via_recovery_link : AuditAction
  -- "{kind}: {state}"
  executed : Kind → ActionState → AuditAction

-- An entry of `rules_fired`.
pub data RuleFired : Type 0 where
  not_in_the_past window_violation : RuleFired
  stop_rule contact_suppressed : StopCode → RuleFired
  limit : LimitOutcome → RuleFired
  channel_refused free uneconomic_provable uneconomic_assumed ltv_justified economic : RuleFired
  parse_failed precedence_dispute_over_promise cancellation_requested : RuleFired
  routed_to_support promise_accepted promise_without_usable_date : RuleFired
  below_action_threshold channel_preference_recorded nothing_actionable : RuleFired
  verify_before_retry taxonomy confidence_below_threshold no_ladder no_signal_on_file : RuleFired
  awaiting_reply ladder_end escalated_after_cap held_for_human : RuleFired
  verification_unavailable false_failure verified_unpaid amount_refused runner : RuleFired
