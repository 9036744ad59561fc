-- ===== src/Replies.antt =====
-- src/unhalted/shell/replies.py: what a parsed reply may change.
pub mod Precedence
pub mod Money
use unhalted.Prelude.{
  Bool, true, false, ◌||◌, Option, none, some, List, [], ◌∷◌, ◌++◌, ltb, if◌then◌else◌,
}
use unhalted.Clock.{Day}
use unhalted.Policy.{Policy}
use unhalted.Models.{
  Intent, promise_to_pay, cancellation_request, service_complaint, channel_preference, Sentiment,
  distressed, ProposedDate, missing, malformed, spelled, ParsedReply, has, StopCode, RuleFired,
  stop_rule, precedence_dispute_over_promise, cancellation_requested, routed_to_support,
  promise_accepted, promise_without_usable_date, below_action_threshold,
  channel_preference_recorded, nothing_actionable,
}

-- `DateCheck`
pub record DateCheck : Type 0 where
  pub value : Option Day
  pub accepted : Bool

abbrev refused_date : DateCheck
refused_date = record { value = none; accepted = false }

-- `mandate_expires and value > mandate_expires`
abbrev after_expiry : Day → Option Day → Bool
after_expiry value none = false
after_expiry value (some expires) = ltb expires value

unfoldable pub validate_date : ProposedDate → Day → Option Day → DateCheck
validate_date missing today expires = refused_date
validate_date malformed today expires = refused_date
validate_date (spelled value) today expires =
    if ltb value today
    then refused_date
    else if after_expiry value expires
    then refused_date
    else record { value = some value; accepted = true }

-- `ReplyOutcome`; `channel_refused` is "voice" or nothing
pub record ReplyOutcome : Type 0 where
  pub stop_code : Option StopCode
  pub realign_to : Option Day
  pub suspend_nudges_until : Option Day
  pub route_to_support : Bool
  pub channel_refused : Bool
  pub needs_human : Bool
  pub rules_fired : List RuleFired

-- `ReplyOutcome()`
abbrev pub no_change : ReplyOutcome
no_change = record {
  stop_code = none;
  realign_to = none;
  suspend_nudges_until = none;
  route_to_support = false;
  channel_refused = false;
  needs_human = false;
  rules_fired = [];
}

-- `sentiment is Sentiment.DISTRESS`
abbrev pub in_distress : Sentiment → Bool
in_distress distressed = true
in_distress _ = false

abbrev stopped : StopCode → Bool → List RuleFired → ReplyOutcome
stopped code human rules = record no_change {
  stop_code = some code;
  needs_human = human;
  rules_fired = stop_rule code ∷ rules;
}

-- `check.accepted and check.value`
promise_outcome : DateCheck → ReplyOutcome
promise_outcome check = elim check.value [
  | none ↦ record no_change { rules_fired = promise_without_usable_date ∷ [] }
  | some value ↦
      if check.accepted
      then record no_change {
        realign_to = some value;
        suspend_nudges_until = some value;
        rules_fired = promise_accepted ∷ [];
      }
      else record no_change { rules_fired = promise_without_usable_date ∷ [] }
]

-- the last step: a reply that fired nothing goes to a person
if_nothing_fired : ReplyOutcome → ReplyOutcome
if_nothing_fired out = elim out.rules_fired [
  | [] ↦ record out { needs_human = true; rules_fired = nothing_actionable ∷ [] }
  | _ ∷ _ ↦ out
]

module _ (p : Policy) where
  -- 6. a promise
  promise_step : ParsedReply → Day → Option Day → ReplyOutcome
  unfolding promise_outcome
  promise_step r today expires =
      if has r promise_to_pay p.reply_acts_on_money
      then promise_outcome (validate_date r.payment_date_raw today expires)
      else if has r promise_to_pay 0
      then record no_change { rules_fired = below_action_threshold ∷ [] }
      else no_change

  -- 7. a channel preference, added to what the promise did
  channel_step : ParsedReply → ReplyOutcome → ReplyOutcome
  channel_step r out =
      if has r channel_preference p.reply_protective
      then record out {
        channel_refused = true;
        rules_fired = out.rules_fired ++ channel_preference_recorded ∷ [];
      }
      else out

  -- 3. to 5.: opt-out, cancellation, complaint
  opt_out_outcome : ParsedReply → ReplyOutcome
  opt_out_outcome r =
      if has r cancellation_request p.reply_cancellation
      then stopped StopCode.opt_out true (cancellation_requested ∷ [])
      else stopped StopCode.opt_out false []

  dispute_outcome : ParsedReply → ReplyOutcome
  dispute_outcome r =
      stopped StopCode.dispute true
        (if has r promise_to_pay 0 then precedence_dispute_over_promise ∷ [] else [])

  unfoldable pub decide : ParsedReply → Day → Option Day → ReplyOutcome
  unfolding promise_step channel_step opt_out_outcome dispute_outcome if_nothing_fired
  decide r today expires =
      if r.failed
      then record no_change { needs_human = true; rules_fired = RuleFired.parse_failed ∷ [] }
      else if has r Intent.distress p.reply_protective || in_distress r.sentiment
      then stopped StopCode.distress true []
      else if has r Intent.dispute p.reply_protective
      then dispute_outcome r
      else if has r Intent.opt_out p.reply_protective
      then opt_out_outcome r
      else if has r cancellation_request p.reply_cancellation
      then record no_change { needs_human = true; rules_fired = cancellation_requested ∷ [] }
      else if has r service_complaint p.reply_protective
      then record no_change { route_to_support = true; rules_fired = routed_to_support ∷ [] }
      else if_nothing_fired (channel_step r (promise_step r today expires))
