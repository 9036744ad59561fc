-- ===== src/Proposals/TaxonomyRule.antt =====
-- `propose` of src/unhalted/core/taxonomy_proposal.py. The names of the failure, which a proposal
-- repeats, are left out. An exception that leaves the function is none.
use unhalted.Prelude.{ℕ, Bool, true, false, not, String, str_eq, Option, none, some, if◌then◌else◌}
use unhalted.Models.{DiagnosisClass}
use unhalted.Language.Json.{Json, text, obj, Fields, get, get_true, get_text, Outside}
use unhalted.Language.Evidence.{quotes_the_source}
use unhalted.Language.Calls.{Answer, FailureReason, call_model}
use unhalted.Language.Fence.{extract}

-- `DiagnosisClass(word)`; none is its error
unfoldable pub class_named : String → Option DiagnosisClass
class_named word =
    if str_eq word "recoverable-technical"
    then some DiagnosisClass.recoverable_technical
    else if str_eq word "recoverable-balance"
    then some DiagnosisClass.recoverable_balance
    else if str_eq word "notification-gap"
    then some DiagnosisClass.notification_gap
    else if str_eq word "mandate-state-broken"
    then some DiagnosisClass.mandate_state_broken
    else if str_eq word "customer-intent-revoked"
    then some DiagnosisClass.customer_intent_revoked
    else if str_eq word "unknown"
    then some DiagnosisClass.unknown
    else none

abbrev pub class_in : Option Json → Option DiagnosisClass
class_in (some (text word)) = class_named word
class_in _ = none

abbrev pub says : String → Option Json → Bool
says word (some (text s)) = str_eq s word
says word _ = false

pub data Refusal : Type 0 where
  no_answer : Option FailureReason → Refusal
  no_json no_supporting_quote unknown_class : Refusal

-- `RuleProposal`; a directness is a number of hundredths
pub record RuleProposal : Type 0 where
  pub proposable : Bool
  pub klass : Option DiagnosisClass
  pub directness : Option ℕ
  pub quote : String
  pub rationale : String
  pub cost : ℕ
  pub failure_reason : Option Refusal

-- `_refused`
abbrev pub refused : Refusal → ℕ → RuleProposal
refused why cost = record {
  proposable = false;
  klass = none;
  directness = none;
  quote = "";
  rationale = "";
  cost = cost;
  failure_reason = some why;
}

abbrev pub or_default : String → String → String
or_default other s = if str_eq s "" then other else s

module _ (o : Outside) (doc_text : String) where
  -- the class is looked up when the quote has been found
  unfoldable pub classed : ℕ → Fields → Option DiagnosisClass → RuleProposal
  unfolding get_text get
  classed cost d none = refused unknown_class cost
  classed cost d (some klass) = record {
    proposable = true;
    klass = some klass;
    directness = some (if says "direct" (get "directness" d) then 100 else 80);
    quote = get_text o "quote" d;
    rationale = get_text o "rationale" d;
    cost = cost;
    failure_reason = none;
  }

  unfoldable pub read_rule : ℕ → Json → Option RuleProposal
  unfolding classed get_true class_named
  read_rule cost (obj d) = elim (get_true "proposable" d) [
    | none ↦ some (record {
      proposable = false;
      klass = none;
      directness = none;
      quote = "";
      rationale = or_default "no cause stated in the text" (get_text o "rationale" d);
      cost = cost;
      failure_reason = none;
    })
    | some yes_it_is ↦
        if not (quotes_the_source o (get_text o "quote" d) doc_text)
        then some (refused no_supporting_quote cost)
        else some (classed cost d (class_in (get "klass" d)))
  ]
  read_rule cost _ = none

  abbrev pub rule_or_refuse : ℕ → Option Json → Option RuleProposal
  rule_or_refuse cost none = some (refused no_json cost)
  rule_or_refuse cost (some v) = read_rule cost v

  abbrev pub rule_of : ℕ → Option FailureReason → Option String → Option RuleProposal
  rule_of cost why none = some (refused (no_answer why) cost)
  rule_of cost why (some content) = rule_or_refuse cost (extract o content)

  unfoldable pub propose_rule : Bool → (ℕ → Answer) → Option RuleProposal
  unfolding read_rule
  propose_rule has_key answers =
      let call = call_model has_key answers in rule_of call.cost call.failure_reason call.content
