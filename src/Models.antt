-- ===== src/Models.antt =====
-- src/unhalted/models.py: the values that move through the pipeline.
--
-- A text that the program only compares, or tests for being empty, is a `Text`: a number for each
-- text, 0 for the empty one. A confidence is a number of millionths, an amount a number of paise.
mod Vocabulary
pub use Vocabulary.*
use unhalted.Prelude.{
  ℕ, Bool, true, false, ◌&&◌, String, Option, none, some, List, [], ◌∷◌, leb, max, any,
  if◌then◌else◌,
}
use unhalted.Clock.{Instant, Day}
use unhalted.Policy.{Policy}

-- `currency`, `error_code`, `token_id`, `source` and `raw` are carried and never read by a rule
-- that is modelled here.
pub record FailureSignal : Type 0 where
  pub payment_id : Text
  pub order_id : Option Text
  pub customer_ref : Text
  pub amount_paise : ℕ
  pub method : Option String
  pub error_reason : Option String
  pub error_source : Option String
  pub error_step : Option String
  pub occurred_at : Instant
  pub mandate_max_paise : Option ℕ

pub record Diagnosis : Type 0 where
  pub klass : DiagnosisClass
  pub confidence : ℕ
  pub source : DiagnosisSource

-- `Diagnosis.authority`
unfoldable pub authority : Policy → Diagnosis → Authority
authority p d =
    if leb p.confidence_auto_execute d.confidence
    then auto_execute
    else if leb p.confidence_sampled_qa d.confidence
    then auto_execute_sampled_qa
    else hold_for_human

pub record Case : Type 0 where
  pub id : Text
  pub customer_ref : Text
  pub amount_paise : ℕ
  pub state : CaseState
  pub opened_at : Instant
  pub retry_count : ℕ
  pub nudges_suspended_until : Option Day

-- The free texts of a record (`inputs`, `outcome`, the versions) repeat what the program decided
-- and are not modelled.
pub record AuditRecord : Type 0 where
  pub case_id : Text
  pub at : Instant
  pub decision_type : DecisionType
  pub action : AuditAction
  pub rules_fired : List RuleFired
  pub confidence : Option ℕ

pub record DetectedIntent : Type 0 where
  pub type_of : Intent
  pub confidence : ℕ
  pub evidence : String

-- `payment_date_raw` is the model's text; what `date.fromisoformat` makes of it is `ProposedDate`.
pub record ParsedReply : Type 0 where
  pub intents : List DetectedIntent
  pub payment_date_raw : ProposedDate
  pub sentiment : Sentiment
  pub failed : Bool

-- `max((i.confidence for i in intents if i.type is intent), default=0.0)`
unfoldable pub confidence_among : Intent → List DetectedIntent → ℕ
confidence_among i [] = 0
confidence_among i (d ∷ ds) =
    let rest = confidence_among i ds in
    if same_intent d.type_of i then max d.confidence rest else rest

unfoldable pub confidence_for : ParsedReply → Intent → ℕ
unfolding confidence_among
confidence_for r i = confidence_among i r.intents

-- `ParsedReply.has`, with `at_least`
unfoldable pub has : ParsedReply → Intent → ℕ → Bool
unfolding confidence_for
has r i at_least = leb at_least (confidence_for r i) && any (λ d. same_intent d.type_of i) r.intents
