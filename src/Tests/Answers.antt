-- ===== src/Tests/Answers.antt =====
-- What the program makes of answers of the language model.
use unhalted.Prelude.{
  ℕ, ◌<◌, ◌≡◌, ◌↔◌, ◌++◌, refl, true, false, String, none, some, [], ◌∷◌, All, ◌==◌, if◌then◌else◌,
}
use unhalted.Prelude.Texts.{codes}
use unhalted.Policy.{policy_yaml}
use unhalted.Models.{DiagnosisClass, ParsedReply, ProposedDate, missing, neutral, promise_to_pay}
use unhalted.Replies.{decide}
use unhalted.Language.Json.{Json, text, int, flag, arr, obj, nil, cons, end, field, Outside}
use unhalted.Language.Evidence.{quotes_the_source}
use unhalted.Language.Calls.{Answer, transport_error, answered, call_model}
use unhalted.Language.Attempts.{settles, EndsAt, bill, call_model-first}
use unhalted.Language.Fence.{newline, fence, strip, unfence, extract, answer_of}
use unhalted.Language.Fenced.{unfence-fenced}
use unhalted.Language.Reply.{parse}
use unhalted.Language.Reading.{IsQuoted, is_readable, parse-IsQuoted, parse_raises}
use unhalted.Proposals.PolicyChange.{not_a_field, Proposal, propose}
use unhalted.Proposals.Grounded.{IsHonest, propose-IsHonest}
use unhalted.Proposals.TaxonomyRule.{RuleProposal, propose_rule}
use unhalted.Proposals.Supported.{IsSupported, propose_rule-IsSupported}
use unhalted.Tests.Fixtures.{today}

-- an outside whose `json.loads` gives one value for every text
abbrev outside : Json → Outside
outside v = record {
  repr = λ _. "...";
  fold = λ c. c ∷ [];
  loads = λ _. some v;
  float_of = λ _. none;
}

abbrev no_date : Json → ProposedDate
no_date _ = missing

-- the first request fails, the second has an answer
abbrev second_time : ℕ → Answer
second_time n = if n == 0 then transport_error else answered 7 false (some "{}")

call_model-first_example :
    ((k : ℕ)
      → k < 3
      → ((i : ℕ) → i < k → settles (second_time i) ≡ false)
      → settles (second_time k) ≡ true
      → EndsAt second_time k (call_model true second_time))
    × (((i : ℕ) → i < 3 → settles (second_time i) ≡ false)
        → ((call_model true second_time).attempts ≡ 3)
          × ((call_model true second_time).content ≡ none)
          × ((call_model true second_time).cost ≡ bill second_time 3))
call_model-first_example = call_model-first second_time

unfence-fenced_example :
    (unfence (fence ++ (codes "json" ++ newline ∷ (codes "{}" ++ newline ∷ fence)))
      ≡ strip (codes "{}"))
    × (unfence (fence ++ (codes "json" ++ fence)) ≡ strip (fence ++ codes "json"))
unfence-fenced_example =
    unfence-fenced (codes "json") (codes "{}") (refl, (refl, (refl, (refl, tt))))

abbrev said : Json
said = obj (
    field "intents"
      (arr (
        cons (obj (field "type" (text "promise-to-pay") (field "evidence" (text "will pay") end))) (
          cons (obj (field "type" (text "promise-to-pay") (field "evidence" (text "a lie") end)))
            nil)))
      end)

abbrev a_reply : String
a_reply = "I will pay soon"

abbrev read_reply : ParsedReply
read_reply = record {
  intents = record { type_of = promise_to_pay; confidence = 0; evidence = "will pay" } ∷ [];
  payment_date_raw = missing;
  sentiment = neutral;
  failed = false;
}

parse-IsQuoted_example :
    All (IsQuoted (outside said) a_reply) read_reply.intents
    × (read_reply.failed ≡ true
        → (read_reply.intents ≡ [])
          × ((decide policy_yaml read_reply today none).needs_human ≡ true))
unfolding parse call_model quotes_the_source extract
parse-IsQuoted_example =
    parse-IsQuoted (outside said) no_date policy_yaml true second_time a_reply read_reply today none
      refl

-- an answer that is a list and no dictionary
abbrev a_list : Json
a_list = arr nil

parse_raises_example :
    (answer_of (outside a_list) (call_model true second_time).content ≡ none
      → (r : ParsedReply) × (parse (outside a_list) no_date true second_time a_reply ≡ some r)
        × (r.failed ≡ true)
        × (r.intents ≡ []))
    × ((v : Json)
        → answer_of (outside a_list) (call_model true second_time).content ≡ some v
        → (parse (outside a_list) no_date true second_time a_reply ≡ none)
          ↔ (is_readable (outside a_list) a_reply v ≡ false))
parse_raises_example = parse_raises (outside a_list) no_date true second_time a_reply

-- a change that the circular states, and one of a field that may not change
abbrev circular_answer : Json
circular_answer = obj (
    field "changes"
      (arr (
        cons
          (obj (
            field "field" (text "retries.cap")
              (field "proposed_value" (int 4) (field "quote" (text "at most four") end))))
          (cons (obj (field "field" (text "confidence.auto_execute") end)) nil)))
      end)

abbrev circular : String
circular = "A mandate is retried at most four times."

abbrev stated : Proposal
stated = record {
  changes =
      record {
        name = "retries.cap";
        current = int 3;
        value = some (int 4);
        quote = "at most four";
        reasoning = "";
      }
      ∷ [];
  unclear = [];
  dropped = not_a_field "confidence.auto_execute" ∷ [];
  cost = 7;
  failed = false;
  failure_reason = none;
}

propose-IsHonest_example :
    IsHonest
      (outside circular_answer)
      policy_yaml
      circular
      (answer_of (outside circular_answer) (call_model true second_time).content)
      stated
unfolding propose call_model quotes_the_source extract
propose-IsHonest_example =
    propose-IsHonest (outside circular_answer) policy_yaml circular true second_time stated refl

abbrev rule_answer : Json
rule_answer = obj (
    field "proposable" (flag true) (
      field "klass" (text "mandate-state-broken")
        (field "directness" (text "direct") (field "quote" (text "has expired") end))))

abbrev documentation : String
documentation = "The card has expired."

abbrev expired_rule : RuleProposal
expired_rule = record {
  proposable = true;
  klass = some DiagnosisClass.mandate_state_broken;
  directness = some 100;
  quote = "has expired";
  rationale = "";
  cost = 7;
  failure_reason = none;
}

propose_rule-IsSupported_example : IsSupported (outside rule_answer) documentation expired_rule
unfolding propose_rule call_model quotes_the_source extract
propose_rule-IsSupported_example =
    propose_rule-IsSupported (outside rule_answer) documentation true second_time expired_rule refl
