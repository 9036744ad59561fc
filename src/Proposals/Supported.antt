-- ===== src/Proposals/Supported.antt =====
-- `propose` of src/unhalted/core/taxonomy_proposal.py: no rule is proposed that the documentation
-- does not say.
use unhalted.Prelude.{
  ℕ, ◌≡◌, refl, subst, Bool, true, false, String, Option, none, some, Option-cases, Bool-cases, inl,
  inr, arith,
}
use unhalted.Models.{DiagnosisClass}
use unhalted.Language.Json.{
  Json, null, flag, number, int, text, arr, obj, Fields, get, get_true, get_text, Outside,
}
use unhalted.Language.Evidence.{quotes_the_source}
use unhalted.Language.Calls.{Answer, FailureReason, call_model}
use unhalted.Language.Fence.{extract}
use unhalted.Proposals.TaxonomyRule.{
  Refusal, no_answer, no_json, no_supporting_quote, or_default, RuleProposal, refused, classed,
  class_in, read_rule, rule_of, propose_rule,
}

module _ (o : Outside) (doc_text : String) where
  -- a rule that is proposed has a class and a quote that stands in the text; one that is not
  -- proposed has neither class nor directness
  abbrev pub IsSupported : RuleProposal → Type 0
  IsSupported r =
      (r.proposable ≡ true
        → (k : DiagnosisClass) × (r.klass ≡ some k)
          × (quotes_the_source o r.quote doc_text ≡ true)
          × (r.failure_reason ≡ none))
      × (r.proposable ≡ false → (r.klass ≡ none) × (r.directness ≡ none) × (r.quote ≡ ""))

  classed-IsSupported :
      (cost : ℕ) (d : Fields) (k : Option DiagnosisClass)
      → quotes_the_source o (get_text o "quote" d) doc_text ≡ true
      → IsSupported (classed o doc_text cost d k)
  unfolding classed
  classed-IsSupported cost d none said = (λ yes_it_is. absurd (cc), λ _. (refl, refl, refl))
  classed-IsSupported cost d (some k) said = (λ _. (k, refl, said, refl), λ not_it. absurd (cc))

  no_rule :
      (rationale : String) (cost : ℕ) (why : Option Refusal)
      → IsSupported (record {
        proposable = false;
        klass = none;
        directness = none;
        quote = "";
        rationale = rationale;
        cost = cost;
        failure_reason = why;
      })
  no_rule rationale cost why = (λ yes_it_is. absurd (cc), λ _. (refl, refl, refl))

  read_rule-IsSupported :
      (cost : ℕ) (v : Json) (r : RuleProposal)
      → read_rule o doc_text cost v ≡ some r
      → IsSupported r
  unfolding read_rule
  read_rule-IsSupported cost (obj d) r e = elim (Option-cases (get_true "proposable" d)) [
    | inl not_it ↦
        let rationale = or_default "no cause stated in the text" (get_text o "rationale" d) in
        let quiet : RuleProposal = record {
          proposable = false;
          klass = none;
          directness = none;
          quote = "";
          rationale = rationale;
          cost = cost;
          failure_reason = none;
        } in
        let same : quiet ≡ r = ground (arith, not_it, e) in
        subst IsSupported same (no_rule rationale cost none)
    | inr (v, it) ↦ elim (Bool-cases (quotes_the_source o (get_text o "quote" d) doc_text)) [
      | inl said ↦
          let same : classed o doc_text cost d (class_in (get "klass" d)) ≡ r =
            ground (arith, it, said, e) in
          subst IsSupported same (classed-IsSupported cost d (class_in (get "klass" d)) said)
      | inr unsaid ↦
          let same : refused no_supporting_quote cost ≡ r = ground (arith, it, unsaid, e) in
          subst IsSupported same (no_rule "" cost (some no_supporting_quote))
    ]
  ]
  read_rule-IsSupported cost null r e = absurd (cc)
  read_rule-IsSupported cost (flag b) r e = absurd (cc)
  read_rule-IsSupported cost (number n) r e = absurd (cc)
  read_rule-IsSupported cost (int n) r e = absurd (cc)
  read_rule-IsSupported cost (text t) r e = absurd (cc)
  read_rule-IsSupported cost (arr xs) r e = absurd (cc)

  rule_of-IsSupported :
      (cost : ℕ) (why : Option FailureReason) (content : Option String) (r : RuleProposal)
      → rule_of o doc_text cost why content ≡ some r
      → IsSupported r
  rule_of-IsSupported cost why none r e =
      let same : refused (no_answer why) cost ≡ r = cc in
      subst IsSupported same (no_rule "" cost (some (no_answer why)))
  rule_of-IsSupported cost why (some content) r e = elim (Option-cases (extract o content)) [
    | inl unread ↦
        let same : refused no_json cost ≡ r = ground (arith, unread, e) in
        subst IsSupported same (no_rule "" cost (some no_json))
    | inr (v, at) ↦
        let read : read_rule o doc_text cost v ≡ some r = ground (arith, at, e) in
        read_rule-IsSupported cost v r read
  ]

  -- A rule of the taxonomy is proposed only with a class of the closed set and a quote that stands
  -- in the documentation. What is not proposed carries no class, no directness and no quote.
  pub propose_rule-IsSupported :
      (has_key : Bool) (answers : ℕ → Answer) (r : RuleProposal)
      → propose_rule o doc_text has_key answers ≡ some r
      → IsSupported r
  unfolding propose_rule
  propose_rule-IsSupported has_key answers r e =
      let call = call_model has_key answers in
      rule_of-IsSupported call.cost call.failure_reason call.content r e
