-- ===== src/Taxonomy/Caution.antt =====
-- `lookup` and `diagnose` on the failures that wait for a person: a merchant's fault, and an
-- ambiguity (src/unhalted/core/taxonomy.py).
use unhalted.Prelude.{
  ℕ, ◌≤◌, ◌<◌, ◌≡◌, true, String, str_eq, Option, none, some, List, ◌∷◌, [], arith, refl, All,
  first, first-All, subst, Option-cases, inl, inr,
}
use unhalted.Policy.{Policy}
use unhalted.Models.{DiagnosisClass, FailureSignal, authority, hold_for_human}
use unhalted.Taxonomy.Table.{Rule, Key, any, table}
use unhalted.Taxonomy.{
  Reasons, rule_at, same_key, is_merchant, documented_causes, confidence_of, candidates, first_rule,
  matched, lookup_reason, lookup, diagnose,
}

confidence_of-half : (d n : ℕ) → d ≤ 100 → 2 ≤ n → confidence_of d n ≤ 500000
unfolding confidence_of
confidence_of-half d n h k = grind arith

-- no rule of the table is more than direct
table-directness : All (λ row. row.1.directness ≤ 100) table
unfolding table
table-directness = ground arith

rule_at-directness : (k : Key) (r : Rule) → rule_at k ≡ some r → r.directness ≤ 100
unfolding rule_at
rule_at-directness k r e = elim (Option-cases (first (same_key k) table)) [
  | inl missing ↦ absurd (cc)
  | inr (row, at) ↦
      let d =
        first-All (λ (x : Key × Rule). x.1.directness ≤ 100) (same_key k) table row table-directness
          at in
      let same : row.1 ≡ r = ground arith in subst (λ (x : Rule). x.directness ≤ 100) same d
]

-- what is found among candidates that name no source names none
first_rule-source :
    (ks : List Key) (k : Key) (r : Rule)
    → All (λ x. str_eq x.source any ≡ true) ks
    → first_rule ks ≡ some (k, r)
    → (str_eq k.source any ≡ true) × (r.directness ≤ 100)
unfolding first_rule
first_rule-source [] k r a e = absurd (cc)
first_rule-source (x ∷ ks) k r a e = elim (Option-cases (rule_at x)) [
  | inl missing ↦ first_rule-source ks k r (a.1) (ground arith)
  | inr (s, at) ↦
      let same : (x, s) ≡ (k, r) = ground arith in
      subst (λ (y : Key × Rule). (str_eq y.0.source any ≡ true) × (y.1.directness ≤ 100)) same
        (a.0, rule_at-directness x s at)
]

module _ (p : Policy) (reasons : Reasons) where
  -- what a merchant's fault is looked up as
  lookup-merchant :
      (method reason source step : Option String)
      → is_merchant source ≡ true
      → ((lookup reasons method reason source step).rule.klass ≡ DiagnosisClass.unknown)
        × ((lookup reasons method reason source step).confidence ≡ 0)
  unfolding lookup
  lookup-merchant method none source step m = (refl, refl)
  lookup-merchant method (some reason) source step m = ground arith

  lookup-ambiguous :
      (method : Option String) (reason : String) (step : Option String)
      → 2 ≤ documented_causes reasons method reason
      → (lookup reasons method (some reason) none step).confidence ≤ 500000
  unfolding lookup lookup_reason matched candidates
  lookup-ambiguous method reason step n =
      let ks = candidates method reason none step in
      elim (Option-cases (first_rule ks)) [
        | inl missing ↦ ground (arith, missing)
        | inr ((k, r), at) ↦
            let d = first_rule-source ks k r (ground arith) at in
            let half =
              confidence_of-half r.directness (documented_causes reasons method reason) d.1 n in
            ground (arith, at, d, half, n)
      ]

  -- Where the policy's thresholds are positive and in order, a failure that Razorpay attributes to
  -- the business is diagnosed as unknown and held for a person, under every reason, method and
  -- step.
  merchant_fault_held :
      (signal : FailureSignal)
      → is_merchant signal.error_source ≡ true
      → 0 < p.confidence_sampled_qa
      → p.confidence_sampled_qa ≤ p.confidence_auto_execute
      → ((diagnose reasons signal).klass ≡ DiagnosisClass.unknown)
        × (authority p (diagnose reasons signal) ≡ hold_for_human)
  unfolding diagnose authority
  merchant_fault_held signal m q a =
      let held =
        lookup-merchant signal.method signal.error_reason signal.error_source signal.error_step m in
      (held.0, rw held.1 (ground arith))

  -- Where a failure gives a reason and no source, and the data counts at least two causes, the
  -- confidence is at most one half; a policy whose thresholds are in order and whose lower one is
  -- above one half holds the case for a person.
  pub ambiguous_held :
      (signal : FailureSignal) (reason : String)
      → signal.error_reason ≡ some reason
      → signal.error_source ≡ none
      → 2 ≤ documented_causes reasons signal.method reason
      → 500000 < p.confidence_sampled_qa
      → p.confidence_sampled_qa ≤ p.confidence_auto_execute
      → ((diagnose reasons signal).confidence ≤ 500000)
        × (authority p (diagnose reasons signal) ≡ hold_for_human)
  unfolding diagnose authority
  ambiguous_held signal reason r src n q a =
      let low = lookup-ambiguous signal.method reason signal.error_step n in
      rw (r, src) (low, ground arith)
