-- ===== src/Taxonomy.antt =====
-- src/unhalted/core/taxonomy.py and src/unhalted/core/diagnose.py: classifying a failure by rules.
--
-- `reasons` stands for the data that scripts/build_taxonomy.py writes to
-- core/taxonomy_data.json: the number of documented causes of each reason, under each scope. A
-- confidence is rounded to hundredths as the source rounds it; the data counts at most two causes,
-- and below eight no quotient of a directness lies half-way.
pub mod Table
pub mod Caution
pub mod Ignorance
use unhalted.Prelude.{
  ℕ, ◌+◌, ◌*◌, ◌/◌, Bool, true, false, not, ◌&&◌, ◌||◌, String, str_eq, Option, none, some, List,
  [], ◌∷◌, first, max, ◌==◌, if◌then◌else◌,
}
use unhalted.Policy.{Policy}
use unhalted.Models.{
  DiagnosisClass, Diagnosis, DiagnosisSource, rules_table, FailureSignal, is_given,
}
use unhalted.Taxonomy.Table.{Rule, Key, any, direct, table}

-- the `causes` of each reason, under each scope
abbrev pub Reasons : Type 0
Reasons = List (String × List (String × ℕ))

-- `reasons.get(scope, {}).get(reason)`
unfoldable pub causes_in : String → List (String × ℕ) → Option ℕ
causes_in reason [] = none
causes_in reason ((r, n) ∷ rest) = if str_eq r reason then some n else causes_in reason rest

unfoldable pub causes_under : String → String → Reasons → Option ℕ
unfolding causes_in
causes_under scope reason [] = none
causes_under scope reason ((s, rs) ∷ rest) =
    if str_eq s scope then causes_in reason rs else causes_under scope reason rest

abbrev pub or_else : Option ℕ → Option ℕ → Option ℕ
or_else none o = o
or_else (some n) o = some n

abbrev pub larger : Option ℕ → Option ℕ → Option ℕ
larger none o = o
larger (some n) none = some n
larger (some n) (some m) = some (max n m)

-- the worst count across the methods that document the reason
unfoldable pub worst_count : String → Reasons → Option ℕ
unfolding causes_in
worst_count reason [] = none
worst_count reason ((s, rs) ∷ rest) =
    let others = worst_count reason rest in
    if str_eq s "any" then others else larger (causes_in reason rs) others

abbrev pub text_or : String → Option String → String
text_or other none = other
text_or other (some t) = if str_eq t "" then other else t

abbrev pub count_or_one : Option ℕ → ℕ
count_or_one none = 1
count_or_one (some n) = n

unfoldable pub documented_causes : Reasons → Option String → String → ℕ
unfolding causes_under worst_count
documented_causes reasons method reason = count_or_one (
    or_else (causes_under (text_or "" method) reason reasons)
      (or_else (worst_count reason reasons) (causes_under "any" reason reasons)))

abbrev pub same_key : Key → Key × Rule → Bool
same_key k row =
    str_eq row.0.method k.method
    && (str_eq row.0.reason k.reason && (str_eq row.0.source k.source && str_eq row.0.step k.step))

-- `TABLE.get(key)`
unfoldable pub rule_at : Key → Option Rule
rule_at k = elim (first (same_key k) table) [ none ↦ none | some row ↦ some (row.1) ]

-- `Match`; its key is empty where nothing matched
pub record Match : Type 0 where
  pub rule : Rule
  pub key : Option Key
  pub confidence : ℕ

-- `UNMATCHED` and `MERCHANT_FAULT` have the same class and directness
abbrev pub held_rule : Rule
held_rule = record { klass = DiagnosisClass.unknown; directness = 0 }

abbrev pub unmatched : Match
unmatched = record { rule = held_rule; key = none; confidence = 0 }

-- `round(cap * rule.directness, 2)` with `cap = 1 / n`, in millionths
unfoldable pub confidence_of : ℕ → ℕ → ℕ
confidence_of directness n = (2 * directness + n) / (2 * n) * 10000

-- the candidates, most specific first
unfoldable pub candidates : Option String → String → Option String → Option String → List Key
candidates method reason source step =
    let m = text_or any method in
    let s = text_or any source in
    let t = text_or any step in
    record { method = m; reason = reason; source = s; step = t }
    ∷ record { method = m; reason = reason; source = s; step = any }
    ∷ record { method = any; reason = reason; source = s; step = t }
    ∷ record { method = any; reason = reason; source = s; step = any }
    ∷ record { method = any; reason = reason; source = any; step = any }
    ∷ []

-- the first candidate that the table has
unfoldable pub first_rule : List Key → Option (Key × Rule)
unfolding rule_at
first_rule [] = none
first_rule (k ∷ ks) = elim (rule_at k) [ none ↦ first_rule ks | some r ↦ some (k, r) ]

unfoldable pub matched : ℕ → Option (Key × Rule) → Match
unfolding confidence_of
matched n none = unmatched
matched n (some (k, r)) = record {
  rule = r;
  key = some k;
  confidence = confidence_of r.directness (if n == 1 || not (str_eq k.source any) then 1 else n);
}

-- `source in MERCHANT_SOURCES`
abbrev pub is_merchant : Option String → Bool
is_merchant none = false
is_merchant (some s) = str_eq s "business"

unfoldable pub lookup_reason :
    Reasons → Option String → String → Option String → Option String → Match
unfolding matched first_rule candidates documented_causes
lookup_reason reasons method reason source step =
    if is_merchant source
    then record {
      rule = held_rule;
      key =
          some (record { method = any; reason = reason; source = text_or any source; step = any });
      confidence = 0;
    }
    else matched (documented_causes reasons method reason)
        (first_rule (candidates method reason source step))

unfoldable pub lookup :
    Reasons → Option String → Option String → Option String → Option String → Match
unfolding lookup_reason
lookup reasons method none source step = unmatched
lookup reasons method (some reason) source step =
    if str_eq reason "" then unmatched else lookup_reason reasons method reason source step

-- `diagnose`
unfoldable pub diagnose : Reasons → FailureSignal → Diagnosis
diagnose reasons signal =
    let m =
      lookup reasons signal.method signal.error_reason signal.error_source signal.error_step in
    record { klass = m.rule.klass; confidence = m.confidence; source = rules_table }

-- `UNSETTLED_REASONS`
abbrev pub is_unsettled : Option String → Bool
is_unsettled none = false
is_unsettled (some r) =
    str_eq r "payment_timed_out"
    || (str_eq r "gateway_technical_error" || str_eq r "payment_collect_request_expired")

abbrev pub order_given : FailureSignal → Bool
order_given signal = elim signal.order_id [ none ↦ false | some o ↦ is_given o ]

-- `needs_verification(signal) is not None`
unfoldable pub needs_verification : FailureSignal → Bool
needs_verification signal = order_given signal && is_unsettled signal.error_reason
