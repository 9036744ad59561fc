-- ===== src/Taxonomy/Ignorance.antt =====
-- `documented_causes` and `lookup` of src/unhalted/core/taxonomy.py without a method.
use unhalted.Prelude.{
  ℕ, zero, suc, ◌+◌, ◌*◌, ◌/◌, ◌≤◌, ◌≡◌, refl, Bool, true, false, String, str_eq, Option, none,
  some, List, [], ◌∷◌, arith, All, leb, Option-cases, Bool-cases, inl, inr, first, ◌∙◌, sym, subst,
}
use native.Mathlib.Nat.{div-mul-le_self, le-div_iff_mul-le}
use text.Mathlib.TextEquality.{eq_iff}
use unhalted.Taxonomy.Table.{Rule, Key, any, table}
use unhalted.Taxonomy.{
  Reasons, causes_under, worst_count, documented_causes, same_key, rule_at, is_merchant, text_or,
  confidence_of, candidates, first_rule, matched, lookup_reason, lookup,
}

shrink : (q d n m : ℕ) → q * (2 * m) ≤ 2 * d + m → n ≤ m → q * (2 * n) ≤ 2 * d + n
shrink zero d n m h k = omega arith
shrink (suc q) d n m h k = let le : q * n ≤ q * m = grind arith in grind arith

-- the quotient of the confidence shrinks as the count grows
quotient_antitone : (d n m : ℕ) → 1 ≤ n → n ≤ m → (2 * d + m) / (2 * m) ≤ (2 * d + n) / (2 * n)
quotient_antitone d n m h k =
    let q = (2 * d + m) / (2 * m) in
    let below : q * (2 * m) ≤ 2 * d + m = div-mul-le_self (2 * d + m) (2 * m) in
    (le-div_iff_mul-le (omega arith)).1 (shrink q d n m below k)

confidence_of_antitone : (d n m : ℕ) → 1 ≤ n → n ≤ m → confidence_of d m ≤ confidence_of d n
unfolding confidence_of
confidence_of_antitone d n m h k = omega (arith, quotient_antitone d n m h k)

-- the count is there, and at least so large
abbrev reaches : ℕ → Option ℕ → Bool
reaches n none = false
reaches n (some w) = leb n w

worst_count-reaches :
    (reason scope : String) (reasons : Reasons) (n : ℕ)
    → str_eq scope "any" ≡ false
    → causes_under scope reason reasons ≡ some n
    → reaches n (worst_count reason reasons) ≡ true
unfolding causes_under worst_count
worst_count-reaches reason scope [] n other e = absurd (cc)
worst_count-reaches reason scope ((s, rs) ∷ rest) n other e = elim (Bool-cases (str_eq s scope)) [
  | inl here ↦
      let same : s ≡ scope = (eq_iff s scope).0 here in
      let not_any : str_eq s "any" ≡ false =
        subst (λ (t : String). str_eq t "any" ≡ false) (sym same) other in
      ground (arith, here, not_any, e)
  | inr on ↦
      let further = worst_count-reaches reason scope rest n other (ground (arith, on, e)) in
      ground (arith, further)
]

-- the counts of a method that is not "any", and of no method
documented_causes-none :
    (reasons : Reasons) (m reason : String)
    → str_eq m "any" ≡ false
    → causes_under "" reason reasons ≡ none
    → documented_causes reasons (some m) reason ≤ documented_causes reasons none reason
unfolding documented_causes
documented_causes-none reasons m reason other no_scope = elim (Bool-cases (str_eq m "")) [
  | inl empty ↦ ground (arith, empty)
  | inr given ↦ elim (Option-cases (causes_under m reason reasons)) [
    | inl missing ↦ ground (arith, given, missing, no_scope)
    | inr (n, at) ↦
        let worst = worst_count-reaches reason m reasons n other at in
        ground (arith, given, at, no_scope, worst)
  ]
]

-- every rule of the table is for any method
table-any : All (λ row. row.0.method ≡ any) table
unfolding table
table-any = ground arith

rule_at-miss :
    (k : Key) (rows : List (Key × Rule))
    → All (λ row. row.0.method ≡ any) rows
    → str_eq any k.method ≡ false
    → first (same_key k) rows ≡ none
rule_at-miss k [] all h = refl
rule_at-miss k (row ∷ rows) all h =
    let miss : str_eq row.0.method k.method ≡ false =
      subst (λ (t : String). str_eq t k.method ≡ false) (sym all.0) h in
    ground (arith, miss, rule_at-miss k rows all.1 h)

rule_at-none : (k : Key) → str_eq any k.method ≡ false → rule_at k ≡ none
unfolding rule_at
rule_at-none k h = rw (rule_at, rule_at-miss k table table-any h) refl

first_rule-skip : (k : Key) (ks : List Key) → rule_at k ≡ none → first_rule (k ∷ ks) ≡ first_rule ks
unfolding first_rule
first_rule-skip k ks e = ground (arith, e)

-- a candidate that missed misses again
first_rule-repeat :
    (a b c : Key) → first_rule (a ∷ b ∷ a ∷ b ∷ c ∷ []) ≡ first_rule (a ∷ b ∷ c ∷ [])
unfolding first_rule
first_rule-repeat a b c = ground arith

-- a method changes no rule
first_rule-method :
    (m reason : String) (source step : Option String)
    → str_eq any m ≡ false
    → str_eq m "" ≡ false
    → first_rule (candidates (some m) reason source step)
      ≡ first_rule (candidates none reason source step)
unfolding candidates
first_rule-method m reason source step h given =
    let s = text_or any source in
    let t = text_or any step in
    let own : Key = record { method = m; reason = reason; source = s; step = t } in
    let own' : Key = record { method = m; reason = reason; source = s; step = any } in
    let a : Key = record { method = any; reason = reason; source = s; step = t } in
    let b : Key = record { method = any; reason = reason; source = s; step = any } in
    let c : Key = record { method = any; reason = reason; source = any; step = any } in
    rw given (
      first_rule-skip own (own' ∷ a ∷ b ∷ c ∷ []) (rule_at-none own h)
      ∙ first_rule-skip own' (a ∷ b ∷ c ∷ []) (rule_at-none own' h)
      ∙ sym (first_rule-repeat a b c))

-- the larger count has the lower confidence
matched-antitone :
    (n m : ℕ) (found : Option (Key × Rule))
    → 1 ≤ n
    → n ≤ m
    → (matched m found).confidence ≤ (matched n found).confidence
unfolding matched
matched-antitone n m none h k = omega arith
matched-antitone n m (some (key, r)) h k =
    let down = confidence_of_antitone r.directness n m h k in
    let one = confidence_of_antitone r.directness 1 m (omega arith) (omega arith) in
    elim (Bool-cases (str_eq key.source any)) [
      | inl wild ↦ ground (arith, wild, down, one)
      | inr named ↦ ground (arith, named)
    ]

-- the count does not choose the rule
matched-rule :
    (n m : ℕ) (found : Option (Key × Rule)) → (matched n found).rule ≡ (matched m found).rule
unfolding matched
matched-rule n m none = refl
matched-rule n m (some (key, r)) = refl

-- Knowing less does not buy confidence: a failure whose method is missing is looked up with at most
-- the confidence, and the same rule, that it has with any named method other than "any" and the
-- wildcard, if the data counts at least one cause under that method and has no scope named by the
-- empty text.
pub lookup_without_method :
    (reasons : Reasons) (m reason : String) (source step : Option String)
    → str_eq any m ≡ false
    → str_eq m "" ≡ false
    → str_eq m "any" ≡ false
    → causes_under "" reason reasons ≡ none
    → 1 ≤ documented_causes reasons (some m) reason
    → ((lookup reasons none (some reason) source step).confidence
        ≤ (lookup reasons (some m) (some reason) source step).confidence)
      × ((lookup reasons none (some reason) source step).rule
          ≡ (lookup reasons (some m) (some reason) source step).rule)
unfolding lookup lookup_reason
lookup_without_method reasons m reason source step h given other no_scope counted =
    let same = first_rule-method m reason source step h given in
    let fewer = documented_causes-none reasons m reason other no_scope in
    elim (Bool-cases (str_eq reason "")) [
      | inl empty ↦ ground (arith, empty)
      | inr worded ↦ elim (Bool-cases (is_merchant source)) [
        | inl merchant ↦ ground (arith, worded, merchant)
        | inr other_source ↦
            rw (worded, lookup_reason, other_source, same)
              (
                matched-antitone _ _ _ counted fewer,
                matched-rule (documented_causes reasons none reason)
                    (documented_causes reasons (some m) reason)
                    (first_rule (candidates none reason source step)),
              )
      ]
    ]
