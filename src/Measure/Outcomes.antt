-- ===== src/Measure/Outcomes.antt =====
-- src/unhalted/measure/outcomes.py: money at risk, by what each policy can reach, and the rate at
-- which an intervention repays its cost. A float of the source is the fraction that it rounds.
use unhalted.Prelude.{ℕ, ◌+◌, ◌*◌, List, [], ◌∷◌, ◌==◌, if◌then◌else◌}
use unhalted.Policy.{Policy}
use unhalted.Models.{DiagnosisClass, Rung}
use unhalted.Ladder.{cost_in}

pub record Exposure : Type 0 where
  pub cases : ℕ
  pub total_paise : ℕ
  pub unreachable_paise : ℕ
  pub unreachable_cases : ℕ
  pub must_not_take_paise : ℕ
  pub must_not_take_cases : ℕ
  pub unclassified_paise : ℕ
  pub unclassified_cases : ℕ
  pub contested_paise : ℕ
  pub contested_cases : ℕ

-- `Exposure()`
abbrev pub nothing_at_risk : Exposure
nothing_at_risk = record {
  cases = 0;
  total_paise = 0;
  unreachable_paise = 0;
  unreachable_cases = 0;
  must_not_take_paise = 0;
  must_not_take_cases = 0;
  unclassified_paise = 0;
  unclassified_cases = 0;
  contested_paise = 0;
  contested_cases = 0;
}

-- the branches on the class
unfoldable pub bucket : ℕ → DiagnosisClass → Exposure → Exposure
bucket amount DiagnosisClass.mandate_state_broken out = record out {
  unreachable_paise = out.unreachable_paise + amount;
  unreachable_cases = out.unreachable_cases + 1;
}
bucket amount DiagnosisClass.customer_intent_revoked out = record out {
  must_not_take_paise = out.must_not_take_paise + amount;
  must_not_take_cases = out.must_not_take_cases + 1;
}
bucket amount DiagnosisClass.unknown out = record out {
  unclassified_paise = out.unclassified_paise + amount;
  unclassified_cases = out.unclassified_cases + 1;
}
bucket amount _ out = record out {
  contested_paise = out.contested_paise + amount;
  contested_cases = out.contested_cases + 1;
}

-- one turn of the loop of `classify`
unfoldable pub count_item : ℕ → DiagnosisClass → Exposure → Exposure
unfolding bucket
count_item amount klass out =
    bucket amount klass
      (record out { cases = out.cases + 1; total_paise = out.total_paise + amount })

unfoldable pub count_items : List (ℕ × DiagnosisClass) → Exposure → Exposure
unfolding count_item
count_items [] out = out
count_items ((amount, klass) ∷ items) out = count_items items (count_item amount klass out)

unfoldable pub classify : List (ℕ × DiagnosisClass) → Exposure
unfolding count_items
classify items = count_items items nothing_at_risk

-- a quotient of the source: `over` divided by `under`
pub record Ratio : Type 0 where
  pub over : ℕ
  pub under : ℕ

-- `a / b if b else 0.0`
abbrev pub ratio : ℕ → ℕ → Ratio
ratio a b = if b == 0 then record { over = 0; under = 1 } else record { over = a; under = b }

pub record Breakeven : Type 0 where
  pub rung : Rung
  pub cases : ℕ
  pub spend_paise : ℕ
  pub exposure_paise : ℕ
  pub rate : Ratio
  pub customers_needed : Ratio
  pub leverage : Ratio

module _ (p : Policy) where
  -- `spend / mean` is `spend * cases / money`, and `mean` is zero where one of the two is
  unfoldable pub breakeven : Exposure → Rung → Breakeven
  breakeven e rung =
      let spend = e.unreachable_cases * cost_in p.ladder_rung_costs_paise rung in
      let money = e.unreachable_paise in
      record {
        rung = rung;
        cases = e.unreachable_cases;
        spend_paise = spend;
        exposure_paise = money;
        rate = ratio spend money;
        customers_needed =
            if e.unreachable_cases == 0
            then record { over = 0; under = 1 }
            else ratio (spend * e.unreachable_cases) money;
        leverage = ratio money spend;
      }

-- `Envelope`, without its notes
pub record Envelope : Type 0 where
  pub baseline_ceiling_paise : ℕ
  pub agent_ceiling_paise : ℕ
  pub dominance_paise : ℕ

unfoldable pub envelope : Exposure → Envelope
envelope e =
    let baseline = e.contested_paise + e.unclassified_paise in
    record {
      baseline_ceiling_paise = baseline;
      agent_ceiling_paise = baseline + e.unreachable_paise;
      dominance_paise = e.unreachable_paise;
    }
