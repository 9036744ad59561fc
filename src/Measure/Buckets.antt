-- ===== src/Measure/Buckets.antt =====
-- `classify`, `envelope` and `breakeven` of src/unhalted/measure/outcomes.py, against sums over the
-- items.
use mathlib.Core.List.{Perm, Permᴰ}
use mathlib.Core.Logic.{∥∥₁_elim}
use unhalted.Prelude.{
  ℕ, ◌+◌, ◌*◌, ◌≤◌, ◌≡◌, refl, sym, ap, ◌∙◌, Bool, Bool-cases, true, false, not, ◌||◌, none, List,
  [], ◌∷◌, All, arith, inl, inr, if◌then◌else◌,
}
use unhalted.Policy.{Policy}
use unhalted.Models.{DiagnosisClass, Rung}
use unhalted.Ladder.{cost_in, evaluate, rate_of, ltv_or_zero}
use unhalted.Ladder.Economics.{approved-eq}
use unhalted.Measure.Outcomes.{
  Exposure, nothing_at_risk, count_item, count_items, classify, breakeven, envelope,
}

abbrev pub Item : Type 0
Item = ℕ × DiagnosisClass

-- what a retry cannot fix, what nobody may take, what no rule matched
abbrev pub is_broken : DiagnosisClass → Bool
is_broken DiagnosisClass.mandate_state_broken = true
is_broken _ = false

abbrev pub is_revoked : DiagnosisClass → Bool
is_revoked DiagnosisClass.customer_intent_revoked = true
is_revoked _ = false

abbrev pub is_unknown : DiagnosisClass → Bool
is_unknown DiagnosisClass.unknown = true
is_unknown _ = false

abbrev pub is_other : DiagnosisClass → Bool
is_other k = not (is_broken k || (is_revoked k || is_unknown k))

abbrev pub is_class : DiagnosisClass → Bool
is_class k = true

abbrev pub total : (Item → ℕ) → List Item → ℕ
total f [] = 0
total f (item ∷ items) = f item + total f items

-- the money, and the number, of the items of a class
abbrev pub money_of : (DiagnosisClass → Bool) → List Item → ℕ
money_of q items = total (λ item. if q item.1 then item.0 else 0) items

abbrev pub number_of : (DiagnosisClass → Bool) → List Item → ℕ
number_of q items = total (λ item. if q item.1 then 1 else 0) items

-- the exposure that has these sums
abbrev pub sorted_into : List Item → Exposure → Exposure
sorted_into items out = record {
  cases = out.cases + number_of is_class items;
  total_paise = out.total_paise + money_of is_class items;
  unreachable_paise = out.unreachable_paise + money_of is_broken items;
  unreachable_cases = out.unreachable_cases + number_of is_broken items;
  must_not_take_paise = out.must_not_take_paise + money_of is_revoked items;
  must_not_take_cases = out.must_not_take_cases + number_of is_revoked items;
  unclassified_paise = out.unclassified_paise + money_of is_unknown items;
  unclassified_cases = out.unclassified_cases + number_of is_unknown items;
  contested_paise = out.contested_paise + money_of is_other items;
  contested_cases = out.contested_cases + number_of is_other items;
}

count_item-sorted :
    (amount : ℕ) (klass : DiagnosisClass) (items : List Item) (out : Exposure)
    → sorted_into items (count_item amount klass out) ≡ sorted_into ((amount, klass) ∷ items) out
unfolding count_item
count_item-sorted amount DiagnosisClass.recoverable_technical items out = ground arith
count_item-sorted amount DiagnosisClass.recoverable_balance items out = ground arith
count_item-sorted amount DiagnosisClass.notification_gap items out = ground arith
count_item-sorted amount DiagnosisClass.mandate_state_broken items out = ground arith
count_item-sorted amount DiagnosisClass.customer_intent_revoked items out = ground arith
count_item-sorted amount DiagnosisClass.unknown items out = ground arith

count_items-sorted :
    (items : List Item) (out : Exposure) → count_items items out ≡ sorted_into items out
unfolding count_items
count_items-sorted [] out = ground arith
count_items-sorted ((amount, klass) ∷ items) out =
    count_items-sorted items (count_item amount klass out)
    ∙ count_item-sorted amount klass items out

pub classify-sorted : (items : List Item) → classify items ≡ sorted_into items nothing_at_risk
unfolding classify
classify-sorted items = count_items-sorted items nothing_at_risk

total-perm : (f : Item → ℕ) {xs ys : List Item} → Permᴰ xs ys → total f xs ≡ total f ys
total-perm f Permᴰ.nil = refl
total-perm f (Permᴰ.cons e p) = omega (arith, ap f e, total-perm f p)
total-perm f (Permᴰ.swap e e') = omega (arith, ap f e, ap f e')
total-perm f (Permᴰ.trans p q) = total-perm f p ∙ total-perm f q

Exposure-set : IsSet Exposure
Exposure-set = hlevel

sorted-perm :
    (xs ys : List Item)
    → Permᴰ xs ys
    → sorted_into xs nothing_at_risk ≡ sorted_into ys nothing_at_risk
sorted-perm xs ys p = ground (
  arith,
  total-perm (λ (x : Item). if is_class x.1 then 1 else 0) p,
  total-perm (λ (x : Item). if is_class x.1 then x.0 else 0) p,
  total-perm (λ (x : Item). if is_broken x.1 then x.0 else 0) p,
  total-perm (λ (x : Item). if is_broken x.1 then 1 else 0) p,
  total-perm (λ (x : Item). if is_revoked x.1 then x.0 else 0) p,
  total-perm (λ (x : Item). if is_revoked x.1 then 1 else 0) p,
  total-perm (λ (x : Item). if is_unknown x.1 then x.0 else 0) p,
  total-perm (λ (x : Item). if is_unknown x.1 then 1 else 0) p,
  total-perm (λ (x : Item). if is_other x.1 then x.0 else 0) p,
  total-perm (λ (x : Item). if is_other x.1 then 1 else 0) p,
)

-- The order in which the failures are read does not change what is at risk.
pub classify-perm : (xs ys : List Item) → Perm xs ys → classify xs ≡ classify ys
classify-perm xs ys perm =
    ∥∥₁_elim perm (Exposure-set (classify xs) (classify ys))
      (λ p. classify-sorted xs ∙ sorted-perm xs ys p ∙ sym (classify-sorted ys))

-- the four buckets make up the whole
whole :
    (items : List Item)
    → (money_of is_other items
          + money_of is_unknown items
          + money_of is_broken items
          + money_of is_revoked items
        ≡ money_of is_class items)
      × (number_of is_broken items
            + number_of is_revoked items
            + number_of is_unknown items
            + number_of is_other items
          ≡ number_of is_class items)
whole [] = omega arith
whole ((amount, klass) ∷ items) = ground (arith, whole items)

-- Every paisa and every case of a batch is counted once, under its class: each bucket has the money
-- and the number of the failures of its class. The ceiling of the agent and the revoked money make
-- up the whole, the two ceilings differ by the money of the broken mandates and by nothing else, and
-- the cases of the four buckets make up the number of failures.
pub envelope-classify :
    (items : List Item)
    → ((envelope (classify items)).agent_ceiling_paise + money_of is_revoked items
        ≡ money_of is_class items)
      × ((envelope (classify items)).baseline_ceiling_paise + money_of is_broken items
          ≡ (envelope (classify items)).agent_ceiling_paise)
      × ((classify items).unreachable_cases
            + (classify items).must_not_take_cases
            + (classify items).unclassified_cases
            + (classify items).contested_cases
          ≡ number_of is_class items)
      × (classify items ≡ sorted_into items nothing_at_risk)
unfolding envelope
envelope-classify items =
    let sums = whole items in
    (
      rw (classify-sorted items) (omega (arith, sums)),
      rw (classify-sorted items) (omega (arith, sums)),
      rw (classify-sorted items) (omega (arith, sums)),
      classify-sorted items,
    )

module _ (p : Policy) where
  -- each failure that a retry cannot fix is worth the rung, by the ladder's own rule
  abbrev pub AreWorth : Rung → List Item → Type 0
  AreWorth rung items =
      All (λ item. is_broken item.1 ≡ true → (evaluate p rung item.0 none [] none).approved ≡ true)
        items

  worth_one :
      (rung : Rung) (amount : ℕ)
      → (evaluate p rung amount none [] none).approved ≡ true
      → cost_in p.ladder_rung_costs_paise rung * 100 ≤ rate_of none rung * amount
  unfolding ltv_or_zero
  worth_one rung amount ok = ground (arith, approved-eq p rung amount none [] none)

  grows : (n c r a m : ℕ) → c * 100 ≤ r * a → n * c * 100 ≤ r * m → (1 + n) * c * 100 ≤ r * (a + m)
  grows n c r a m h k = grind arith

  spend_within :
      (rung : Rung) (items : List Item)
      → AreWorth rung items
      → number_of is_broken items * cost_in p.ladder_rung_costs_paise rung * 100
        ≤ rate_of none rung * money_of is_broken items
  spend_within rung [] w = omega arith
  spend_within rung ((amount, klass) ∷ items) w =
      let ih = spend_within rung items w.1 in
      elim (Bool-cases (is_broken klass)) [
        | inl broken ↦ rw broken (
            grows (number_of is_broken items) (cost_in p.ladder_rung_costs_paise rung)
              (rate_of none rung) amount (money_of is_broken items)
              (worth_one rung amount (w.0 broken)) ih)
        | inr other ↦ rw other (omega (arith, ih))
      ]

  -- What the ladder approves one by one pays for the batch: if it would spend the rung on every
  -- failure that a retry cannot fix, at its assumed rate and for the debit alone, then the rate at
  -- which the batch breaks even is at most the assumed one.
  pub breakeven-approved :
      (rung : Rung) (items : List Item)
      → AreWorth rung items
      → (breakeven p (classify items) rung).rate.over * 100
        ≤ rate_of none rung * (breakeven p (classify items) rung).rate.under
  unfolding breakeven
  breakeven-approved rung items w =
      rw (classify-sorted items) (ground (arith, spend_within rung items w))
