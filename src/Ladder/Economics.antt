-- ===== src/Ladder/Economics.antt =====
-- `evaluate` of src/unhalted/shell/ladder.py, against the expected value.
use unhalted.Prelude.{
  ℕ, ◌*◌, ◌≤◌, ◌<◌, ◌≡◌, ◌↔◌, ◌⊎◌, true, false, Option, List, [], ◌∷◌, max, arith,
}
use unhalted.Policy.{Policy}
use unhalted.Models.{Rung, uneconomic_provable}
use unhalted.Ladder.{Channel, cost_in, refuses, ltv_or_zero, rate_of, evaluate}

below_stake : (c r s : ℕ) → r ≤ 100 → c * 100 < r * s → c < s
below_stake c r s h k = grind arith

over_stake : (c r s : ℕ) → r ≤ 100 → s ≤ c → r * s ≤ c * 100
over_stake c r s h k = grind arith

rate_mono : (r s t : ℕ) → s ≤ t → r * s ≤ r * t
rate_mono r s t h = grind arith

module _ (p : Policy) where
  abbrev pub cost : Rung → ℕ
  cost rung = cost_in p.ladder_rung_costs_paise rung

  -- what is at stake, in paise
  abbrev pub stake : ℕ → Option ℕ → ℕ
  stake amount ltv = max amount (ltv_or_zero ltv)

  pub approved-eq :
      (rung : Rung) (amount : ℕ) (ltv : Option ℕ) (refused : List Channel)
      (rates : Option (Rung → ℕ))
      → ((evaluate p rung amount ltv refused rates).approved ≡ true) ↔ (
          (refuses rung refused ≡ false)
          × ((cost rung ≡ 0)
              ⊎ ((cost rung < stake amount ltv)
                  × (cost rung * 100 < rate_of rates rung * stake amount ltv))))
  unfolding evaluate
  approved-eq rung amount ltv refused rates = ground arith

  -- At a success rate of at most 100 percent a rung is approved exactly when the customer has not
  -- refused it and it is free or its expected recovery exceeds its cost: the test against the whole
  -- stake refuses nothing that the expected value would have approved.
  pub approved_iff :
      (rung : Rung) (amount : ℕ) (ltv : Option ℕ) (refused : List Channel)
      (rates : Option (Rung → ℕ))
      → rate_of rates rung ≤ 100
      → ((evaluate p rung amount ltv refused rates).approved ≡ true) ↔ (
          (refuses rung refused ≡ false)
          × ((cost rung ≡ 0) ⊎ (cost rung * 100 < rate_of rates rung * stake amount ltv)))
  approved_iff rung amount ltv refused rates h =
      let eq = approved-eq rung amount ltv refused rates in
      let within = below_stake (cost rung) (rate_of rates rung) (stake amount ltv) h in
      ground (arith, eq, within)

  -- A refusal for costing more than the stake stands at every success rate up to 100 percent.
  provable_at_every_rate :
      (rung : Rung) (amount : ℕ) (ltv : Option ℕ) (refused : List Channel)
      (rates other : Option (Rung → ℕ))
      → (evaluate p rung amount ltv refused rates).rules_fired ≡ uneconomic_provable ∷ []
      → rate_of other rung ≤ 100
      → ((evaluate p rung amount ltv refused other).approved ≡ false)
        × (rate_of other rung * stake amount ltv ≤ cost rung * 100)
  unfolding evaluate
  provable_at_every_rate rung amount ltv refused rates other e h =
      ground (arith, over_stake (cost rung) (rate_of other rung) (stake amount ltv) h)

  -- What is worth its cost for an amount is worth it for every larger amount.
  approved_mono :
      (rung : Rung) (amount more : ℕ) (ltv : Option ℕ) (refused : List Channel)
      (rates : Option (Rung → ℕ))
      → amount ≤ more
      → (evaluate p rung amount ltv refused rates).approved ≡ true
      → (evaluate p rung more ltv refused rates).approved ≡ true
  approved_mono rung amount more ltv refused rates h ok =
      let eq = approved-eq rung amount ltv refused rates in
      let eq' = approved-eq rung more ltv refused rates in
      let grows =
        rate_mono (rate_of rates rung) (stake amount ltv) (stake more ltv) (omega arith) in
      ground (arith, eq, eq', grows)
