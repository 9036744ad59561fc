-- ===== src/Limits/Permission.antt =====
-- `check` of src/unhalted/shell/limits.py, against the ceiling of each rail.
use unhalted.Prelude.{
  ℕ, ◌≤◌, ◌<◌, ◌≡◌, ◌↔◌, Bool, true, ◌||◌, String, Option, none, some, min, arith, if◌then◌else◌,
}
use unhalted.Policy.{Policy}
use unhalted.Models.{exceeds_mandate}
use unhalted.Limits.{may_attempt, method_is, check}

-- the amount is not above what the customer agreed to
abbrev pub Consented : ℕ → Option ℕ → Type 0
Consented amount none = Unit
Consented amount (some ceiling) = amount ≤ ceiling

module _ (p : Policy) where
  -- The largest debit that a rail takes without the customer: on UPI both ceilings hold.
  abbrev pub rail_ceiling : Option String → Bool → ℕ
  rail_ceiling method bfsi =
      if method_is method "card"
      then p.card_recurring_max_paise
      else if method_is method "upi"
      then min p.upi_mandate_max_paise
          (if bfsi then p.frictionless_upi_bfsi_paise else p.frictionless_upi_paise)
      else if method_is method "emandate"
          || method_is method "nach"
          || method_is method "netbanking"
      then p.emandate_max_paise
      else p.frictionless_upi_paise

  -- A debit may be attempted exactly when its amount is positive, within what the customer agreed
  -- to, and within the ceiling of its rail.
  pub may_attempt-check :
      (amount : ℕ) (method : Option String) (mandate_max : Option ℕ) (bfsi : Bool)
      → (may_attempt (check p amount method mandate_max bfsi) ≡ true)
        ↔ ((0 < amount) × Consented amount mandate_max × (amount ≤ rail_ceiling method bfsi))
  unfolding check may_attempt
  may_attempt-check amount method none bfsi = ground arith
  may_attempt-check amount method (some ceiling) bfsi = ground arith

  -- A debit is refused as above the mandate exactly when its amount is positive and above the
  -- mandate's own ceiling, on every rail.
  consent_first :
      (amount ceiling : ℕ) (method : Option String) (bfsi : Bool)
      → ((check p amount method (some ceiling) bfsi).outcome ≡ exceeds_mandate)
        ↔ ((0 < amount) × (ceiling < amount))
  unfolding check
  consent_first amount ceiling method bfsi = ground arith
