-- ===== src/Limits.antt =====
-- src/unhalted/shell/limits.py: the monetary ceilings on a recurring debit.
pub mod Permission
use unhalted.Prelude.{
  ℕ, Bool, true, false, ◌||◌, String, Option, none, some, leb, ltb, reads_as, if◌then◌else◌,
}
use unhalted.Policy.{Policy}
use unhalted.Models.{LimitOutcome, permitted, would_fail, needs_additional_auth, exceeds_mandate}

pub record LimitCheck : Type 0 where
  pub outcome : LimitOutcome

-- `LimitCheck.may_attempt`
unfoldable pub may_attempt : LimitCheck → Bool
may_attempt c = elim c.outcome [ permitted ↦ true | _ ↦ false ]

-- `(method or "").lower() == word`
unfoldable pub method_is : Option String → String → Bool
method_is none word = reads_as "" word
method_is (some method) word = reads_as method word

abbrev outcome_of : LimitOutcome → LimitCheck
outcome_of o = record { outcome = o }

-- `mandate_max_paise is not None and amount_paise > mandate_max_paise`
unfoldable pub above_mandate : ℕ → Option ℕ → Bool
above_mandate amount none = false
above_mandate amount (some ceiling) = ltb ceiling amount

module _ (p : Policy) where
  check_card : ℕ → LimitCheck
  check_card amount =
      if ltb p.card_recurring_max_paise amount then outcome_of would_fail else outcome_of permitted

  check_upi : ℕ → Bool → LimitCheck
  check_upi amount bfsi =
      if ltb p.upi_mandate_max_paise amount
      then outcome_of would_fail
      else if ltb (if bfsi then p.frictionless_upi_bfsi_paise else p.frictionless_upi_paise) amount
      then outcome_of needs_additional_auth
      else outcome_of permitted

  check_emandate : ℕ → LimitCheck
  check_emandate amount =
      if ltb p.emandate_max_paise amount then outcome_of would_fail else outcome_of permitted

  -- an unknown method gets the strictest ceiling
  check_unknown : ℕ → LimitCheck
  check_unknown amount =
      if ltb p.frictionless_upi_paise amount then outcome_of would_fail else outcome_of permitted

  -- the checks after the mandate's own ceiling
  check_rail : ℕ → Option String → Bool → LimitCheck
  unfolding check_card check_upi check_emandate check_unknown
  check_rail amount method bfsi =
      if method_is method "card"
      then check_card amount
      else if method_is method "upi"
      then check_upi amount bfsi
      else if method_is method "emandate"
          || method_is method "nach"
          || method_is method "netbanking"
      then check_emandate amount
      else check_unknown amount

  unfoldable pub check : ℕ → Option String → Option ℕ → Bool → LimitCheck
  unfolding check_rail above_mandate
  check amount method mandate_max bfsi =
      if leb amount 0
      then outcome_of would_fail
      else if above_mandate amount mandate_max
      then outcome_of exceeds_mandate
      else check_rail amount method bfsi
