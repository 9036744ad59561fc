-- ===== src/Measure/Calibration.antt =====
-- src/unhalted/measure/calibration.py: what became of the cases that each band of confidence held.
use unhalted.Prelude.{
  ℕ, ◌+◌, Bool, true, false, Option, none, some, List, [], ◌∷◌, leb, if◌then◌else◌,
}
use unhalted.Policy.{Policy}
use unhalted.Models.{
  Diagnosis, Authority, auto_execute, auto_execute_sampled_qa, hold_for_human, authority, CaseState,
}

-- `state in TERMINAL`
abbrev pub is_terminal : CaseState → Bool
is_terminal CaseState.open_case = false
is_terminal CaseState.held_for_human = false
is_terminal _ = true

-- `state in NOT_A_RECOVERY_QUESTION`
abbrev pub is_other_question : CaseState → Bool
is_other_question CaseState.closed_revoked = true
is_other_question CaseState.closed_false_failure = true
is_other_question _ = false

abbrev pub is_recovered : CaseState → Bool
is_recovered CaseState.recovered = true
is_recovered _ = false

pub record BandOutcome : Type 0 where
  pub cases : ℕ
  pub recovered : ℕ

-- `Calibration`, its dictionary a field for each of `BANDS`
pub record Calibration : Type 0 where
  pub auto : BandOutcome
  pub sampled : BandOutcome
  pub held : BandOutcome
  pub excluded : ℕ
  pub still_open : ℕ

-- `Calibration()`
abbrev pub no_cases : Calibration
no_cases = record {
  auto = record { cases = 0; recovered = 0 };
  sampled = record { cases = 0; recovered = 0 };
  held = record { cases = 0; recovered = 0 };
  excluded = 0;
  still_open = 0;
}

unfoldable pub count_in : CaseState → BandOutcome → BandOutcome
count_in state b = record {
  cases = b.cases + 1;
  recovered = if is_recovered state then b.recovered + 1 else b.recovered;
}

-- `result.bands[diagnosis.authority]`, counted
unfoldable pub count_band : Authority → CaseState → Calibration → Calibration
unfolding count_in
count_band auto_execute state c = record c { auto = count_in state c.auto }
count_band auto_execute_sampled_qa state c = record c { sampled = count_in state c.sampled }
count_band hold_for_human state c = record c { held = count_in state c.held }

module _ (p : Policy) where
  -- one turn of the loop of `measure`
  unfoldable pub count_case : Option Diagnosis → CaseState → Calibration → Calibration
  unfolding count_band
  count_case none state c = c
  count_case (some d) state c =
      if is_terminal state
      then if is_other_question state
        then record c { excluded = c.excluded + 1 }
        else count_band (authority p d) state c
      else record c { still_open = c.still_open + 1 }

  unfoldable pub count_cases : List (Option Diagnosis × CaseState) → Calibration → Calibration
  unfolding count_case
  count_cases [] c = c
  count_cases ((d, state) ∷ rest) c = count_cases rest (count_case d state c)

  unfoldable pub measure : List (Option Diagnosis × CaseState) → Calibration
  unfolding count_cases
  measure cases = count_cases cases no_cases

-- `BandOutcome.reliable`, with `MIN_SAMPLE`
abbrev pub reliable : BandOutcome → Bool
reliable b = leb 20 b.cases

-- `Calibration.total_terminal`
abbrev pub total_terminal : Calibration → ℕ
total_terminal c = c.auto.cases + c.sampled.cases + c.held.cases + c.excluded
