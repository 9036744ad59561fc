-- ===== src/Measure/Bands.antt =====
-- `measure` of src/unhalted/measure/calibration.py, against counts of the cases.
use unhalted.Prelude.{
  ℕ, ◌+◌, ◌≤◌, ◌≡◌, Bool, true, false, not, ◌&&◌, Option, none, some, List, [], ◌∷◌, length, select,
  arith,
}
use unhalted.Policy.{Policy}
use unhalted.Models.{Diagnosis, CaseState}
use unhalted.Measure.Calibration.{
  is_terminal, is_other_question, is_recovered, Calibration, no_cases, count_case, count_cases,
  measure, total_terminal,
}

abbrev pub Diagnosed : Type 0
Diagnosed = Option Diagnosis × CaseState

abbrev pub has_diagnosis : Diagnosed → Bool
has_diagnosis x = elim x.0 [ none ↦ false | some d ↦ true ]

-- a diagnosed case with an outcome that the intervention was to bring about
abbrev pub is_question : Diagnosed → Bool
is_question x = has_diagnosis x && (is_terminal x.1 && not (is_other_question x.1))

abbrev pub is_success : Diagnosed → Bool
is_success x = has_diagnosis x && is_recovered x.1

abbrev pub is_undecided : Diagnosed → Bool
is_undecided x = has_diagnosis x && not (is_terminal x.1)

-- no band has recovered more cases than it has
abbrev pub AreWithin : Calibration → Type 0
AreWithin c =
    (c.auto.recovered ≤ c.auto.cases)
    × (c.sampled.recovered ≤ c.sampled.cases)
    × (c.held.recovered ≤ c.held.cases)

abbrev pub bands_total : Calibration → ℕ
bands_total c = c.auto.cases + c.sampled.cases + c.held.cases

abbrev pub recovered_total : Calibration → ℕ
recovered_total c = c.auto.recovered + c.sampled.recovered + c.held.recovered

module _ (p : Policy) where
  one_case :
      (d : Option Diagnosis) (state : CaseState) (c : Calibration)
      → AreWithin c
      → AreWithin (count_case p d state c)
        × (bands_total (count_case p d state c)
            ≡ bands_total c + length (select is_question ((d, state) ∷ [])))
        × (recovered_total (count_case p d state c)
            ≡ recovered_total c + length (select is_success ((d, state) ∷ [])))
        × ((count_case p d state c).still_open
            ≡ c.still_open + length (select is_undecided ((d, state) ∷ [])))
        × (total_terminal (count_case p d state c) + (count_case p d state c).still_open
            ≡ total_terminal c + c.still_open + length (select has_diagnosis ((d, state) ∷ [])))
  unfolding count_case
  one_case none state c w = ground arith
  one_case (some d) state c w = ground arith

  all_cases :
      (cases : List Diagnosed) (c : Calibration)
      → AreWithin c
      → AreWithin (count_cases p cases c)
        × (bands_total (count_cases p cases c) ≡ bands_total c + length (select is_question cases))
        × (recovered_total (count_cases p cases c)
            ≡ recovered_total c + length (select is_success cases))
        × ((count_cases p cases c).still_open ≡ c.still_open + length (select is_undecided cases))
        × (total_terminal (count_cases p cases c) + (count_cases p cases c).still_open
            ≡ total_terminal c + c.still_open + length (select has_diagnosis cases))
  unfolding count_cases
  all_cases [] c w = ground arith
  all_cases ((d, state) ∷ rest) c w =
      let step = one_case d state c w in
      ground (arith, step, all_cases rest (count_case p d state c) step.0)

  -- Every diagnosed case is counted once: under a band of confidence if it has an outcome that the
  -- intervention was to bring about, else as excluded, or as still open. A band has recovered at
  -- most the cases that it has, and the bands together have recovered the recovered cases.
  pub measure-counts :
      (cases : List Diagnosed)
      → AreWithin (measure p cases)
        × (bands_total (measure p cases) ≡ length (select is_question cases))
        × (recovered_total (measure p cases) ≡ length (select is_success cases))
        × ((measure p cases).still_open ≡ length (select is_undecided cases))
        × (total_terminal (measure p cases) + (measure p cases).still_open
            ≡ length (select has_diagnosis cases))
  unfolding measure
  measure-counts cases = omega (arith, all_cases cases no_cases (omega arith))
