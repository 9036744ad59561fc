-- ===== src/Agent/Opening.antt =====
-- The tables that opening a case does not write (src/unhalted/agent.py, `handle_failure`).
use unhalted.Prelude.{◌≡◌, Bool, some, arith, sym, Option-cases, inl, inr, refl}
use unhalted.Models.{Text, FailureSignal, Case}
use unhalted.Store.Tables.{Store}
use unhalted.Store.Cases.{
  case_of, case_for_payment, insert_case, insert_or_winner, open_case_or_get,
}

-- the tables that an opening does not write
abbrev pub SameWork : Store → Store → Type 0
SameWork s s' =
    (s'.pending_actions ≡ s.pending_actions)
    × (s'.contact_suppressions ≡ s.contact_suppressions)
    × (s'.diagnoses ≡ s.diagnoses)
    × (s'.audit ≡ s.audit)

insert_case-SameWork :
    (c : Case) (signal : FailureSignal) (s s' : Store)
    → insert_case c signal s ≡ some s'
    → SameWork s s'
unfolding insert_case
insert_case-SameWork c signal s s' e = ground (arith, e)

insert_or_winner-SameWork :
    (c w : Case) (signal : FailureSignal) (s s' : Store)
    → insert_or_winner c signal s ≡ some (w, s')
    → SameWork s s'
unfolding insert_or_winner
insert_or_winner-SameWork c w signal s s' e = elim (Option-cases (insert_case c signal s)) [
  | inr (s1, inserted) ↦
      let same : s1 ≡ s' = ground (arith, inserted, e) in
      rw (sym same) (insert_case-SameWork c signal s s1 inserted)
  | inl refused ↦
      let same : s ≡ s' = ground (arith, refused, e) in rw (sym same) (refl, refl, refl, refl)
]

pub open_case_or_get-SameWork :
    (fresh : Text) (signal : FailureSignal) (c : Case) (created : Bool) (s s' : Store)
    → open_case_or_get fresh signal s ≡ some (c, created, s')
    → SameWork s s'
unfolding open_case_or_get
open_case_or_get-SameWork fresh signal c created s s' e =
    elim (Option-cases (case_for_payment signal.payment_id s)) [
      | inr (existing, found) ↦
          let same : s ≡ s' = ground (arith, found, e) in rw (sym same) (refl, refl, refl, refl)
      | inl missing ↦ elim (Option-cases (insert_or_winner (case_of fresh signal) signal s)) [
        | inl raised ↦ absurd (cc)
        | inr ((w, s1), inserted) ↦
            let same : s1 ≡ s' = ground (arith, missing, inserted, e) in
            rw (sym same) (insert_or_winner-SameWork (case_of fresh signal) w signal s s1 inserted)
      ]
    ]
