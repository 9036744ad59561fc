-- ===== src/Store/Payments.antt =====
-- `open_case_or_get` of src/unhalted/store.py: the case of a payment.
use unhalted.Prelude.{
  ◌≡◌, refl, Bool, true, false, some, [], ◌∷◌, ◌++◌, any, arith, first-append, Option-cases,
  Bool-cases, inl, inr, ◌==◌, ap, subst, ◌∙◌,
}
use unhalted.Models.{Text, FailureSignal, Case}
use unhalted.Store.Tables.{Store, SignalRow}
use unhalted.Store.Cases.{
  has_id, for_payment, get_case, case_for_payment, case_of, insert_case, insert_or_winner,
  open_case_or_get,
}

pub ==_refl : (n : Text) → (n == n) ≡ true
==_refl n = ground arith

-- a case that is inserted is the case of its payment
insert_case-found :
    (c : Case) (x : FailureSignal) (s s' : Store)
    → insert_case c x s ≡ some s'
    → case_for_payment x.payment_id s' ≡ some c
unfolding insert_case case_for_payment get_case
insert_case-found c x s s' e = elim (Bool-cases (any (has_id c.id) s.cases)) [
  | inl taken ↦ absurd (ground (arith, taken, e))
  | inr fresh ↦ elim (Bool-cases (any (for_payment x.payment_id) s.signals)) [
    | inl known ↦ absurd (ground (arith, fresh, known, e))
    | inr unknown ↦
        let row : SignalRow = record { case_id = c.id; signal = x } in
        let at =
          first-append (for_payment x.payment_id) s.signals row unknown (==_refl x.payment_id) in
        let found = first-append (has_id c.id) s.cases c fresh (==_refl c.id) in
        let done : record s { cases = s.cases ++ c ∷ []; signals = s.signals ++ row ∷ [] } ≡ s' =
          ground (arith, fresh, unknown, e) in
        subst (λ (st : Store). case_for_payment x.payment_id st ≡ some c) done
          (rw (case_for_payment, at, get_case, found) refl)
  ]
]

-- An opening that does not raise leaves the case that it returned as the case of the payment.
pub open_case_or_get-found :
    (fresh : Text) (x : FailureSignal) (c : Case) (created : Bool) (s s' : Store)
    → open_case_or_get fresh x s ≡ some (c, created, s')
    → case_for_payment x.payment_id s' ≡ some c
unfolding open_case_or_get insert_or_winner
open_case_or_get-found fresh x c created s s' e =
    elim (Option-cases (case_for_payment x.payment_id s)) [
      | inr (known, at) ↦
          let done : s ≡ s' = ground (arith, at, e) in
          let same : known ≡ c = ground (arith, at, e) in
          subst (λ (st : Store). case_for_payment x.payment_id st ≡ some c) done (rw same at at)
      | inl missing ↦ elim (Option-cases (insert_case (case_of fresh x) x s)) [
        | inl refused ↦ absurd (ground (arith, missing, refused, e))
        | inr (s1, at) ↦
            let done : s1 ≡ s' = ground (arith, missing, at, e) in
            let same : case_of fresh x ≡ c = ground (arith, missing, at, e) in
            subst (λ (st : Store). case_for_payment x.payment_id st ≡ some c) done
              (insert_case-found (case_of fresh x) x s s1 at ∙ ap (λ k. some k) same)
      ]
    ]

-- After an opening that did not raise, an opening for the same payment, with whatever fresh id and
-- whatever else in the signal, gives the same case, creates none and leaves the store as it is.
pub open_case_or_get_again :
    (fresh other : Text) (x y : FailureSignal) (c : Case) (created : Bool) (s s' : Store)
    → open_case_or_get fresh x s ≡ some (c, created, s')
    → y.payment_id ≡ x.payment_id
    → open_case_or_get other y s' ≡ some (c, false, s')
unfolding open_case_or_get
open_case_or_get_again fresh other x y c created s s' e same =
    let found : case_for_payment y.payment_id s' ≡ some c =
      ap (λ n. case_for_payment n s') same ∙ open_case_or_get-found fresh x c created s s' e in
    rw (open_case_or_get, found) refl
