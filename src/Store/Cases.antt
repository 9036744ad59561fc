-- ===== src/Store/Cases.antt =====
-- The `cases` and `signals` tables: opening a case once for a payment, and its updates.
use unhalted.Prelude.{
  suc, Bool, true, false, Option, none, some, [], ◌∷◌, ◌++◌, ◌==◌, ◌||◌, first, any, map,
  if◌then◌else◌,
}
use unhalted.Clock.{Day}
use unhalted.Models.{Text, FailureSignal, Case, CaseState}
use unhalted.Store.Tables.{Store, SignalRow}

abbrev pub has_id : Text → Case → Bool
has_id id c = c.id == id

abbrev pub for_payment : Text → SignalRow → Bool
for_payment payment row = row.signal.payment_id == payment

unfoldable pub get_case : Text → Store → Option Case
get_case id s = first (has_id id) s.cases

-- the join of `signals` with `cases` on the payment
unfoldable pub case_for_payment : Text → Store → Option Case
unfolding get_case
case_for_payment payment s = elim (first (for_payment payment) s.signals) [
  | none ↦ none
  | some row ↦ get_case row.case_id s
]

-- The case of `_open_case_locked`; `fresh` is the id that `uuid.uuid4` gave.
unfoldable pub case_of : Text → FailureSignal → Case
case_of fresh signal = record {
  id = fresh;
  customer_ref = signal.customer_ref;
  amount_paise = signal.amount_paise;
  state = CaseState.open_case;
  opened_at = signal.occurred_at;
  retry_count = 0;
  nudges_suspended_until = none;
}

-- One transaction. `none` is the `IntegrityError` of the primary key, or of the unique index on
-- `signals.payment_id`, and leaves no row behind.
unfoldable pub insert_case : Case → FailureSignal → Store → Option Store
insert_case c signal s =
    if any (has_id c.id) s.cases || any (for_payment signal.payment_id) s.signals
    then none
    else some (record s {
      cases = s.cases ++ c ∷ [];
      signals = s.signals ++ record { case_id = c.id; signal = signal } ∷ [];
    })

-- The `try` of `_open_case_locked`: an insert that is refused returns the case of whoever won the
-- race for the payment, and raises if there is none.
unfoldable pub insert_or_winner : Case → FailureSignal → Store → Option (Case × Store)
unfolding insert_case case_for_payment
insert_or_winner c signal s = elim (insert_case c signal s) [
  | some s' ↦ some (c, s')
  | none ↦ elim (case_for_payment signal.payment_id s) [
    | none ↦ none
    | some winner ↦ some (winner, s)
  ]
]

-- `open_case_or_get`: the case, whether it was created, and the store; `none` is a raise. The lock
-- makes the look-up and the insert one step.
unfoldable pub open_case_or_get : Text → FailureSignal → Store → Option (Case × Bool × Store)
unfolding case_for_payment insert_or_winner case_of
open_case_or_get fresh signal s = elim (case_for_payment signal.payment_id s) [
  | some existing ↦ some (existing, false, s)
  | none ↦ elim (insert_or_winner (case_of fresh signal) signal s) [
    | none ↦ none
    | some (c, s') ↦ some (c, true, s')
  ]
]

abbrev pub on_case : Text → (Case → Case) → Case → Case
on_case id f c = if c.id == id then f c else c

-- `UPDATE cases SET ... WHERE id = ?`
unfoldable pub update_case : Text → (Case → Case) → Store → Store
update_case id f s = record s { cases = map (on_case id f) s.cases }

unfoldable pub set_state : Text → CaseState → Store → Store
unfolding update_case
set_state id state = update_case id (λ c. record c { state = state })

unfoldable pub increment_retry_count : Text → Store → Store
unfolding update_case
increment_retry_count id = update_case id (λ c. record c { retry_count = suc c.retry_count })

unfoldable pub suspend_nudges_until : Text → Option Day → Store → Store
unfolding update_case
suspend_nudges_until id until = update_case id (λ c. record c { nudges_suspended_until = until })

-- the signals of a case, oldest first; the callers read the first
unfoldable pub first_signal : Text → Store → Option FailureSignal
first_signal id s = elim (first (λ row. row.case_id == id) s.signals) [
  | none ↦ none
  | some row ↦ some row.signal
]
