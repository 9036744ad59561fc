-- ===== src/Store/Rows.antt =====
-- A row of the queue of src/unhalted/store.py, found by its id, under the updates of the whole table.
use unhalted.Prelude.{
  ℕ, ◌≡◌, true, false, Option, some, List, [], ◌∷◌, first, map, arith, ◌==◌, Bool-cases, inl, inr,
  ap, not, ◌&&◌,
}
use unhalted.Clock.{Instant}
use unhalted.Models.{Text, is_given}
use unhalted.Store.Tables.{Store, Action}
use unhalted.Store.Queue.{
  is_row, is_live, is_cancelled, is_cancellable, in_reach, cancel_row, cancel_pending, action,
}

module _ (f : Action → Action) (keeps_id : (a : Action) → (f a).id ≡ a.id) where
  -- an update that keeps ids finds the updated row
  pub first-map_row :
      (id : ℕ) (rows : List Action) (a : Action)
      → first (is_row id) rows ≡ some a
      → first (is_row id) (map f rows) ≡ some (f a)
  first-map_row id [] a e = absurd (cc)
  first-map_row id (b ∷ rows) a e = elim (Bool-cases (b.id == id)) [
    | inl here ↦
        let same : b ≡ a = ground arith in
        let here' : ((f b).id == id) ≡ true = ground (arith, keeps_id b) in
        rw here' (ap (λ r. some (f r)) same)
    | inr on ↦
        let on' : ((f b).id == id) ≡ false = ground (arith, keeps_id b) in
        rw on' (first-map_row id rows a (rw on at e))
  ]

id-cancel_row :
    (customer_ref case_id : Text) (now : Option Instant) (a : Action)
    → (cancel_row customer_ref case_id now a).id ≡ a.id
unfolding cancel_row
id-cancel_row customer_ref case_id now a =
    elim (Bool-cases (is_cancellable customer_ref case_id a)) [
      | inl hit ↦ rw hit
      | inr miss ↦ rw miss
    ]

pub action-cancel_pending :
    (customer_ref case_id : Text) (now : Option Instant) (id count : ℕ) (a : Action) (s s' : Store)
    → action id s ≡ some a
    → cancel_pending customer_ref case_id now s ≡ some (count, s')
    → action id s' ≡ some (cancel_row customer_ref case_id now a)
unfolding action cancel_pending
action-cancel_pending customer_ref case_id now id count a s s' found e =
    elim (Bool-cases (not (is_given customer_ref) && not (is_given case_id))) [
      | inl neither ↦ absurd (cc)
      | inr bounded ↦
          let table : s'.pending_actions
              ≡ map (cancel_row customer_ref case_id now) s.pending_actions =
            cc in
          rw table (
            first-map_row (cancel_row customer_ref case_id now)
              (id-cancel_row customer_ref case_id now) id s.pending_actions a found)
    ]

pub state-cancel_row :
    (customer_ref case_id : Text) (now : Option Instant) (a : Action)
    → is_live a.state ≡ true
    → in_reach customer_ref case_id a ≡ true
    → is_cancelled (cancel_row customer_ref case_id now a).state ≡ true
unfolding cancel_row
state-cancel_row customer_ref case_id now a live reach = rw (live, reach)
