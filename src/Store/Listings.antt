-- ===== src/Store/Listings.antt =====
-- The listings of src/unhalted/store.py that a person and the scripts read: `actions`,
-- `pending_actions`, `standing_suppressions` and `all_cases`.
use unhalted.Prelude.{
  ℕ, ap, sym, ◌∙◌, All-mono, All-insert, first-All, select-select, if◌then◌else◌, ◌≡◌, refl, ◌≤◌,
  Bool, true, ◌&&◌, leb, String, str_eq, Option, none, some, List, [], ◌∷◌, All, select, first,
  sort_by, insert_by, arith, Bool-cases, Option-cases, inl, inr,
}
use mathlib.Core.List.{reverse}
use unhalted.Models.{Text, Case, ActionState, pending, leased, cancelled, done, failed, no_adapter}
use unhalted.Store.Tables.{Store, Action, Suppression}
use unhalted.Store.Queue.{in_reach, is_pending}
use unhalted.Store.Suppressions.{is_standing, bars, earliest, contact_suppression}

-- the text of a state, as the column holds it
abbrev state_name : ActionState → String
state_name pending = "pending"
state_name leased = "leased"
state_name cancelled = "cancelled"
state_name done = "done"
state_name failed = "failed"
state_name no_adapter = "no-adapter"

-- `state = ?`, where a state is given
abbrev is_in_state : Option String → Action → Bool
is_in_state none a = true
is_in_state (some state) a = str_eq (state_name a.state) state

-- 0 stands for a customer or a case that is not given
unfoldable pub actions : Option String → Text → Text → Store → List Action
unfolding in_reach
actions state customer_ref case_id s =
    select (λ a. is_in_state state a && in_reach customer_ref case_id a) s.pending_actions

unfoldable pub pending_actions : Text → Text → Store → List Action
unfolding in_reach
pending_actions customer_ref case_id s =
    select (λ a. is_pending a.state && in_reach customer_ref case_id a) s.pending_actions

-- `ORDER BY at`
unfoldable pub standing_suppressions : Store → List Suppression
unfolding sort_by
standing_suppressions s = sort_by (λ x. x.at) (select is_standing s.contact_suppressions)

-- `ORDER BY opened_at DESC`
unfoldable pub all_cases : Store → List Case
unfolding sort_by
all_cases s = reverse (sort_by (λ c. c.opened_at) s.cases)

-- a suppression, or the one that was found, if it is earlier
abbrev earlier : Suppression → Option Suppression → Option Suppression
earlier x none = some x
earlier x (some y) = if leb x.at y.at then some x else some y

abbrev at_of : Suppression → ℕ
at_of x = x.at

abbrev AreInOrder : List Suppression → Type 0
AreInOrder [] = Unit
AreInOrder (x ∷ xs) = All (λ y. x.at ≤ y.at) xs × AreInOrder xs

insert_by-AreInOrder :
    (x : Suppression) (xs : List Suppression) → AreInOrder xs → AreInOrder (insert_by at_of x xs)
unfolding insert_by
insert_by-AreInOrder x [] h = (tt, tt)
insert_by-AreInOrder x (y ∷ ys) h = elim (Bool-cases (leb x.at y.at)) [
  | inl before ↦
      let le : x.at ≤ y.at = ground arith in
      rw before
        ((le, All-mono (λ z. y.at ≤ z.at) (λ z. x.at ≤ z.at) ys (λ z k. omega arith) h.0), h)
  | inr after ↦
      let le : y.at ≤ x.at = ground arith in
      rw after (All-insert (λ z. y.at ≤ z.at) at_of x ys le h.0, insert_by-AreInOrder x ys h.1)
]

sort_by-AreInOrder : (xs : List Suppression) → AreInOrder (sort_by at_of xs)
unfolding sort_by
sort_by-AreInOrder [] = tt
sort_by-AreInOrder (x ∷ xs) = insert_by-AreInOrder x (sort_by at_of xs) (sort_by-AreInOrder xs)

module _ (p : Suppression → Bool) where
  earlier-first :
      (x y : Suppression) (ys : List Suppression)
      → x.at ≤ y.at
      → AreInOrder (y ∷ ys)
      → earlier x (first p (y ∷ ys)) ≡ some x
  earlier-first x y ys le h = elim (Option-cases (first p (y ∷ ys))) [
    | inl nobody ↦ rw (earlier, nobody) refl
    | inr (z, found) ↦
        let above : All (λ v. x.at ≤ v.at) (y ∷ ys) =
          (le, All-mono (λ v. y.at ≤ v.at) (λ v. x.at ≤ v.at) ys (λ v k. omega arith) h.0) in
        let late : x.at ≤ z.at = first-All (λ v. x.at ≤ v.at) p (y ∷ ys) z above found in
        ground (arith, found, late)
  ]

  first-insert_by :
      (x : Suppression) (ys : List Suppression)
      → AreInOrder ys
      → first p (insert_by at_of x ys) ≡ (if p x then earlier x (first p ys) else first p ys)
  unfolding insert_by
  first-insert_by x [] h = ground arith
  first-insert_by x (y ∷ ys) h = elim (Bool-cases (leb x.at y.at)) [
    | inl before ↦
        let le : x.at ≤ y.at = ground arith in ground (arith, before, earlier-first x y ys le h)
    | inr after ↦ ground (arith, after, first-insert_by x ys h.1)
  ]

  first-sort_by : (xs : List Suppression) → first p (sort_by at_of xs) ≡ earliest (select p xs)
  unfolding sort_by earliest
  first-sort_by [] = refl
  first-sort_by (x ∷ xs) =
      first-insert_by x (sort_by at_of xs) (sort_by-AreInOrder xs)
      ∙ ground (arith, first-sort_by xs)

-- The suppression that the agent meets for a case and a customer is the first of those that a
-- person is shown which bars that case or that customer, and there is none if none of them does.
first-standing_suppressions :
    (case_id customer_ref : Text) (s : Store)
    → contact_suppression case_id customer_ref s
      ≡ first (bars case_id customer_ref) (standing_suppressions s)
unfolding contact_suppression standing_suppressions
first-standing_suppressions case_id customer_ref s =
    ap earliest (sym (select-select is_standing (bars case_id customer_ref) s.contact_suppressions))
    ∙ sym (first-sort_by (bars case_id customer_ref) (select is_standing s.contact_suppressions))
