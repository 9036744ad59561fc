-- ===== src/Store/Barred.antt =====
-- `contact_suppression` of src/unhalted/store.py, against the rows in force.
use unhalted.Prelude.{
  ◌≡◌, ◌≢◌, refl, Bool, true, List, [], ◌∷◌, ◌++◌, any, select, arith, Bool-cases, inl, inr, none,
}
use unhalted.Models.{Text}
use unhalted.Store.Tables.{Store, Suppression}
use unhalted.Store.Suppressions.{bars, in_force, earliest}

earliest-cons : (x : Suppression) (xs : List Suppression) → earliest (x ∷ xs) ≢ none
unfolding earliest
earliest-cons x xs e = ground arith

-- a row in force is a suppression that is found, and the reverse
abbrev pub IsBarred : Text → Text → Store → Type 0
IsBarred id ref s = any (in_force id ref) s.contact_suppressions ≡ true

pub found-IsBarred :
    (id ref : Text) (xs : List Suppression)
    → any (in_force id ref) xs ≡ true
    → earliest (select (in_force id ref) xs) ≢ none
found-IsBarred id ref [] b e = cc
found-IsBarred id ref (x ∷ xs) b e = elim (Bool-cases (in_force id ref x)) [
  | inl here ↦ earliest-cons x (select (in_force id ref) xs) (rw here at e)
  | inr on ↦ found-IsBarred id ref xs (rw on at b) (rw on at e)
]

pub barred-select :
    (id ref : Text) (xs : List Suppression)
    → earliest (select (in_force id ref) xs) ≢ none
    → any (in_force id ref) xs ≡ true
unfolding earliest
barred-select id ref [] n = absurd (n refl)
barred-select id ref (x ∷ xs) n = elim (Bool-cases (in_force id ref x)) [
  | inl here ↦ rw here refl
  | inr on ↦ rw on (barred-select id ref xs (rw on at n))
]

pub barred_more :
    (id ref id' ref' : Text) (xs : List Suppression)
    → ((x : Suppression) → in_force id ref x ≡ true → in_force id' ref' x ≡ true)
    → any (in_force id ref) xs ≡ true
    → any (in_force id' ref') xs ≡ true
barred_more id ref id' ref' [] more b = absurd (cc)
barred_more id ref id' ref' (x ∷ xs) more b = elim (Bool-cases (in_force id ref x)) [
  | inl here ↦ rw (more x here) refl
  | inr on ↦ let rest = barred_more id ref id' ref' xs more (rw on at b) in ground (arith, rest)
]

pub any-append :
    (f : Suppression → Bool) (xs : List Suppression) (x : Suppression)
    → f x ≡ true
    → any f (xs ++ x ∷ []) ≡ true
any-append f [] x e = rw e refl
any-append f (y ∷ ys) x e = ground (arith, any-append f ys x e)

pub widen_case :
    (id ref : Text) (x : Suppression) → in_force id 0 x ≡ true → in_force id ref x ≡ true
unfolding bars
widen_case id ref x e = ground (arith, e)

pub widen_customer :
    (id ref : Text) (x : Suppression) → in_force 0 ref x ≡ true → in_force id ref x ≡ true
unfolding bars
widen_customer id ref x e = ground (arith, e)
