-- ===== src/Prelude/Counts.antt =====
-- How many rows a filter keeps, through `map`, `sort_by`, `++` and another filter.
use Prim.Native.Nat.{ℕ, ◌+◌, ◌≤◌}
use mathlib.Core.Path.{◌≡◌, refl}
use mathlib.Core.Bool.{Bool, true, ◌&&◌}
use mathlib.Core.List.{List, [], ◌∷◌, ◌++◌, map}
use native.Mathlib.Omega.{arith}
use unhalted.Prelude.Lists.{length, select, insert_by, sort_by, All}

module _ {ℓ} {A : Type ℓ} where
  pub length-select-append :
      (p : A → Bool) (xs ys : List A)
      → length (select p (xs ++ ys)) ≡ length (select p xs) + length (select p ys)
  length-select-append p [] ys = omega arith
  length-select-append p (x ∷ xs) ys = ground (arith, length-select-append p xs ys)

  length-select-insert :
      (p : A → Bool) (key : A → ℕ) (x : A) (ys : List A)
      → length (select p (insert_by key x ys)) ≡ length (select p (x ∷ ys))
  unfolding insert_by
  length-select-insert p key x [] = refl
  length-select-insert p key x (y ∷ ys) = ground (arith, length-select-insert p key x ys)

  pub length-select-sort :
      (p : A → Bool) (key : A → ℕ) (xs : List A)
      → length (select p (sort_by key xs)) ≡ length (select p xs)
  unfolding sort_by
  length-select-sort p key [] = refl
  length-select-sort p key (x ∷ xs) =
      ground (arith, length-select-insert p key x (sort_by key xs), length-select-sort p key xs)

  -- a filter that implies another keeps no more
  pub length-select_mono :
      (p q : A → Bool)
      → ((x : A) → q x ≡ true → p x ≡ true)
      → (xs : List A) → length (select q xs) ≤ length (select p xs)
  length-select_mono p q q_p [] = omega arith
  length-select_mono p q q_p (x ∷ xs) = ground (arith, length-select_mono p q q_p xs, q_p x)

  pub length-select-select :
      (p q : A → Bool) (xs : List A)
      → length (select q (select p xs)) ≡ length (select (λ x. p x && q x) xs)
  length-select-select p q [] = refl
  length-select-select p q (x ∷ xs) = ground (arith, length-select-select p q xs)

  -- tests that agree on the rows of a list count the same
  pub length-select_agree :
      (p q : A → Bool) (xs : List A)
      → All (λ x. p x ≡ q x) xs
      → length (select p xs) ≡ length (select q xs)
  length-select_agree p q [] a = refl
  length-select_agree p q (x ∷ xs) a = ground (arith, a.0, length-select_agree p q xs a.1)

module _ {ℓ κ} {A : Type ℓ} {B : Type κ} where
  pub length-select-map :
      (p : B → Bool) (f : A → B) (xs : List A)
      → length (select p (map f xs)) ≡ length (select (λ x. p (f x)) xs)
  length-select-map p f [] = refl
  length-select-map p f (x ∷ xs) = ground (arith, length-select-map p f xs)
