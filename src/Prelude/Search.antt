-- ===== src/Prelude/Search.antt =====
-- What `first`, `select` and `any` find in a table.
use Prim.Native.Nat.{ℕ, zero, suc}
use mathlib.Core.Path.{◌≡◌, refl, subst}
use mathlib.Core.Logic.{◌≢◌, inl, inr}
use mathlib.Core.Bool.{Bool, true, false, ◌&&◌}
use mathlib.Core.Option.{none, some}
use mathlib.Core.List.{List, [], ◌∷◌, ◌++◌}
use native.Mathlib.Omega.{arith}
use unhalted.Prelude.Tests.{leb, Bool-cases}
use unhalted.Prelude.Lists.{first, select, any, take, insert_by, sort_by, All}

module _ {ℓ} {A : Type ℓ} where
  pub first-holds : (p : A → Bool) (xs : List A) (x : A) → first p xs ≡ some x → p x ≡ true
  first-holds p [] x h = cc
  first-holds p (y ∷ ys) x h = ground (arith, first-holds p ys x)

  pub first-All {κ} :
      (P : A → Type κ) (p : A → Bool) (xs : List A) (x : A) → All P xs → first p xs ≡ some x → P x
  first-All P p [] x a h = absurd (cc)
  first-All P p (y ∷ ys) x a h = elim (Bool-cases (p y)) [
    | inl e ↦ let same : y ≡ x = ground arith in subst P same a.0
    | inr e ↦ first-All P p ys x a.1 (rw e at h)
  ]

  pub first-ne-none :
      (p q : A → Bool) (xs : List A) (x : A) → first p xs ≡ some x → q x ≡ true → first q xs ≢ none
  first-ne-none p q [] x h k e = cc
  first-ne-none p q (y ∷ ys) x h k e = ground (arith, first-ne-none p q ys x)

  pub All-select {κ} :
      (P : A → Type κ) (p : A → Bool) (xs : List A) → All P xs → All P (select p xs)
  All-select P p [] a = tt
  All-select P p (y ∷ ys) a = elim (Bool-cases (p y)) [
    | inl e ↦ rw e (a.0, All-select P p ys a.1)
    | inr e ↦ rw e (All-select P p ys a.1)
  ]

  -- a search that finds nothing goes on to what is appended
  pub first-append :
      (p : A → Bool) (xs : List A) (x : A)
      → any p xs ≡ false
      → p x ≡ true
      → first p (xs ++ x ∷ []) ≡ some x
  first-append p [] x n h = rw h refl
  first-append p (y ∷ ys) x n h = ground (arith, n, h, first-append p ys x)

  pub All-insert {κ} :
      (P : A → Type κ) (key : A → ℕ) (x : A) (xs : List A)
      → P x
      → All P xs
      → All P (insert_by key x xs)
  unfolding insert_by
  All-insert P key x [] h a = (h, tt)
  All-insert P key x (y ∷ ys) h a = elim (Bool-cases (leb (key x) (key y))) [
    | inl e ↦ rw e (h, a)
    | inr e ↦ rw e (a.0, All-insert P key x ys h a.1)
  ]

  pub All-sort {κ} :
      (P : A → Type κ) (key : A → ℕ) (xs : List A) → All P xs → All P (sort_by key xs)
  unfolding sort_by
  All-sort P key [] a = tt
  All-sort P key (x ∷ xs) a = All-insert P key x (sort_by key xs) a.0 (All-sort P key xs a.1)

  pub All-take {κ} : (P : A → Type κ) (n : ℕ) (xs : List A) → All P xs → All P (take n xs)
  All-take P zero xs a = tt
  All-take P (suc n) [] a = tt
  All-take P (suc n) (x ∷ xs) a = (a.0, All-take P n xs a.1)

  pub All-mono {κ} : (P Q : A → Type κ) (xs : List A) → ((x : A) → P x → Q x) → All P xs → All Q xs
  All-mono P Q [] f a = tt
  All-mono P Q (x ∷ xs) f a = (f x a.0, All-mono P Q xs f a.1)

  pub select-append :
      (p : A → Bool) (xs ys : List A) → select p (xs ++ ys) ≡ select p xs ++ select p ys
  select-append p [] ys = refl
  select-append p (x ∷ xs) ys = ground (arith, select-append p xs ys)

  -- a search that found something finds it still when rows are appended
  pub first_kept :
      (p : A → Bool) (xs ys : List A) (x : A) → first p xs ≡ some x → first p (xs ++ ys) ≡ some x
  first_kept p [] ys x h = absurd (cc)
  first_kept p (y ∷ xs) ys x h = ground (arith, first_kept p xs ys x)

  pub All-append {κ} : (P : A → Type κ) (xs ys : List A) → All P xs → All P ys → All P (xs ++ ys)
  All-append P [] ys a b = b
  All-append P (x ∷ xs) ys a b = (a.0, All-append P xs ys a.1 b)

  -- a row that does not pass adds nothing
  pub select-append_none :
      (p : A → Bool) (xs : List A) (x : A) → p x ≡ false → select p (xs ++ x ∷ []) ≡ select p xs
  select-append_none p [] x h = rw h refl
  select-append_none p (y ∷ ys) x h = ground (arith, select-append_none p ys x h)

  pub select-append_some :
      (p : A → Bool) (xs : List A) (x : A)
      → p x ≡ true
      → select p (xs ++ x ∷ []) ≡ select p xs ++ x ∷ []
  select-append_some p [] x h = rw h refl
  select-append_some p (y ∷ ys) x h = ground (arith, select-append_some p ys x h)

  pub select-select :
      (p q : A → Bool) (xs : List A) → select q (select p xs) ≡ select (λ x. p x && q x) xs
  select-select p q [] = refl
  select-select p q (x ∷ xs) = ground (arith, select-select p q xs)
