-- ===== src/Prelude/Ordered.antt =====
-- Lists whose keys never fall from one item to the next.
use Prim.Native.Nat.{ℕ, ◌≤◌}
use mathlib.Core.Path.{◌≡◌}
use mathlib.Core.Bool.{false}
use mathlib.Core.Logic.{inl, inr}
use mathlib.Core.List.{List, [], ◌∷◌}
use native.Mathlib.Omega.{arith}
use unhalted.Prelude.Tests.{leb, Bool-cases}
use unhalted.Prelude.Lists.{All, insert_by, sort_by}
use unhalted.Prelude.Search.{All-insert, All-mono}

module _ {ℓ} {A : Type ℓ} (key : A → ℕ) where
  abbrev pub IsOrdered : List A → Type 0
  IsOrdered [] = Unit
  IsOrdered (x ∷ xs) = All (λ y. key x ≤ key y) xs × IsOrdered xs

  above : (x y : A) → leb (key x) (key y) ≡ false → key y ≤ key x
  above x y e = ground (arith, e)

  below :
      (x y : A) (ys : List A)
      → key x ≤ key y
      → All (λ z. key y ≤ key z) ys
      → All (λ z. key x ≤ key z) ys
  below x y ys h =
      All-mono (λ z. key y ≤ key z) (λ z. key x ≤ key z) ys (λ z k. omega (arith, h, k))

  insert-IsOrdered : (x : A) (xs : List A) → IsOrdered xs → IsOrdered (insert_by key x xs)
  unfolding insert_by
  insert-IsOrdered x [] o = (tt, tt)
  insert-IsOrdered x (y ∷ ys) o = elim (Bool-cases (leb (key x) (key y))) [
    | inl e ↦ let h : key x ≤ key y = ground (arith, e) in rw e ((h, below x y ys h o.0), o)
    | inr e ↦
        rw e (All-insert (λ z. key y ≤ key z) key x ys (above x y e) o.0, insert-IsOrdered x ys o.1)
  ]

  pub sort-IsOrdered : (xs : List A) → IsOrdered (sort_by key xs)
  unfolding sort_by
  sort-IsOrdered [] = tt
  sort-IsOrdered (x ∷ xs) = insert-IsOrdered x (sort_by key xs) (sort-IsOrdered xs)
