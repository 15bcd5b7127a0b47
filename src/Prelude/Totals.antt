-- ===== src/Prelude/Totals.antt =====
-- Sums over rows, which say which rows a list holds and how often, in whatever order.
use Prim.Native.Nat.{ℕ, ◌+◌, ◌≤◌}
use mathlib.Core.Path.{◌≡◌, refl}
use mathlib.Core.Bool.{Bool}
use mathlib.Core.List.{List, [], ◌∷◌, ◌++◌, map}
use mathlib.Core.Option.{some}
use Prim.Native.String.{String}
use native.Mathlib.Omega.{arith}
use sose.Prelude.Tests.{if◌then◌else◌}
use sose.Prelude.Dict.{Keyed, delete, find, insert_sorted, save, sorted, total}
use sose.Prelude.Lists.{keep, length}

pub total-append {ℓ} :
    {A : Type ℓ} (f : A → ℕ) (xs ys : List A) → total f (xs ++ ys) ≡ total f xs + total f ys
unfolding total
total-append f [] ys = omega arith
total-append f (x ∷ xs) ys = omega (arith, total-append f xs ys)

pub total-map {ℓ κ} :
    {A : Type ℓ} {B : Type κ} (f : B → ℕ) (g : A → B) (xs : List A)
    → total f (map g xs) ≡ total (λ x. f (g x)) xs
unfolding total
total-map f g [] = refl
total-map f g (x ∷ xs) = omega (arith, total-map f g xs)

pub total-insert_sorted {ℓ} :
    {A : Type ℓ} (before : A → A → Bool) (f : A → ℕ) (x : A) (xs : List A)
    → total f (insert_sorted before x xs) ≡ f x + total f xs
unfolding total insert_sorted
total-insert_sorted before f x [] = refl
total-insert_sorted before f x (y ∷ ys) = ground (arith, total-insert_sorted before f x ys)

-- Sorting keeps the rows.
pub total-sorted {ℓ} :
    {A : Type ℓ} (before : A → A → Bool) (f : A → ℕ) (xs : List A)
    → total f (sorted before xs) ≡ total f xs
unfolding total sorted
total-sorted before f [] = refl
total-sorted before f (x ∷ xs) =
    omega (arith, total-insert_sorted before f x (sorted before xs), total-sorted before f xs)

pub length-total {ℓ} : {A : Type ℓ} (xs : List A) → length xs ≡ total (λ x. 1) xs
unfolding total
length-total [] = refl
length-total (x ∷ xs) = omega (arith, length-total xs)

-- The number of rows that a filter keeps.
pub length-keep {ℓ} :
    {A : Type ℓ} (test : A → Bool) (xs : List A)
    → length (keep test xs) ≡ total (λ x. if test x then 1 else 0) xs
unfolding keep total
length-keep test [] = refl
length-keep test (x ∷ xs) = ground (arith, length-keep test xs)

module _ {ℓ} {V : Type ℓ} ⦃k : Keyed V⦄ (f : V → ℕ) where
  pub total-save-≤ : (r : V) (rows : List V) → total f (save r rows) ≤ total f rows + f r
  unfolding save total
  total-save-≤ r [] = omega arith
  total-save-≤ r (x ∷ rows) = ground (arith, total-save-≤ r rows)

  pub total-delete-≤ : (id : String) (rows : List V) → total f (delete id rows) ≤ total f rows
  unfolding delete total
  total-delete-≤ id [] = omega arith
  total-delete-≤ id (x ∷ rows) = ground (arith, total-delete-≤ id rows)

  -- A row that is there takes its share with it.
  pub total-delete :
      (id : String) (rows : List V) (r : V)
      → find id rows ≡ some r
      → total f (delete id rows) + f r ≤ total f rows
  unfolding find delete total
  total-delete id [] r h = cc
  total-delete id (x ∷ rows) r h = ground (arith, total-delete id rows r, total-delete-≤ id rows)
