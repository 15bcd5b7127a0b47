-- ===== src/Prelude/Lists.antt =====
-- Loops over lists, predicates on all rows, and lengths as native numbers.
use Prim.Native.String.{String}
use Prim.Native.Nat.{ℕ, zero, suc, ◌+◌, ◌-◌, ◌≤◌}
use mathlib.Core.Path.{◌≡◌, refl, subst, ap}
use mathlib.Core.Logic.{inl, inr}
use mathlib.Core.Option.{some, some-injective}
use native.Mathlib.Omega.{arith}
use text.Mathlib.TextEquality.{eq_iff}
use text.Mathlib.TextPositions.{eq_refl}
use mathlib.Core.Bool.{Bool, true, false}
use mathlib.Core.List.{List, [], ◌∷◌, ◌++◌}
use text.Mathlib.Text.{◌==◌ as str_eq}
use sose.Prelude.Tests.{Bool-cases, if◌then◌else◌}
use sose.Prelude.Results.{Result, bind-eq-ok, ok, ◌>>◌}
use sose.Prelude.Dict.{Keyed, Unique, delete, find, insert_sorted, save, sorted}

abbrev pub length {ℓ} : {A : Type ℓ} → List A → ℕ
length [] = 0
length (x ∷ xs) = suc (length xs)

-- A `for` loop whose body may raise.
unfoldable pub for_each {ℓ} : {A : Type ℓ} → (A → Result (Unit {0})) → List A → Result (Unit {0})
for_each f [] = ok tt
for_each f (x ∷ xs) = let rest = for_each f xs in f x >> rest

abbrev pub All {ℓ κ} : {A : Type ℓ} → (A → Type κ) → List A → Type κ
All P [] = Unit
All P (x ∷ xs) = P x × All P xs

pub for_each-ok {ℓ} :
    {A : Type ℓ} (f : A → Result (Unit {0})) (xs : List A)
    → All (λ x. f x ≡ ok tt) xs
    → for_each f xs ≡ ok tt
unfolding for_each
for_each-ok f [] h = refl
for_each-ok f (x ∷ xs) h = rw (h.0) (for_each-ok f xs h.1)

pub for_each-All {ℓ} :
    {A : Type ℓ} (f : A → Result (Unit {0})) (xs : List A)
    → for_each f xs ≡ ok tt
    → All (λ x. f x ≡ ok tt) xs
unfolding for_each
for_each-All f [] h = tt
for_each-All f (x ∷ xs) h =
    let (_, first, rest) = bind-eq-ok (f x) _ h in (first, for_each-All f xs rest)

module _ {ℓ κ ι} {A : Type ℓ} (P : A → Type κ) (Q : A → Type ι) where
  pub All-mono : ((x : A) → P x → Q x) → (xs : List A) → All P xs → All Q xs
  All-mono f [] h = tt
  All-mono f (x ∷ xs) h = (f x h.0, All-mono f xs h.1)

module _ {ℓ κ} {A : Type ℓ} (P : A → Type κ) where
  All-if : (b : Bool) (xs ys : List A) → All P xs → All P ys → All P (if b then xs else ys)
  All-if true xs ys h g = h
  All-if false xs ys h g = g

  pub All-insert_sorted :
      (before : A → A → Bool) (r : A) (xs : List A)
      → P r
      → All P xs
      → All P (insert_sorted before r xs)
  unfolding insert_sorted
  All-insert_sorted before r [] p h = (p, tt)
  All-insert_sorted before r (x ∷ xs) p h =
      All-if (before r x) (r ∷ x ∷ xs) (x ∷ insert_sorted before r xs) (p, h)
        (h.0, All-insert_sorted before r xs p h.1)

  pub All-sorted : (before : A → A → Bool) (xs : List A) → All P xs → All P (sorted before xs)
  unfolding sorted
  All-sorted before [] h = tt
  All-sorted before (x ∷ xs) h =
      All-insert_sorted before x (sorted before xs) h.0 (All-sorted before xs h.1)

module _ {ℓ κ} {A : Type ℓ} ⦃k : Keyed A⦄ (P : A → Type κ) where
  pub All-save : (r : A) (xs : List A) → P r → All P xs → All P (save r xs)
  unfolding save
  All-save r [] p h = (p, tt)
  All-save r (x ∷ xs) p h =
      All-if P (str_eq (k.key x) (k.key r)) (r ∷ xs) (x ∷ save r xs) (p, h.1)
        (h.0, All-save r xs p h.1)

  pub All-delete : (id : String) (xs : List A) → All P xs → All P (delete id xs)
  unfolding delete
  All-delete id [] h = tt
  All-delete id (x ∷ xs) h =
      All-if P (str_eq (k.key x) id) (delete id xs) (x ∷ delete id xs) (All-delete id xs h.1)
        (h.0, All-delete id xs h.1)

module _ {ℓ κ} {A : Type ℓ} ⦃k : Keyed A⦄ (P : A → Type κ) where
  -- A fact about every row holds of the row that a lookup finds, and the other way round.
  pub find_of_All : (id : String) (xs : List A) (r : A) → All P xs → find id xs ≡ some r → P r
  unfolding find
  find_of_All id [] r h e = cc
  find_of_All id (x ∷ xs) r h e = elim (Bool-cases (str_eq (k.key x) id)) [
    | inl hit ↦ subst P (some-injective _ _ (rw hit at e)) h.0
    | inr other ↦ find_of_All id xs r h.1 (rw other at e)
  ]

  pub All-of_find :
      (xs : List A) → Unique xs → ((id : String) (r : A) → find id xs ≡ some r → P r) → All P xs
  unfolding find
  All-of_find [] u h = tt
  All-of_find (x ∷ xs) u h =
      (h (k.key x) x (rw (eq_refl (k.key x))), All-of_find xs u.1 (λ id r e. h id r (later id r e)))
    where
      later : (id : String) (r : A) → find id xs ≡ some r → find id (x ∷ xs) ≡ some r
      later id r e = ground (arith, eq_iff (k.key x) id, u.0)

-- `[x for x in xs if p(x)]`
unfoldable pub keep {ℓ} : {A : Type ℓ} → (A → Bool) → List A → List A
keep p [] = []
keep p (x ∷ xs) = let rest = keep p xs in if p x then x ∷ rest else rest

-- `xs[n:]`
abbrev pub drop {ℓ} : {A : Type ℓ} → ℕ → List A → List A
drop zero xs = xs
drop (suc n) [] = []
drop (suc n) (x ∷ xs) = drop n xs

-- `xs[:n]`
abbrev pub take {ℓ} : {A : Type ℓ} → ℕ → List A → List A
take zero xs = []
take (suc n) [] = []
take (suc n) (x ∷ xs) = x ∷ take n xs

module _ {ℓ} {A : Type ℓ} where
  pub length-append : (xs ys : List A) → length (xs ++ ys) ≡ length xs + length ys
  length-append [] ys = omega arith
  length-append (x ∷ xs) ys = omega (arith, length-append xs ys)

  pub length-drop : (n : ℕ) (xs : List A) → length (drop n xs) ≡ length xs - n
  length-drop zero xs = omega arith
  length-drop (suc n) [] = omega arith
  length-drop (suc n) (x ∷ xs) = omega (arith, length-drop n xs)

  pub take-append : (n : ℕ) (xs ys : List A) → n ≤ length xs → take n (xs ++ ys) ≡ take n xs
  take-append zero xs ys h = refl
  take-append (suc n) [] ys h = elim h [ ]
  take-append (suc n) (x ∷ xs) ys h = ap (◌∷◌ x) (take-append n xs ys (omega arith))

  pub take-append-drop : (n : ℕ) (xs : List A) → take n xs ++ drop n xs ≡ xs
  take-append-drop zero xs = refl
  take-append-drop (suc n) [] = refl
  take-append-drop (suc n) (x ∷ xs) = ap (◌∷◌ x) (take-append-drop n xs)

  pub take_all : (n : ℕ) (xs : List A) → length xs ≤ n → take n xs ≡ xs
  take_all zero [] h = refl
  take_all zero (x ∷ xs) h = elim h [ ]
  take_all (suc n) [] h = refl
  take_all (suc n) (x ∷ xs) h = ap (◌∷◌ x) (take_all n xs (omega arith))
