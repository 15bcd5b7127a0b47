-- ===== src/Prelude/Dict/Laws.antt =====
-- What a lookup gives after each operation on a table, and what keeps identities distinct.
use mathlib.Core.Path.{◌≡◌, refl, ap, ◌∙◌}
use mathlib.Core.Bool.{Bool, false}
use mathlib.Core.Option.{none, some}
use mathlib.Core.List.{List, [], ◌∷◌}
use mathlib.Core.Logic.{inl, inr}
use Prim.Native.Nat.{ℕ, ◌+◌, ◌≤◌}
use Prim.Native.String.{String}
use native.Mathlib.Omega.{arith}
use text.Mathlib.Text.{◌==◌ as str_eq}
use text.Mathlib.TextEquality.{eq_iff}
use text.Mathlib.TextPositions.{eq_refl}
use sose.Prelude.Tests.{Option-cases, if◌then◌else◌}
use sose.Prelude.Dict.Defs.{
  has, Keyed, Unique, delete, find, insert_sorted, max_of, overlaps, save, sorted, total,
}

module _ {ℓ} {V : Type ℓ} ⦃k : Keyed V⦄ where
  pub find-save :
      (id : String) (r : V) (rows : List V)
      → find id (save r rows) ≡ (if str_eq (k.key r) id then some r else find id rows)
  unfolding find save
  find-save id r [] = refl
  find-save id r (x ∷ rows) = ground (
    arith,
    eq_iff (k.key x) (k.key r),
    eq_iff (k.key x) id,
    eq_iff (k.key r) id,
    find-save id r rows,
  )

  pub find-delete :
      (id gone : String) (rows : List V)
      → find id (delete gone rows) ≡ (if str_eq gone id then none else find id rows)
  unfolding find delete
  find-delete id gone [] = ground arith
  find-delete id gone (x ∷ rows) =
      ground (
        arith,
        eq_iff (k.key x) gone,
        eq_iff (k.key x) id,
        eq_iff gone id,
        find-delete id gone rows,
      )

  pub find-insert_sorted :
      (before : V → V → Bool) (id : String) (r : V) (rows : List V)
      → find (k.key r) rows ≡ none
      → find id (insert_sorted before r rows)
        ≡ (if str_eq (k.key r) id then some r else find id rows)
  unfolding find insert_sorted
  find-insert_sorted before id r [] h = refl
  find-insert_sorted before id r (x ∷ rows) h = ground (
    arith,
    eq_iff (k.key x) (k.key r),
    eq_iff (k.key x) id,
    eq_iff (k.key r) id,
    find-insert_sorted before id r rows,
  )

  pub find-sorted :
      (before : V → V → Bool) (id : String) (rows : List V)
      → Unique rows
      → find id (sorted before rows) ≡ find id rows
  unfolding find sorted
  find-sorted before id [] u = refl
  find-sorted before id (r ∷ rows) u =
      find-insert_sorted before id r (sorted before rows)
        (find-sorted before (k.key r) rows u.1 ∙ u.0)
      ∙ ap (λ o. if str_eq (k.key r) id then some r else o) (find-sorted before id rows u.1)

  pub Unique-delete : (id : String) (rows : List V) → Unique rows → Unique (delete id rows)
  unfolding find delete
  Unique-delete id [] u = tt
  Unique-delete id (x ∷ rows) u = ground (
    arith,
    eq_iff (k.key x) id,
    eq_iff id (k.key x),
    find-delete (k.key x) id rows,
    Unique-delete id rows u.1,
  )

  pub Unique-save : (r : V) (rows : List V) → Unique rows → Unique (save r rows)
  unfolding find save
  Unique-save r [] u = (refl, tt)
  Unique-save r (x ∷ rows) u = ground (
    arith,
    eq_iff (k.key x) (k.key r),
    eq_iff (k.key r) (k.key x),
    find-save (k.key x) r rows,
    Unique-save r rows u.1,
  )

  pub find-key : (id : String) (rows : List V) (r : V) → find id rows ≡ some r → k.key r ≡ id
  unfolding find
  find-key id [] r h = cc
  find-key id (x ∷ rows) r h = ground (arith, eq_iff (k.key x) id, find-key id rows r)

  pub find-le-max_of :
      (f : V → ℕ) (id : String) (rows : List V) (r : V)
      → find id rows ≡ some r
      → f r ≤ max_of f rows
  unfolding find max_of
  find-le-max_of f id [] r h = cc
  find-le-max_of f id (x ∷ rows) r h = ground (arith, find-le-max_of f id rows r)

  -- A new identity adds its share to a sum.
  pub total-save :
      (f : V → ℕ) (r : V) (rows : List V)
      → find (k.key r) rows ≡ none
      → total f (save r rows) ≡ total f rows + f r
  unfolding find save total
  total-save f r [] h = omega arith
  total-save f r (x ∷ rows) h = ground (arith, total-save f r rows)

module _ {ℓ κ} {V : Type ℓ} {W : Type κ} ⦃k : Keyed V⦄ ⦃l : Keyed W⦄ where
  pub overlaps-none :
      (rows : List V) (others : List W) (id : String) (r : V)
      → overlaps rows others ≡ false
      → find id rows ≡ some r
      → find id others ≡ none
  unfolding overlaps find
  overlaps-none [] others id r h e = cc
  overlaps-none (x ∷ rows) others id r h e =
      ground (arith, eq_iff (k.key x) id, overlaps-none rows others id r)

module _ {ℓ} {V : Type ℓ} ⦃k : Keyed V⦄ (f : V → ℕ) where
  pub total-eq-zero :
      (rows : List V)
      → Unique rows
      → ((id : String) (r : V) → find id rows ≡ some r → f r ≡ 0)
      → total f rows ≡ 0
  unfolding find total
  total-eq-zero [] u h = refl
  total-eq-zero (x ∷ rows) u h =
      omega (arith, h (k.key x) x (rw (eq_refl (k.key x))), total-eq-zero rows u.1 later)
    where
      later : (id : String) (r : V) → find id rows ≡ some r → f r ≡ 0
      later id r e = h id r (ground (arith, eq_iff (k.key x) id, u.0))

module _ {ℓ κ} {V : Type ℓ} {W : Type κ} ⦃k : Keyed V⦄ ⦃l : Keyed W⦄ where
  pub overlaps-false :
      (rows : List V) (others : List W)
      → Unique rows
      → ((id : String) (r : V) → find id rows ≡ some r → find id others ≡ none)
      → overlaps rows others ≡ false
  unfolding overlaps find
  overlaps-false [] others u h = refl
  overlaps-false (x ∷ rows) others u h =
      ground (arith, h (k.key x) x (rw (eq_refl (k.key x))), overlaps-false rows others u.1 later)
    where
      later : (id : String) (r : V) → find id rows ≡ some r → find id others ≡ none
      later id r e = h id r (ground (arith, eq_iff (k.key x) id, u.0))

module _ {ℓ} {V : Type ℓ} ⦃k : Keyed V⦄ where
  pub delete_missing : (id : String) (rows : List V) → find id rows ≡ none → delete id rows ≡ rows
  unfolding find delete
  delete_missing id [] h = refl
  delete_missing id (x ∷ rows) h = ground (arith, delete_missing id rows)

  -- `if id in d: d.pop(id)` is `d.pop(id, None)`.
  pub delete_if-has :
      (id : String) (rows : List V)
      → (if has id rows then delete id rows else rows) ≡ delete id rows
  unfolding has
  delete_if-has id rows = elim (Option-cases (find id rows)) [
    | inl missing ↦ ground (arith, delete_missing id rows)
    | inr (r, e) ↦ ground arith
  ]

  Unique-insert_sorted :
      (before : V → V → Bool) (r : V) (rows : List V)
      → find (k.key r) rows ≡ none
      → Unique rows
      → Unique (insert_sorted before r rows)
  unfolding find insert_sorted
  Unique-insert_sorted before r [] new u = (new, u)
  Unique-insert_sorted before r (x ∷ rows) new u = ground (
    arith,
    new,
    u,
    eq_iff (k.key x) (k.key r),
    eq_iff (k.key r) (k.key x),
    find-insert_sorted before (k.key x) r rows,
    Unique-insert_sorted before r rows,
  )

  pub Unique-sorted :
      (before : V → V → Bool) (rows : List V) → Unique rows → Unique (sorted before rows)
  unfolding sorted
  Unique-sorted before [] u = u
  Unique-sorted before (r ∷ rows) u =
      Unique-insert_sorted before r (sorted before rows)
        (find-sorted before (k.key r) rows u.1 ∙ u.0) (Unique-sorted before rows u.1)
