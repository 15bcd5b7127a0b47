-- ===== src/Prelude/Dict/Defs.antt =====
-- Python's `dict` of records, each stored under its own identity: `d[record.id] = record`.
-- A table is the list of the dict's values in insertion order.
use mathlib.Core.Path.{◌≡◌}
use mathlib.Core.Bool.{Bool, true, false, ◌||◌}
use mathlib.Core.Option.{Option, none, some}
use mathlib.Core.List.{List, [], ◌∷◌}
use Prim.Native.Nat.{ℕ, ◌+◌, max}
use Prim.Native.String.{String}
use text.Mathlib.Text.{◌==◌ as str_eq}
use sose.Prelude.Tests.{if◌then◌else◌}

pub record Keyed {ℓ} (V : Type ℓ) : Type ℓ where
  pub key : V → String

abbrev pub is_some {ℓ} : {A : Type ℓ} → Option A → Bool
is_some none = false
is_some (some _) = true

module _ {ℓ} {V : Type ℓ} ⦃k : Keyed V⦄ where
  -- `d.get(id)`, and `next((r for r in rows if r.id == id), None)` over any list of rows
  unfoldable pub find : String → List V → Option V
  find id [] = none
  find id (r ∷ rows) = if str_eq (k.key r) id then some r else find id rows

  -- `id in d`, and `any(r.id == id for r in rows)`
  unfoldable pub has : String → List V → Bool
  unfolding find
  has id rows = is_some (find id rows)

  -- `d[r.id] = r`
  unfoldable pub save : V → List V → List V
  save r [] = r ∷ []
  save r (x ∷ rows) = if str_eq (k.key x) (k.key r) then r ∷ rows else x ∷ save r rows

  -- `d.pop(id, None)`
  unfoldable pub delete : String → List V → List V
  delete id [] = []
  delete id (x ∷ rows) = let rest = delete id rows in if str_eq (k.key x) id then rest else x ∷ rest

  -- No identity stands twice.
  abbrev pub Unique : List V → Type ℓ
  Unique [] = Unit
  Unique (r ∷ rows) = (find (k.key r) rows ≡ none) × Unique rows

module _ {ℓ} {V : Type ℓ} where
  -- `sorted(rows, key=...)`, stable, for a test `before a b` that says that `a` may precede `b`
  unfoldable pub insert_sorted : (V → V → Bool) → V → List V → List V
  insert_sorted before r [] = r ∷ []
  insert_sorted before r (x ∷ rows) =
      if before r x then r ∷ x ∷ rows else x ∷ insert_sorted before r rows

  unfoldable pub sorted : (V → V → Bool) → List V → List V
  unfolding insert_sorted
  sorted before [] = []
  sorted before (r ∷ rows) = insert_sorted before r (sorted before rows)

  -- `sum(f(r) for r in rows)`
  unfoldable pub total : (V → ℕ) → List V → ℕ
  total f [] = 0
  total f (r ∷ rows) = f r + total f rows

  -- `max((f(r) for r in rows), default=0)`
  unfoldable pub max_of : (V → ℕ) → List V → ℕ
  max_of f [] = 0
  max_of f (r ∷ rows) = max (f r) (max_of f rows)

-- `first.keys() & second.keys()` is not empty
unfoldable pub overlaps {ℓ κ} :
    {V : Type ℓ} {W : Type κ} ⦃k : Keyed V⦄ ⦃l : Keyed W⦄ → List V → List W → Bool
unfolding has
overlaps [] others = false
overlaps ⦃k = k⦄ (r ∷ rows) others = has (k.key r) others || overlaps rows others
