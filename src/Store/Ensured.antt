-- ===== src/Store/Ensured.antt =====
-- core/stores.py: histories in which an item is brought in by `ensure_put` alone, by callers that
-- retry at any moment. What the backend does before `ensure_put` returns is any list of steps.
use sose.Prelude.{
  All, Bool, List, Option, Result, String, [], false, ok, true, str_eq, ℕ, ◌≡◌, ◌≤◌, ◌∷◌,
}
use sose.Store.Records.{DurableStoreItem}
use sose.Store.Tables.{Stores}
use sose.Store.Ensure.{ensure_put}
use sose.Store.Invariant.{Inv}
use sose.Store.Ledger.{counted}
use sose.Store.System.{Step, defines, gets, puts, run, selects, stores}

pub data EnsureStep : Type 0 where
  ensures : String → String → String → ℕ → ℕ → List Step → EnsureStep
  runs : List Step → EnsureStep

-- The step is no `put` of the item by itself.
abbrev pub NoPut : String → Step → Type 0
NoPut id (defines d) = Unit
NoPut id (puts seen store_name item_id value at prio) = str_eq item_id id ≡ false
NoPut id (gets seen store_name k at key) = Unit
NoPut id (stores seen item_id) = Unit
NoPut id (selects seen again k b at) = Unit

abbrev pub OnlyEnsured : String → EnsureStep → Type 0
OnlyEnsured id (ensures store_name item_id value at prio inner) = All (NoPut id) inner
OnlyEnsured id (runs inner) = All (NoPut id) inner

-- The tables meet the invariant, and count the item at most once.
record AtMostOnce (id : String) (c : Stores) : Type 0 where
  inv : Inv c
  once : counted id c ≤ 1

module _ (filters : String → Bool) where
  unfoldable pub ensure_step : Stores → EnsureStep → Stores
  ensure_step c (ensures store_name item_id value at prio inner) =
      (ensure_put (λ t. run filters t inner) store_name item_id value at prio c).1
  ensure_step c (runs inner) = run filters c inner

  unfoldable pub ensure_run : Stores → List EnsureStep → Stores
  unfolding ensure_step
  ensure_run c [] = c
  ensure_run c (s ∷ steps) = ensure_run (ensure_step c s) steps

  -- What a call of `ensure_put` makes of the count of any item.
  module _ (id store_name item_id value : String) (at prio : ℕ) (inner : List Step)
      (n : All (NoPut id) inner) (c : Stores) (a : AtMostOnce id c) where
    record Outcome (o : Result (Option DurableStoreItem) × Stores) : Type 0 where
      keeps : AtMostOnce id o.1
      grows : counted id c ≤ counted id o.1
      brought :
          (r : Option DurableStoreItem) → o.0 ≡ ok r → str_eq item_id id ≡ true → counted id o.1 ≡ 1
