-- ===== src/Heap/Ends.antt =====
-- The loop of `due` ends by its own condition.
use sose.Prelude.{
  Bool-cases, List, [], ap, arith, false, inl, inr, leb, length, length-total, refl, suc, sym, zero,
  ℕ, ◌≡◌, ◌≤◌, ◌∷◌, ◌∙◌,
}
use sose.Heap.Scheduler.{Heapq, Scheduled, due_within}
use sose.Heap.Queue.{Lawful, Rows}

-- The condition of the `while` is false.
abbrev pub Stopped : ℕ → List Scheduled → Type 0
Stopped at [] = Unit
Stopped at (root ∷ heap) = leb root.due_at at ≡ false

module _ (q : Heapq) (law : Lawful q) where
  length-pop : (rest heap : List Scheduled) → Rows rest heap → length rest ≡ length heap
  length-pop rest heap rows = length-total rest ∙ rows (λ z. 1) ∙ sym (length-total heap)

  due_within_enough :
      (turns more at : ℕ) (heap : List Scheduled)
      → law.IsHeap heap
      → length heap ≤ turns
      → length heap ≤ more
      → (due_within q turns at heap ≡ due_within q more at heap)
        × Stopped at (due_within q turns at heap).1
  unfolding due_within
  due_within_enough zero zero at [] v h g = (refl, tt)
  due_within_enough zero (suc more) at [] v h g = (refl, tt)
  due_within_enough (suc turns) zero at [] v h g = (refl, tt)
  due_within_enough (suc turns) (suc more) at [] v h g = (refl, tt)
  due_within_enough zero more at (x ∷ heap) v h g = absurd (omega arith)
  due_within_enough turns zero at (x ∷ heap) v h g = absurd (omega arith)
  due_within_enough (suc turns) (suc more) at (x ∷ heap) v h g =
      elim (Bool-cases (leb x.due_at at)) [
        | inr late ↦ rw (late, due_within) (refl, late)
        | inl on_time ↦
            let (rest, popped, rest_heap, rest_rows) = law.pop_takes x heap v in
            let fits = length-pop rest heap rest_rows in
            let (same, stopped) =
              due_within_enough turns more at rest rest_heap (omega arith) (omega arith) in
            rw (on_time, popped, due_within) (ap (λ o. (x.command ∷ o.0, o.1)) same, stopped)
      ]

  -- On a heap, as many turns as it has entries are enough for the loop of `due`: it ends because the
  -- heap is empty or its first entry is not yet due, and more turns give the same.
  pub due_terminates :
      (more at : ℕ) (heap : List Scheduled)
      → law.IsHeap heap
      → length heap ≤ more
      → (due_within q (length heap) at heap ≡ due_within q more at heap)
        × Stopped at (due_within q (length heap) at heap).1
  due_terminates more at heap v h = due_within_enough (length heap) more at heap v (omega arith) h
