-- ===== src/Schedule/Order.antt =====
-- The order in which `pending` of core/durable.py gives out work, stated by the fields alone, and
-- that the sorted read of the table has it.
use sose.Prelude.{
  All, All-insert_sorted, All-mono, Bool, Bool-cases, List, [], arith, if◌then◌else◌, inl, inr,
  insert_sorted, keep, sorted, true, false, ◌<◌, ◌≡◌, ◌≤◌, ◌⊎◌, ◌∷◌, ℕ, total,
}
use sose.Schedule.Tables.{ScheduledWork, work_leb}

-- Earlier, or at the same time and more urgent, or also of the same priority and not younger.
abbrev pub Before : ScheduledWork → ScheduledWork → Type 0
Before a b =
    (a.due_at < b.due_at)
    ⊎ ((a.due_at ≡ b.due_at)
        × ((a.priority < b.priority) ⊎ ((a.priority ≡ b.priority) × (a.sequence ≤ b.sequence))))

-- Each row stands before all later ones.
abbrev pub InOrder : List ScheduledWork → Type 0
InOrder [] = Unit
InOrder (w ∷ rows) = All (λ z. Before w z) rows × InOrder rows

work_leb-Before : (a b : ScheduledWork) → work_leb a b ≡ true → Before a b
work_leb-Before a b h = ground (arith, h)

not_work_leb-Before : (a b : ScheduledWork) → work_leb a b ≡ false → Before b a
not_work_leb-Before a b h = ground (arith, h)

Before-trans : (a b c : ScheduledWork) → Before a b → Before b c → Before a c
Before-trans a b c h g = ground (arith, h, g)

insert_sorted-InOrder :
    (rows : List ScheduledWork) (w : ScheduledWork)
    → InOrder rows
    → InOrder (insert_sorted work_leb w rows)
unfolding insert_sorted
insert_sorted-InOrder [] w o = (tt, tt)
insert_sorted-InOrder (x ∷ rows) w o = elim (Bool-cases (work_leb w x)) [
  | inl first ↦
      let before = work_leb-Before w x first in
      rw first ((before, All-mono _ _ (λ z later. Before-trans w x z before later) rows o.0), o)
  | inr after ↦ rw after (
    All-insert_sorted (λ z. Before x z) work_leb w rows (not_work_leb-Before w x after) o.0,
    insert_sorted-InOrder rows w o.1,
  )
]

pub sorted-InOrder : (rows : List ScheduledWork) → InOrder (sorted work_leb rows)
unfolding sorted
sorted-InOrder [] = tt
sorted-InOrder (w ∷ rows) = insert_sorted-InOrder (sorted work_leb rows) w (sorted-InOrder rows)

All-keep {ℓ κ} :
    {A : Type ℓ} (P : A → Type κ) (test : A → Bool) (xs : List A) → All P xs → All P (keep test xs)
unfolding keep
All-keep P test [] h = tt
All-keep P test (x ∷ xs) h = elim (Bool-cases (test x)) [
  | inl kept ↦ rw kept (h.0, All-keep P test xs h.1)
  | inr gone ↦ rw gone (All-keep P test xs h.1)
]

pub keep-InOrder :
    (test : ScheduledWork → Bool) (rows : List ScheduledWork)
    → InOrder rows
    → InOrder (keep test rows)
unfolding keep
keep-InOrder test [] o = tt
keep-InOrder test (w ∷ rows) o = elim (Bool-cases (test w)) [
  | inl kept ↦ rw kept (All-keep (λ z. Before w z) test rows o.0, keep-InOrder test rows o.1)
  | inr gone ↦ rw gone (keep-InOrder test rows o.1)
]

-- What a filter keeps, counted by any weight.
pub total-keep {ℓ} :
    {A : Type ℓ} (f : A → ℕ) (test : A → Bool) (xs : List A)
    → total f (keep test xs) ≡ total (λ x. if test x then f x else 0) xs
unfolding keep total
total-keep f test [] = omega arith
total-keep f test (x ∷ xs) = ground (arith, total-keep f test xs)
