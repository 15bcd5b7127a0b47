-- ===== src/Heap/Queue.antt =====
-- What the scheduler promises: a queue in the order of time, priority and arrival, from which `due`
-- takes what has come due; and that the heap implements it.
use sose.Prelude.{
  decided→eq, decided_self, All, All-insert_sorted, All-mono, Bool, Bool-cases, List, [], arith,
  decided, false, if◌then◌else◌, insert_sorted, leb, not, refl, inl, inr, some, sym, total, true, ℕ,
  ◌+◌, ◌<◌, ◌≡◌, ◌≤◌, ◌∷◌, ◌||◌, ◌∙◌,
}
use sose.Schedule.Tables.{Command}
use sose.Heap.Scheduler.{Heapq, Scheduled, Scheduled-discrete, scheduled_leb}

-- What the documentation of `heapq` says: after pushes and pops on an empty list the first element
-- is a least one, a push adds its element, and a pop of a list that is not empty takes the first
-- one out.
pub record Lawful (q : Heapq) : Type 1 where
  pub IsHeap : List Scheduled → Type 0
  pub empty_heap : IsHeap []
  pub least :
      (root : Scheduled) (heap : List Scheduled)
      → IsHeap (root ∷ heap)
      → All (λ e. scheduled_leb root e ≡ true) heap
  pub push_heap : (heap : List Scheduled) (e : Scheduled) → IsHeap heap → IsHeap (q.heappush heap e)
  pub push_adds :
      (heap : List Scheduled) (e : Scheduled) (f : Scheduled → ℕ)
      → total f (q.heappush heap e) ≡ total f heap + f e
  pub pop_takes :
      (root : Scheduled) (heap : List Scheduled)
      → IsHeap (root ∷ heap)
      → (rest : List Scheduled) × (q.heappop (root ∷ heap) ≡ some (root, rest))
        × IsHeap rest
        × ((f : Scheduled → ℕ) → total f rest ≡ total f heap)

unfoldable pub split_due : ℕ → List Scheduled → List Command × List Scheduled
split_due at [] = ([], [])
split_due at (e ∷ queue) =
    let (ready, left) = split_due at queue in
    if leb e.due_at at then (e.command ∷ ready, left) else ([], e ∷ queue)

abbrev pub entry : Command → ℕ → ℕ → Scheduled
entry command prio n = record {
  due_at = command.due_at;
  priority = prio;
  sequence = n;
  command = command;
}

unfoldable pub enqueue : Command → ℕ → List Scheduled × ℕ → List Scheduled × ℕ
enqueue command prio (queue, n) =
    (insert_sorted scheduled_leb (entry command prio (n + 1)) queue, n + 1)

pub data QueueStep : Type 0 where
  schedules : Command → ℕ → QueueStep
  takes_due : ℕ → QueueStep

-- What the queue gives out over a list of operations.
unfoldable pub expected : List Scheduled × ℕ → List QueueStep → List (List Command)
unfolding split_due enqueue
expected state [] = []
expected state (schedules command prio ∷ ops) = expected (enqueue command prio state) ops
expected (queue, n) (takes_due at ∷ ops) =
    let (ready, left) = split_due at queue in ready ∷ expected (left, n) ops

-- Each row stands strictly before the later ones.
abbrev pub Ordered : List Scheduled → Type 0
Ordered [] = Unit
Ordered (e ∷ queue) = All (λ z. scheduled_leb z e ≡ false) queue × Ordered queue

abbrev pub Before : ℕ → List Scheduled → Type 0
Before n queue = All (λ e. e.sequence ≤ n) queue

pub insert_sorted-Ordered :
    (e : Scheduled) (n : ℕ) (queue : List Scheduled)
    → n < e.sequence
    → Before n queue
    → Ordered queue
    → Ordered (insert_sorted scheduled_leb e queue)
unfolding insert_sorted
insert_sorted-Ordered e n [] h b o = (tt, tt)
insert_sorted-Ordered e n (x ∷ queue) h b o = elim (Bool-cases (scheduled_leb e x)) [
  | inl first ↦ rw first ((ground arith, All-mono _ _ (λ z later. ground arith) queue o.0), o)
  | inr after ↦ rw after (
    All-insert_sorted (λ z. scheduled_leb z x ≡ false) scheduled_leb e queue after o.0,
    insert_sorted-Ordered e n queue h b.1 o.1,
  )
]

All→total :
    (test : Scheduled → Bool) (xs : List Scheduled)
    → All (λ z. test z ≡ true) xs
    → total (λ z. if test z then 0 else 1) xs ≡ 0
unfolding total
All→total test [] h = refl
All→total test (x ∷ xs) h = ground (arith, h.0, All→total test xs h.1)

total→All :
    (test : Scheduled → Bool) (xs : List Scheduled)
    → total (λ z. if test z then 0 else 1) xs ≡ 0
    → All (λ z. test z ≡ true) xs
unfolding total
total→All test [] h = tt
total→All test (x ∷ xs) h = (ground arith, total→All test xs (ground arith))

-- Lists with the same rows, in whatever order.
abbrev pub Rows : List Scheduled → List Scheduled → Type 0
Rows xs ys = (f : Scheduled → ℕ) → total f xs ≡ total f ys

-- The root of a heap with the rows of a queue is the queue's first row.
pub root-first :
    (x y : Scheduled) (heap queue : List Scheduled)
    → All (λ e. scheduled_leb x e ≡ true) heap
    → Rows (x ∷ heap) (y ∷ queue)
    → Ordered (y ∷ queue)
    → x ≡ y
unfolding total
root-first x y heap queue root rows o =
    let is_least = total→All (scheduled_leb x) (y ∷ queue) (
      sym (rows (λ z. if scheduled_leb x z then 0 else 1))
      ∙ All→total (scheduled_leb x) (x ∷ heap) (ground arith, root)) in
    let is_y = λ (z : Scheduled). decided (Scheduled-discrete z y) || not (scheduled_leb z y) in
    let only_y = total→All is_y (x ∷ heap) (
      rows (λ z. if is_y z then 0 else 1)
      ∙ All→total is_y (y ∷ queue) (
        ground (arith, decided_self (Scheduled-discrete y y) refl),
        All-mono _ _ (λ z later. ground arith) queue o.0,
      )) in
    decided→eq (Scheduled-discrete x y) (ground (arith, is_least.0, only_y.0))
