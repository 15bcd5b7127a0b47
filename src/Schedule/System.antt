-- ===== src/Schedule/System.antt =====
-- Histories of the schedulers of any number of owners, each call with whatever tables it read.
use sose.Prelude.{
  All, All-of_find, All-sorted, Bool, Bool-cases, List, Option, Option-cases, Result, String, [],
  ap, arith, err, find, if◌then◌else◌, inl, inr, keep, map, none, ok, plan_cases, refl, some,
  str_eq, subst, sym, total, total-sorted, transaction, transaction_cases, true, ℕ, ◌∙◌, ◌∷◌, ◌≡◌,
}
use sose.Schedule.Tables.{
  Command, ScheduledWork, Schedules, command_keyed, no_check, scheduled_work, work_keyed, work_leb,
}
use sose.Schedule.Scheduler.{
  DurableScheduledItem, cancel, cancel_body, cancel_found, cancel_pending, find_pending, items_of,
  may_schedule, owned_by, pending, schedule, schedule_body,
}
use sose.Schedule.Order.{InOrder, keep-InOrder, sorted-InOrder, total-keep}
use sose.Schedule.Linked.{Linked, cancel_work-Linked, schedule-Linked}

abbrev pub empty : Schedules
empty = record { commands = []; work = [] }

pub data Step : Type 0 where
  schedules : String → Schedules → Option ℕ → Command → ℕ → Step
  cancels : String → String → Step
  cancels_pending : String → String → String → String → Schedules → Step

module _ (deterministic_id : String → List String → String) where
  unfoldable pub step : Schedules → Step → Schedules
  step c (schedules owner seen now command priority) =
      (schedule deterministic_id owner seen now command priority c).1
  step c (cancels owner id) = (cancel owner id c).1
  step c (cancels_pending owner entity_type entity_id name seen) =
      (cancel_pending owner entity_type entity_id name seen c).1

  unfoldable pub run : Schedules → List Step → Schedules
  unfolding step
  run c [] = c
  run c (s ∷ steps) = run (step c s) steps

may_schedule-ok :
    (deterministic_id : String → List String → String) (owner : String) (seen : Schedules)
    (now : Option ℕ) (command : Command)
    → may_schedule deterministic_id owner seen now command ≡ ok tt
    → owned_by owner command.owner_id ≡ true
unfolding may_schedule
may_schedule-ok deterministic_id owner seen now command h = ground (arith, h)

cancel_body-Linked :
    (owner id : String) (b : Bool) (c c' : Schedules)
    → cancel_body owner id c ≡ ok (b, c')
    → Linked c
    → Linked c'
unfolding cancel_body
cancel_body-Linked owner id b c c' h l = elim (Option-cases (find id c.work)) [
  | inl gone ↦ let same : c' ≡ c = ground (arith, gone, h) in rw same l
  | inr (w, e) ↦ cancel_work-Linked owner id w b c c' e (ground (arith, e, h)) l
]

cancel-Linked : (owner id : String) (c : Schedules) → Linked c → Linked (cancel owner id c).1
unfolding cancel
cancel-Linked owner id c l =
    transaction_cases (λ o. Linked o.1) no_check c (cancel_body owner id) (λ e. l)
      λ b c' body _. cancel_body-Linked owner id b c c' body l

found-Linked :
    (owner : String) (found : Option DurableScheduledItem) (c : Schedules)
    → Linked c
    → Linked (cancel_found owner found c).1
found-Linked owner none c l = l
found-Linked owner (some item) c l = cancel-Linked owner item.work.work_id c l

module _ (deterministic_id : String → List String → String) where
  step-Linked : (c : Schedules) (s : Step) → Linked c → Linked (step deterministic_id c s)
  unfolding step schedule cancel_pending
  step-Linked c (schedules owner seen now command priority) l =
      plan_cases (λ o. Linked o.1) (may_schedule deterministic_id owner seen now command)
        (λ e. (err e, c))
        (λ _. transaction no_check (schedule_body deterministic_id owner command priority) c)
        (λ e. l)
        λ u allowed.
          transaction_cases (λ o. Linked o.1) no_check c
            (schedule_body deterministic_id owner command priority) (λ e. l)
            λ w c' body _.
              schedule-Linked deterministic_id owner command priority w c c'
                (may_schedule-ok deterministic_id owner seen now command allowed) body l
  step-Linked c (cancels owner id) l = cancel-Linked owner id c l
  step-Linked c (cancels_pending owner entity_type entity_id name seen) l =
      plan_cases (λ (o : Result Bool × Schedules). Linked o.1)
        (find_pending owner entity_type entity_id name seen) (λ e. (err e, c))
        (λ found. cancel_found owner found c) (λ e. l) λ found e. found-Linked owner found c l

  runs-Linked :
      (c : Schedules) (steps : List Step) → Linked c → Linked (run deterministic_id c steps)
  unfolding run
  runs-Linked c [] l = l
  runs-Linked c (s ∷ steps) l = runs-Linked (step deterministic_id c s) steps (step-Linked c s l)

  empty-Linked : Linked empty
  unfolding find
  empty-Linked = record { unique = tt; linked = λ id w e. cc; single = λ a b v w e f same. cc }

  -- After any history of schedules and cancellations by any owners, however stale the tables that
  -- each call has read: work has distinct identities, each piece of work has its command, of the
  -- same owner and time, and no two pieces of work share a command.
  pub run-Linked : (steps : List Step) → Linked (run deterministic_id empty steps)
  run-Linked steps = runs-Linked empty steps empty-Linked

abbrev its_work : DurableScheduledItem → ScheduledWork
its_work i = i.work

-- The items of rows that have their commands.
items_of-ok :
    (owner : String) (commands : List Command) (rows : List ScheduledWork)
    → All (λ w. (k : Command) × (find w.command_id commands ≡ some k)) rows
    → (items : List DurableScheduledItem) × (items_of owner commands rows ≡ ok items)
      × (map its_work items ≡ keep (λ w. str_eq w.owner_id owner) rows)
      × All (λ i. find i.work.command_id commands ≡ some i.command) items
unfolding items_of keep
items_of-ok owner commands [] h = ([], refl, refl, tt)
items_of-ok owner commands (w ∷ rows) h =
    let (k, found) = h.0 in
    let (items, made, same, theirs) = items_of-ok owner commands rows h.1 in
    elim (Bool-cases (str_eq w.owner_id owner)) [
      | inl mine ↦ (
        record { work = w; command = k } ∷ items,
        ground (arith, mine, found, made),
        ground (arith, mine, same),
        (found, theirs),
      )
      | inr other ↦ (items, ground (arith, other, made), ground (arith, other, same), theirs)
    ]

-- After any such history `pending` does not raise. Each item has the command that the table holds
-- for its work; the items stand in the order of time, priority and sequence number; and they are
-- the owner's work, each piece once: `f` counts alike over the items and over the rows of the owner.
pub pending_complete :
    (deterministic_id : String → List String → String) (steps : List Step) (owner : String)
    → let c = run deterministic_id empty steps in
      (items : List DurableScheduledItem) × (pending owner c ≡ ok items)
      × All (λ i. find i.work.command_id c.commands ≡ some i.command) items
      × InOrder (map its_work items)
      × ((f : ScheduledWork → ℕ)
          → total f (map its_work items)
            ≡ total (λ w. if str_eq w.owner_id owner then f w else 0) c.work)
unfolding pending scheduled_work
pending_complete deterministic_id steps owner =
    let c = run deterministic_id empty steps in
    let l = run-Linked deterministic_id steps in
    let own = λ (w : ScheduledWork). str_eq w.owner_id owner in
    let (items, made, same, theirs) = items_of-ok owner c.commands (scheduled_work c) (
      All-sorted _ _ c.work (
        All-of_find _ c.work l.unique
          λ id w e. let (k, found, own, due) = l.linked id w e in (k, found))) in
    (
      items,
      made,
      theirs,
      subst InOrder (sym same) (keep-InOrder own (scheduled_work c) (sorted-InOrder c.work)),
      λ f. ap (total f) same ∙ total-keep f own (scheduled_work c) ∙ total-sorted work_leb _ c.work,
    )
