-- ===== src/Schedule/Restart.antt =====
-- A restart puts all work of the owner into the fresh backend.
use sose.Prelude.{
  All, All-of_find, All-sorted, Bool-cases, List, String, [], ap, arith, eq_iff, find, for_each,
  inl, inr, keep, length, map, ok, refl, some, str_eq, sym, subst, true, ℕ, ◌∙◌, ◌∷◌, ◌≡◌, ◌≤◌,
}
use sose.Schedule.Tables.{
  Command, ScheduledWork, Schedules, command_keyed, scheduled_work, work_keyed,
}
use sose.Schedule.Scheduler.{DurableScheduledItem, owned_by}
use sose.Schedule.Rebuild.{
  Call, rebuild, recovery_items, schedule_at, schedule_pending_items, validate_scheduled_items,
}
use sose.Schedule.System.{Step, empty, run, run-Linked}

abbrev Ready : List Command → ScheduledWork → Type 0
Ready commands w =
    (k : Command) × (find w.command_id commands ≡ some k) × (owned_by w.owner_id k.owner_id ≡ true)

recovery_items-ok :
    (owner : String) (commands : List Command) (rows : List ScheduledWork)
    → All (Ready commands) rows
    → (items : List DurableScheduledItem) × (recovery_items owner commands rows ≡ ok items)
      × (map (λ i. i.work) items ≡ keep (λ w. str_eq w.owner_id owner) rows)
unfolding recovery_items keep
recovery_items-ok owner commands [] h = ([], refl, refl)
recovery_items-ok owner commands (w ∷ rows) h =
    let (k, found, own) = h.0 in
    let (items, made, same) = recovery_items-ok owner commands rows h.1 in
    elim (Bool-cases (str_eq w.owner_id owner)) [
      | inl mine ↦
          let own' : owned_by owner k.owner_id ≡ true =
            subst (λ o. owned_by o k.owner_id ≡ true) ((eq_iff w.owner_id owner).0 mine) own in
          (
            record { work = w; command = k } ∷ items,
            ground (arith, mine, found, own', made),
            ground (arith, mine, same),
          )
      | inr other ↦ (items, ground (arith, other, made), ground (arith, other, same))
    ]

keep_all : (items : List DurableScheduledItem) → keep (λ i. true) items ≡ items
unfolding keep
keep_all [] = refl
keep_all (i ∷ items) = ap (λ is. i ∷ is) (keep_all items)

validated :
    (boundary : ℕ) (items : List DurableScheduledItem)
    → All (λ w. boundary ≤ w.due_at) (map (λ i. i.work) items)
    → validate_scheduled_items items boundary ≡ ok tt
unfolding validate_scheduled_items for_each
validated boundary [] h = refl
validated boundary (i ∷ items) h = ground (arith, h.0, validated boundary items h.1)

abbrev pub call_of : ScheduledWork → Call
call_of w = schedule_at w.due_at w.priority w.work_id

calls_of_work :
    (items : List DurableScheduledItem)
    → (schedule_pending_items items ≡ map call_of (map (λ i. i.work) items))
      × (length items ≡ length (map (λ i. i.work) items))
unfolding schedule_pending_items
calls_of_work [] = (refl, refl)
calls_of_work (i ∷ items) =
    let (calls, lengths) = calls_of_work items in
    (ap (λ cs. call_of i.work ∷ cs) calls, omega (arith, lengths))

rebuild_of :
    (owner : String) (boundary : ℕ) (c : Schedules) (items : List DurableScheduledItem)
    → recovery_items owner c.commands (scheduled_work c) ≡ ok items
    → validate_scheduled_items items boundary ≡ ok tt
    → rebuild owner boundary (some boundary) (λ i. true) (ok tt) c
      ≡ ok (schedule_pending_items items, length items)
unfolding rebuild
rebuild_of owner boundary c items made valid = ground (arith, made, valid, keep_all items)

-- After any history of schedules and cancellations, where the backend starts at the persisted time,
-- the other participants validate, no work is filtered out and none of the owner's work is due
-- before that time: the rebuild succeeds, and schedules each piece of work of the owner once, at its
-- time and priority, in order, and returns their number.
pub rebuild_complete :
    (deterministic_id : String → List String → String) (steps : List Step) (owner : String)
    (boundary : ℕ)
    → let c = run deterministic_id empty steps in
      let mine = keep (λ w. str_eq w.owner_id owner) (scheduled_work c) in
      All (λ w. boundary ≤ w.due_at) mine
      → rebuild owner boundary (some boundary) (λ i. true) (ok tt) c
        ≡ ok (map call_of mine, length mine)
unfolding scheduled_work
rebuild_complete deterministic_id steps owner boundary h =
    let c = run deterministic_id empty steps in
    let l = run-Linked deterministic_id steps in
    let (items, made, same) = recovery_items-ok owner c.commands (scheduled_work c) (
      All-sorted _ _ c.work (
        All-of_find _ c.work l.unique
          λ id w e. let (k, found, own, due) = l.linked id w e in (k, found, own))) in
    let valid : validate_scheduled_items items boundary ≡ ok tt =
      validated boundary items (subst (All (λ w. boundary ≤ w.due_at)) (sym same) h) in
    let (calls, lengths) = calls_of_work items in
    let calls' = calls ∙ ap (map call_of) same in
    let lengths' = lengths ∙ ap length same in
    rebuild_of owner boundary c items made valid ∙ rw (calls', lengths') refl
