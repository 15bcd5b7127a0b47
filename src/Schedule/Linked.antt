-- ===== src/Schedule/Linked.antt =====
-- Every piece of work has its command, whatever workers interleave.
use sose.Prelude.{
  Bool, Bool-cases, List, String, Unique, Unique-delete, Unique-save, arith, delete, eq_iff, false,
  find, find-delete, find-key, find-save, has, inl, inr, none, ok, save, some, str_eq, true, ℕ, ◌≡◌,
}
use sose.Schedule.Tables.{
  Command, ScheduledWork, Schedules, command_keyed, delete_command, delete_scheduled_work,
  save_command, save_scheduled_work, work_keyed,
}
use sose.Schedule.Scheduler.{cancel_work, owned_by, schedule_body, work_for}

-- The work has its command, of the same owner and time.
abbrev pub HasCommand : Schedules → ScheduledWork → Type 0
HasCommand c w =
    (command : Command) × (find w.command_id c.commands ≡ some command)
    × (owned_by w.owner_id command.owner_id ≡ true)
    × (command.due_at ≡ w.due_at)

-- Work has distinct identities, each has its command, and no two share one.
pub record Linked (c : Schedules) : Type 0 where
  pub unique : Unique c.work
  pub linked : (id : String) (w : ScheduledWork) → find id c.work ≡ some w → HasCommand c w
  pub single :
      (a b : String) (v w : ScheduledWork)
      → find a c.work ≡ some v
      → find b c.work ≡ some w
      → v.command_id ≡ w.command_id
      → a ≡ b

module _ (deterministic_id : String → List String → String) (owner : String) (command : Command)
    (priority : ℕ) (w : ScheduledWork) (c c' : Schedules)
    (mine : owned_by owner command.owner_id ≡ true)
    (h : schedule_body deterministic_id owner command priority c ≡ ok (w, c')) (l : Linked c) where
  stored :
      (c' ≡ record { commands = save command c.commands; work = save w c.work })
      × (w.command_id ≡ command.command_id)
      × (w.owner_id ≡ owner)
      × (w.due_at ≡ command.due_at)
      × (find command.command_id c.commands ≡ none)
  unfolding save_command save_scheduled_work work_for has
  stored = (ground arith, ground arith, ground arith, ground arith, ground arith)

  schedule-linked : (id : String) (x : ScheduledWork) → find id c'.work ≡ some x → HasCommand c' x
  schedule-linked id x e = elim (Bool-cases (str_eq w.work_id id)) [
    | inl here ↦
        let (t, s, o, d, new) = stored in
        (
          command,
          ground (
            arith,
            t,
            s,
            find-save id w c.work,
            find-save x.command_id command c.commands,
            eq_iff command.command_id x.command_id,
          ),
          ground (arith, t, o, mine, find-save id w c.work),
          ground (arith, t, d, find-save id w c.work),
        )
    | inr other ↦
        let (t, s, o, d, new) = stored in
        let old : find id c.work ≡ some x = ground (arith, t, find-save id w c.work) in
        let (k, found, own, due) = l.linked id x old in
        (
          k,
          ground (
            arith,
            t,
            new,
            found,
            find-save x.command_id command c.commands,
            eq_iff command.command_id x.command_id,
          ),
          own,
          due,
        )
  ]

  -- No earlier work has the new command.
  new_command :
      (id : String) (x : ScheduledWork)
      → find id c.work ≡ some x
      → str_eq command.command_id x.command_id ≡ false
  new_command id x e =
      let (t, s, o, d, new) = stored in
      let (k, found, own, due) = l.linked id x e in
      ground (arith, new, found, eq_iff command.command_id x.command_id)

  schedule-single :
      (a b : String) (v x : ScheduledWork)
      → find a c'.work ≡ some v
      → find b c'.work ≡ some x
      → v.command_id ≡ x.command_id
      → a ≡ b
  schedule-single a b v x e f same =
      let (t, s, o, d, new) = stored in
      ground (
        arith,
        t,
        s,
        same,
        find-save a w c.work,
        find-save b w c.work,
        eq_iff w.work_id a,
        eq_iff w.work_id b,
        new_command a v,
        new_command b x,
        eq_iff command.command_id x.command_id,
        eq_iff command.command_id v.command_id,
        l.single a b v x,
      )

  pub schedule-Linked : Linked c'
  schedule-Linked = record {
    unique = rw stored.0 (Unique-save w c.work l.unique);
    linked = schedule-linked;
    single = schedule-single;
  }

module _ (owner id : String) (w : ScheduledWork) (b : Bool) (c c' : Schedules)
    (found : find id c.work ≡ some w) (h : cancel_work owner w c ≡ ok (b, c')) (l : Linked c) where
  removed : c' ≡ record { commands = delete w.command_id c.commands; work = delete id c.work }
  unfolding cancel_work delete_command delete_scheduled_work
  removed =
      let (k, e, own, due) = l.linked id w found in
      ground (arith, e, find-key w.command_id c.commands k, find-key id c.work w)

  cancel-linked : (a : String) (x : ScheduledWork) → find a c'.work ≡ some x → HasCommand c' x
  cancel-linked a x e =
      let old : find a c.work ≡ some x = ground (arith, removed, find-delete a id c.work) in
      let kept : str_eq id a ≡ false = ground (arith, removed, find-delete a id c.work) in
      let (k, has_it, own, due) = l.linked a x old in
      (
        k,
        ground (
          arith,
          removed,
          has_it,
          find-delete x.command_id w.command_id c.commands,
          eq_iff w.command_id x.command_id,
          eq_iff id a,
          l.single id a w x,
        ),
        own,
        due,
      )

  pub cancel_work-Linked : Linked c'
  cancel_work-Linked = record {
    unique = rw removed (Unique-delete id c.work l.unique);
    linked = cancel-linked;
    single = λ a a' v x e f same.
        ground
          (arith, removed, find-delete a id c.work, find-delete a' id c.work, l.single a a' v x);
  }
