-- ===== src/Container/Invariant.antt =====
-- The invariant of the container tables, kept by every transaction whatever another worker
-- committed between the reads and the transaction.
use sose.Prelude.{
  Bool-cases, Option-cases, String, Unique, Unique-delete, Unique-save, arith, eq_iff, false, find,
  find-delete, find-key, find-save, has, inl, inr, none, ok, some, str_eq, subst, true, ℕ, ◌<◌, ◌≡◌,
  ◌≤◌,
}
use sose.Container.Records.{
  ContainerDefinition, ContainerOperationIntent, ContainerOperationResult, ContainerState,
  Operation, definition_keyed, intent_keyed, make_intent, result_keyed, state_keyed,
}
use sose.Container.Tables.{Containers, empty}
use sose.Container.Manager.{Plan, commit, define, next_level, next_sequence, plan_request, request}
use sose.Container.Rebuild.{validate_result_record}
use sose.Container.Define.{Defined, define_cases, request_cases}
use sose.Container.Commit.{Committed, IsPlan, commit_cases}

-- A container has a durable state, and its level lies within the capacity.
abbrev pub HasLevel : Containers → ContainerDefinition → Type 0
HasLevel c d = (s : ContainerState) × (find d.name c.states ≡ some s) × (s.level ≤ d.capacity)

-- The checks of an intent's `__post_init__`.
pub record IsValid (i : ContainerOperationIntent) : Type 0 where
  pub request_named : str_eq i.request_id "" ≡ false
  pub container_named : str_eq i.container_name "" ≡ false
  pub positive : 0 < i.amount
  pub numbered : 0 < i.sequence

plan_request-IsValid :
    (seen : Containers) (name id : String) (operation : Operation) (amount now : ℕ)
    (i : ContainerOperationIntent)
    → plan_request seen name id operation amount now ≡ ok i
    → IsValid i
unfolding plan_request make_intent next_sequence
plan_request-IsValid seen name id operation amount now i h = ground arith

pub record Inv (c : Containers) : Type 0 where
  pub unique_definitions : Unique c.definitions
  pub unique_states : Unique c.states
  pub unique_intents : Unique c.intents
  pub unique_results : Unique c.results
  pub leveled :
      (name : String) (d : ContainerDefinition) → find name c.definitions ≡ some d → HasLevel c d
  pub state_known :
      (name : String) (s : ContainerState)
      → find name c.states ≡ some s
      → has name c.definitions ≡ true
  pub intent_known :
      (id : String) (i : ContainerOperationIntent)
      → find id c.intents ≡ some i
      → has i.container_name c.definitions ≡ true
  pub intent_valid :
      (id : String) (i : ContainerOperationIntent) → find id c.intents ≡ some i → IsValid i
  pub disjoint :
      (id : String) (i : ContainerOperationIntent)
      → find id c.intents ≡ some i
      → find id c.results ≡ none
  pub consistent :
      (id : String) (r : ContainerOperationResult)
      → find id c.results ≡ some r
      → validate_result_record c.definitions r ≡ ok tt

pub empty-Inv : Inv empty
unfolding find
empty-Inv = record {
  unique_definitions = tt;
  unique_states = tt;
  unique_intents = tt;
  unique_results = tt;
  leveled = λ name d e. cc;
  state_known = λ name s e. cc;
  intent_known = λ id i e. cc;
  intent_valid = λ id i e. cc;
  disjoint = λ id i e. cc;
  consistent = λ id r e. cc;
}

module _ (id : String) (p : Plan) (is : IsPlan id p) (c c' : Containers) (v : Inv c)
    (done : Committed p c c') where
  Committed-leveled :
      (name : String) (d : ContainerDefinition) → find name c'.definitions ≡ some d → HasLevel c' d
  Committed-leveled name d e =
      let e' : find name c.definitions ≡ some d = rw done.definitions at e in
      let (s, stored, fits) = v.leveled name d e' in
      elim (Bool-cases (str_eq p.after.name d.name)) [
        | inl here ↦ (
          p.after,
          ground (arith, done.states, find-save d.name p.after c.states),
          ground (arith, eq_iff p.after.name d.name, find-key name c.definitions d, done.fits d),
        )
        | inr other ↦ (s, ground (arith, done.states, find-save d.name p.after c.states), fits)
      ]

  Committed-consistent :
      (k : String) (r : ContainerOperationResult)
      → find k c'.results ≡ some r
      → validate_result_record c'.definitions r ≡ ok tt
  unfolding validate_result_record next_level has
  Committed-consistent k r e = elim (Option-cases (find p.after.name c.definitions)) [
    | inl missing ↦ ground (arith, done.known)
    | inr (d, found) ↦ ground (
      arith,
      find-save k p.result c.results,
      eq_iff p.result.request_id k,
      v.consistent k r,
      done.fits d,
      done.definitions,
      done.results,
    )
  ]

  Committed-Inv : Inv c'
  Committed-Inv = record {
    unique_definitions = rw done.definitions v.unique_definitions;
    unique_states = rw done.states (Unique-save p.after c.states v.unique_states);
    unique_intents = rw done.intents (Unique-delete p.intent.request_id c.intents v.unique_intents);
    unique_results = rw done.results (Unique-save p.result c.results v.unique_results);
    leveled = Committed-leveled;
    state_known = λ name s e. ground (
      arith,
      find-save name p.after c.states,
      eq_iff p.after.name name,
      done.definitions,
      done.states,
      done.known,
      v.state_known name s,
    );
    intent_known = λ k i e. ground (
      arith,
      find-delete k p.intent.request_id c.intents,
      done.definitions,
      done.intents,
      v.intent_known k i,
    );
    intent_valid = λ k i e.
        v.intent_valid k i
          (ground (arith, find-delete k p.intent.request_id c.intents, done.intents));
    disjoint = λ k i e. ground (
      arith,
      find-delete k p.intent.request_id c.intents,
      find-save k p.result c.results,
      eq_iff p.intent.request_id k,
      eq_iff p.result.request_id k,
      done.results,
      done.intents,
      v.disjoint k i,
    );
    consistent = Committed-consistent;
  }

-- `commit` keeps the invariant, whatever it had read.
pub commit-Inv :
    (seen : Containers) (id : String) (now : ℕ) (c : Containers)
    → Inv c
    → Inv (commit seen id now c).1
commit-Inv seen id now c v =
    commit_cases (λ o. Inv o.1) seen id now c v.disjoint (λ r e. v) (λ e. v) (λ r e. v)
      (λ p c' is done. Committed-Inv id p is c c' v done)

pub request-Inv :
    (seen : Containers) (name id : String) (operation : Operation) (amount now : ℕ) (c : Containers)
    → Inv c
    → Inv (request seen name id operation amount now c).1
request-Inv seen name id operation amount now c v =
    request_cases (λ o. Inv o.1) seen name id operation amount now c (λ e. v)
      λ i c' planned q. rw q.added (record {
        unique_definitions = v.unique_definitions;
        unique_states = v.unique_states;
        unique_intents = Unique-save i c.intents v.unique_intents;
        unique_results = v.unique_results;
        leveled = v.leveled;
        state_known = v.state_known;
        intent_known =
            λ k j e. ground (arith, find-save k i c.intents, v.intent_known k j, q.known);
        intent_valid = λ k j e. elim (Bool-cases (str_eq i.request_id k)) [
          | inl here ↦
              subst IsValid (ground (arith, find-save k i c.intents))
                (plan_request-IsValid seen name id operation amount now i planned)
          | inr other ↦ v.intent_valid k j (ground (arith, find-save k i c.intents))
        ];
        disjoint = λ k j e.
            ground (arith, find-save k i c.intents, eq_iff i.request_id k, v.disjoint k j, q.fresh);
        consistent = v.consistent;
      })

module _ (definition : ContainerDefinition) (s : ContainerState) (c c' : Containers) (v : Inv c)
    (q : Defined definition s c c') where
  -- A definition that is there stays as it is.
  pub Defined-stable :
      (name : String) (d : ContainerDefinition)
      → find name c.definitions ≡ some d
      → find name c'.definitions ≡ some d
  Defined-stable name d e = ground (
    arith,
    find-save name definition c.definitions,
    eq_iff definition.name name,
    q.same_definition d,
    q.definitions,
  )

  Defined-known : (name : String) → has name c.definitions ≡ true → has name c'.definitions ≡ true
  unfolding has
  Defined-known name h = ground (arith, find-save name definition c.definitions, q.definitions)

  Defined-leveled :
      (name : String) (d : ContainerDefinition) → find name c'.definitions ≡ some d → HasLevel c' d
  Defined-leveled name d e = elim (Bool-cases (str_eq definition.name name)) [
    | inl here ↦ (
      s,
      ground (
        arith,
        q.name,
        q.states,
        q.definitions,
        find-save d.name s c.states,
        find-save name definition c.definitions,
        eq_iff s.name d.name,
      ),
      ground (arith, q.fits, q.definitions, find-save name definition c.definitions),
    )
    | inr other ↦
        let old : find name c.definitions ≡ some d =
          ground (arith, q.definitions, find-save name definition c.definitions) in
        let (t, stored, fits) = v.leveled name d old in
        (
          t,
          ground (
            arith,
            q.name,
            q.states,
            find-save d.name s c.states,
            find-key name c.definitions d,
            eq_iff s.name d.name,
            eq_iff definition.name name,
          ),
          fits,
        )
  ]

  Defined-consistent :
      (k : String) (r : ContainerOperationResult)
      → find k c'.results ≡ some r
      → validate_result_record c'.definitions r ≡ ok tt
  unfolding validate_result_record
  Defined-consistent k r e =
      let old : find k c.results ≡ some r = rw (← q.results) e in
      elim (Option-cases (find r.container_name c.definitions)) [
        | inl missing ↦ ground (arith, v.consistent k r)
        | inr (d, found) ↦ ground (arith, v.consistent k r, Defined-stable r.container_name d)
      ]

  Defined-Inv : Inv c'
  unfolding has
  Defined-Inv = record {
    unique_definitions =
        rw q.definitions (Unique-save definition c.definitions v.unique_definitions);
    unique_states = rw q.states (Unique-save s c.states v.unique_states);
    unique_intents = rw q.intents v.unique_intents;
    unique_results = rw q.results v.unique_results;
    leveled = Defined-leveled;
    state_known = λ name t e. elim (Bool-cases (str_eq s.name name)) [
      | inl here ↦ ground (arith, q.name, q.definitions, find-save name definition c.definitions)
      | inr other ↦
          Defined-known name
            (v.state_known name t (ground (arith, q.states, find-save name s c.states)))
    ];
    intent_known =
        λ k i e. Defined-known i.container_name (v.intent_known k i (rw (← q.intents) e));
    intent_valid = λ k i e. v.intent_valid k i (rw (← q.intents) e);
    disjoint = λ k i e. rw q.results (v.disjoint k i (rw (← q.intents) e));
    consistent = Defined-consistent;
  }

pub define-Inv :
    (definition : ContainerDefinition) (c : Containers) → Inv c → Inv (define definition c).1
define-Inv definition c v =
    define_cases (λ o. Inv o.1) definition c (λ e. v) (λ s c' q. Defined-Inv definition s c c' v q)
