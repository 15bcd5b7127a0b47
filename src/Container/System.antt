-- ===== src/Container/System.antt =====
-- Histories of the containers: any interleaving of calls by any number of workers, each call with
-- whatever tables it happened to read.
use sose.Prelude.{
  List, String, [], ap, arith, eq_iff, find, find-save, none, ok, refl, some, subst, ℕ, ◌∷◌, ◌≡◌,
}
use sose.Container.Records.{
  ContainerDefinition, ContainerOperationResult, ContainerState, Operation, definition_keyed,
  intent_keyed, result_keyed, state_keyed,
}
use sose.Container.Tables.{Containers, empty}
use sose.Container.Manager.{commit, define, request, result}
use sose.Container.Commit.{commit_cases}
use sose.Container.Define.{define_cases, request_cases}
use sose.Container.Invariant.{Inv, commit-Inv, define-Inv, empty-Inv, request-Inv}
use sose.Container.Recovery.{results_found}
use sose.Container.Ledger.{Replayed, commit-Replayed, define-Replayed, replayed, request-Replayed}

pub data Step : Type 0 where
  defines : ContainerDefinition → Step
  requests : Containers → String → String → Operation → ℕ → ℕ → Step
  commits : Containers → String → ℕ → Step

unfoldable pub step : Containers → Step → Containers
step c (defines definition) = (define definition c).1
step c (requests seen name id operation amount now) =
    (request seen name id operation amount now c).1
step c (commits seen id now) = (commit seen id now c).1

unfoldable pub run : Containers → List Step → Containers
unfolding step
run c [] = c
run c (s ∷ steps) = run (step c s) steps

step-Inv : (c : Containers) (s : Step) → Inv c → Inv (step c s)
unfolding step
step-Inv c (defines definition) v = define-Inv definition c v
step-Inv c (requests seen name id operation amount now) v =
    request-Inv seen name id operation amount now c v
step-Inv c (commits seen id now) v = commit-Inv seen id now c v

step-Replayed : (c : Containers) (s : Step) → Inv c → Replayed c → Replayed (step c s)
unfolding step
step-Replayed c (defines definition) v b = define-Replayed definition c v b
step-Replayed c (requests seen name id operation amount now) v b =
    request-Replayed seen name id operation amount now c b
step-Replayed c (commits seen id now) v b = commit-Replayed seen id now c v b

run_from :
    (c : Containers) (steps : List Step)
    → Inv c
    → Replayed c
    → Inv (run c steps) × Replayed (run c steps)
unfolding run
run_from c [] v b = (v, b)
run_from c (s ∷ steps) v b = run_from (step c s) steps (step-Inv c s v) (step-Replayed c s v b)

run-keeps_Inv : (c : Containers) (steps : List Step) → Inv c → Inv (run c steps)
unfolding run
run-keeps_Inv c [] v = v
run-keeps_Inv c (s ∷ steps) v = run-keeps_Inv (step c s) steps (step-Inv c s v)

empty-Replayed : Replayed empty
unfolding find
empty-Replayed name d s e = cc

-- After any history of defines, requests and commits, however stale the tables that each call has
-- read: identities are distinct; every defined container has a level, within its capacity; no
-- request is both pending and completed; pending requests are well formed and name defined
-- containers; and every record of a completed operation names a defined container and is
-- consistent with its amount and the capacity.
pub run-Inv : (steps : List Step) → Inv (run empty steps)
run-Inv steps = (run_from empty steps empty-Inv empty-Replayed).0

-- After any such history the records of a container's completed operations, taken in the order in
-- which they were committed, lead from its initial level to its level: each starts at the level at
-- which the one before it has ended, and ends where its put or get, rounded as a float is, leads
-- from there. So no completed operation is lost or applied twice.
pub run-Replayed :
    (steps : List Step) (name : String) (d : ContainerDefinition) (s : ContainerState)
    → find name (run empty steps).definitions ≡ some d
    → find name (run empty steps).states ≡ some s
    → replayed name d.initial (run empty steps).results ≡ some s.level
run-Replayed steps = (run_from empty steps empty-Inv empty-Replayed).1

-- A request that is completed stays completed with the same record, and its container's
-- definition stays, whatever is called later.
step-keeps_results :
    (c : Containers) (s : Step) (id : String) (r : ContainerOperationResult)
    → Inv c
    → find id c.results ≡ some r
    → find id (step c s).results ≡ some r
unfolding step
step-keeps_results c (defines definition) id r v h =
    define_cases (λ o. find id o.1.results ≡ some r) definition c (λ e. h)
      (λ s c' q. rw q.results h)
step-keeps_results c (requests seen name k operation amount now) id r v h =
    request_cases (λ o. find id o.1.results ≡ some r) seen name k operation amount now c (λ e. h)
      (λ i c' _ q. rw q.added h)
step-keeps_results c (commits seen k now) id r v h =
    commit_cases (λ o. find id o.1.results ≡ some r) seen k now c v.disjoint (λ _ e. h) (λ e. h)
      (λ _ e. h)
      λ p c' is done. ground (
        arith,
        done.results,
        find-save id p.result c.results,
        eq_iff p.result.request_id id,
        is.same_request,
        v.disjoint p.intent.request_id p.intent,
        done.pending,
      )

run-keeps_results :
    (c : Containers) (steps : List Step) (id : String) (r : ContainerOperationResult)
    → Inv c
    → find id c.results ≡ some r
    → find id (run c steps).results ≡ some r
unfolding run
run-keeps_results c [] id r v h = h
run-keeps_results c (s ∷ steps) id r v h =
    run-keeps_results (step c s) steps id r (step-Inv c s v) (step-keeps_results c s id r v h)

-- The outcome of a commit that is not the first for its request: the tables stay as they are.
commit-completed :
    (seen c : Containers) (id : String) (now : ℕ) (r : ContainerOperationResult)
    → Inv c
    → find id c.results ≡ some r
    → (commit seen id now c).1 ≡ c
commit-completed seen c id now r v h =
    commit_cases (λ o. o.1 ≡ c) seen id now c v.disjoint (λ _ e. refl) (λ e. refl) (λ _ e. refl)
      λ p c' is done. ground (arith, is.identity, done.pending, v.disjoint id p.intent, h)

commit_again :
    (c : Containers) (id : String) (now : ℕ) (r : ContainerOperationResult)
    → Inv c
    → find id c.results ≡ some r
    → commit c id now c ≡ (ok r, c)
unfolding commit result
commit_again c id now r v h = rw (results_found c v id, h, commit)

first_commit :
    (seen c c' : Containers) (id : String) (now : ℕ) (r : ContainerOperationResult)
    → Inv c
    → result seen id ≡ none
    → commit seen id now c ≡ (ok r, c')
    → find id c'.results ≡ some r
first_commit seen c c' id now r v new h =
    commit_cases (λ o. o ≡ (ok r, c') → find id c'.results ≡ some r) seen id now c v.disjoint
      (λ _ e g. cc) (λ e g. cc) (λ s e g. ground arith)
      (λ p c'' is done g. ground (
        arith,
        done.results,
        find-save id p.result c.results,
        eq_iff p.result.request_id id,
        is.same_request,
        is.identity,
      ))
      h

-- An operation is applied at most once. When a commit that had read no record of its request
-- returns one, then after any later history the record is still there, a further commit of the
-- request changes nothing whatever it has read, and one that reads the current tables returns the
-- same record.
pub commit_once :
    (seen c c' : Containers) (id : String) (now : ℕ) (r : ContainerOperationResult)
    → Inv c
    → result seen id ≡ none
    → commit seen id now c ≡ (ok r, c')
    → (steps : List Step) (seen_later : Containers) (later : ℕ)
    → let c'' = run c' steps in
      (find id c''.results ≡ some r)
      × ((commit seen_later id later c'').1 ≡ c'')
      × (commit c'' id later c'' ≡ (ok r, c''))
commit_once seen c c' id now r v new h steps seen_later later =
    let v' : Inv c' = subst Inv (ap (λ o. o.1) h) (commit-Inv seen id now c v) in
    let found : find id (run c' steps).results ≡ some r =
      run-keeps_results c' steps id r v' (first_commit seen c c' id now r v new h) in
    let v'' = run-keeps_Inv c' steps v' in
    (
      found,
      commit-completed seen_later (run c' steps) id later r v'' found,
      commit_again (run c' steps) id later r v'' found,
    )
