-- ===== src/Preempt/Recovery.antt =====
-- When validation before a rebuild passes, and when it does not.
use sose.Prelude.{
  insert_sorted, ◌||◌, All, All-mono, All-of_find, All-sorted, Bool, Error, List, String, [], arith,
  err, find, find-key, find-sorted, not, Result-cases, bind-eq-ok, for_each-All, inl, inr,
  find_of_All, for_each, for_each-ok, has, length, ok, raise_if, refl, runtime_error, none, some,
  sorted, str_eq, str_leb, true, false, ◌≡◌, ◌≤◌, ◌∷◌,
}
use sose.Preempt.Records.{
  PreemptiveResourceDemand, PreemptiveResourceReleaseIntent, PreemptiveResourceReservation,
  definition_keyed, demand_keyed, intent_keyed, reservation_keyed, result_keyed,
}
use sose.Preempt.Tables.{
  Preemptives, preemptive_resource_definitions, preemptive_resource_demands,
  preemptive_resource_release_intents, preemptive_resource_reservations, reservation_leb, reserved,
  resource_preemption_results,
}
use sose.Preempt.Manager.{Manager, clear_ephemeral_state}
use sose.Preempt.Rebuild.{
  rebuild_backend, rebuild_tables, release_fits, requests_overlap, validate_preemption_results,
  validate_preemptive_capacities, validate_preemptive_references, validate_rebuild,
  validate_request_overlap,
}
use sose.Preempt.Commit.{active_in}
use sose.Preempt.Grants.{length-active_in}
use sose.Preempt.Inv.{Inv}
use sose.Preempt.System.{Step, preempt_run-Inv, run, started}

-- Each release in progress is of a reservation that is there, and of its resource.
abbrev pub Attached : Preemptives → Type 0
Attached c =
    All (λ i. release_fits (preemptive_resource_reservations c) i ≡ ok tt) c.release_intents

reserved-insert_sorted :
    (before : PreemptiveResourceReservation → PreemptiveResourceReservation → Bool) (id : String)
    (r : PreemptiveResourceReservation) (rows : List PreemptiveResourceReservation)
    → reserved id (insert_sorted before r rows) ≡ (str_eq r.request_id id || reserved id rows)
unfolding reserved insert_sorted
reserved-insert_sorted before id r [] = refl
reserved-insert_sorted before id r (x ∷ rows) =
    ground (arith, reserved-insert_sorted before id r rows)

reserved-sorted :
    (before : PreemptiveResourceReservation → PreemptiveResourceReservation → Bool) (id : String)
    (rows : List PreemptiveResourceReservation)
    → reserved id (sorted before rows) ≡ reserved id rows
unfolding reserved sorted
reserved-sorted before id [] = refl
reserved-sorted before id (r ∷ rows) =
    ground (
      arith,
      reserved-insert_sorted before id r (sorted before rows),
      reserved-sorted before id rows,
    )

module _ (c : Preemptives) (v : Inv c) where
  known_sorted :
      (name : String)
      → has name c.definitions ≡ true
      → has name (preemptive_resource_definitions c) ≡ true
  unfolding has preemptive_resource_definitions
  known_sorted name h =
      ground
        (arith, find-sorted (λ a b. str_leb a.name b.name) name c.definitions v.unique_definitions)

  reservations_known :
      All
        (λ r. has r.resource_name (preemptive_resource_definitions c) ≡ true)
        (preemptive_resource_reservations c)
  unfolding preemptive_resource_reservations
  reservations_known = All-sorted _ _ c.reservations (
      All-of_find _ c.reservations v.unique_reservations
        λ id r e. known_sorted r.resource_name (v.reservation_known id r e))

  demands_known :
      All
        (λ d. has d.resource_name (preemptive_resource_definitions c) ≡ true)
        (preemptive_resource_demands c)
  unfolding preemptive_resource_demands
  demands_known = All-sorted _ _ c.demands (
      All-of_find _ c.demands v.unique_demands
        λ id d e. known_sorted d.resource_name (v.demand_known id d e))

  references-ok :
      Attached c → validate_preemptive_references (preemptive_resource_definitions c) c ≡ ok tt
  unfolding validate_preemptive_references preemptive_resource_release_intents
  references-ok attached =
      let reservations =
        for_each-ok
          (λ r.
            raise_if (not (has r.resource_name (preemptive_resource_definitions c)))
              (runtime_error "preemptive reservation references unknown definition"))
          (preemptive_resource_reservations c)
          (All-mono _ _ (λ r e. ground (arith, e)) _ reservations_known) in
      let demands =
        for_each-ok
          (λ d.
            raise_if (not (has d.resource_name (preemptive_resource_definitions c)))
              (runtime_error "preemptive demand references unknown definition"))
          (preemptive_resource_demands c)
          (All-mono _ _ (λ d e. ground (arith, e)) _ demands_known) in
      rw (reservations, demands) (for_each-ok _ _ (All-sorted _ _ c.release_intents attached))

  capacities-ok : validate_preemptive_capacities (preemptive_resource_definitions c) c ≡ ok tt
  unfolding validate_preemptive_capacities preemptive_resource_definitions
  capacities-ok = for_each-ok _ _ (
      All-sorted _ _ c.definitions (
        All-of_find _ c.definitions v.unique_definitions λ name d e.
          let fits : length (active_in d.name c) ≤ d.capacity = ground (
            arith,
            find-key name c.definitions d e,
            length-active_in d.name c,
            v.bounded name d e,
          ) in
          ground (arith, fits)))

  overlap_free :
      (demands : List PreemptiveResourceDemand) (rows : List PreemptiveResourceReservation)
      → All (λ d. reserved d.request_id rows ≡ false) demands
      → requests_overlap demands rows ≡ false
  unfolding requests_overlap
  overlap_free [] rows h = refl
  overlap_free (d ∷ demands) rows h = ground (arith, h.0, overlap_free demands rows h.1)

  results-ok : validate_preemption_results (preemptive_resource_definitions c) c ≡ ok tt
  unfolding validate_preemption_results resource_preemption_results
  results-ok = for_each-ok _ _ (
      All-sorted _ _ c.results (
        All-of_find _ c.results v.unique_results
          λ id r e. ground (arith, known_sorted r.resource_name, v.result_known id r e)))

  overlap-ok : validate_request_overlap c ≡ ok tt
  unfolding validate_request_overlap preemptive_resource_demands preemptive_resource_reservations
  overlap-ok =
      rw
        (overlap_free (preemptive_resource_demands c) (preemptive_resource_reservations c) (
          All-sorted _ _ c.demands (
            All-of_find _ c.demands v.unique_demands λ id d e.
              rw
                (
                  reserved-sorted reservation_leb d.request_id c.reservations,
                  find-key id c.demands d e,
                )
                (v.apart id d e))))
        refl

-- In tables that meet the invariant, validation passes where each release in progress is of a
-- reservation that is still there, and of its resource.
pub validate_rebuild-ok : (c : Preemptives) → Inv c → Attached c → validate_rebuild c ≡ ok tt
unfolding validate_rebuild
validate_rebuild-ok c v attached =
    rw (references-ok c v attached, capacities-ok c v, overlap-ok c v) (results-ok c v)

dangling-fails :
    (c : Preemptives) (i : PreemptiveResourceReleaseIntent)
    → find i.intent_id (preemptive_resource_release_intents c) ≡ some i
    → find i.reservation_id (preemptive_resource_reservations c) ≡ none
    → ¬ (validate_rebuild c ≡ ok tt)
unfolding validate_rebuild validate_preemptive_references
dangling-fails c i there gone passed =
    let (_, references, _) =
      bind-eq-ok (validate_preemptive_references (preemptive_resource_definitions c) c) _ passed in
    let (_, _, rest) =
      bind-eq-ok
        (for_each
          (λ r.
            raise_if (not (has r.resource_name (preemptive_resource_definitions c)))
              (runtime_error "preemptive reservation references unknown definition"))
          (preemptive_resource_reservations c))
        _ references in
    let (_, _, last) =
      bind-eq-ok
        (for_each
          (λ d.
            raise_if (not (has d.resource_name (preemptive_resource_definitions c)))
              (runtime_error "preemptive demand references unknown definition"))
          (preemptive_resource_demands c))
        _ rest in
    let fits =
      find_of_All (λ j. release_fits (preemptive_resource_reservations c) j ≡ ok tt) i.intent_id
        (preemptive_resource_release_intents c) i
        (for_each-All (release_fits (preemptive_resource_reservations c))
          (preemptive_resource_release_intents c) last)
        there in
    ground arith

-- Where a release in progress is of a reservation that is gone, the restart raises and leaves the
-- tables as they are: it never reaches the loop that would drop such a release.
pub rebuild_dangling :
    (m : Manager) (i : PreemptiveResourceReleaseIntent)
    → find i.intent_id (preemptive_resource_release_intents m.tables) ≡ some i
    → find i.reservation_id (preemptive_resource_reservations m.tables) ≡ none
    → (e : Error) × (rebuild_backend m ≡ (err e, clear_ephemeral_state m))
unfolding rebuild_backend rebuild_tables
rebuild_dangling m i there gone = elim (Result-cases (validate_rebuild m.tables)) [
  | inl (e, raised) ↦ (e, rw (raised, rebuild_backend, rebuild_tables) refl)
  | inr (_, passed) ↦ absurd (dangling-fails m.tables i there gone passed)
]

-- After any history of one process, crashes included, the tables pass the validation of a restart,
-- if each release in progress is of a reservation that is still there, and of its resource.
pub restart_valid :
    (deterministic_id : String → List String → String) (steps : List Step)
    → Attached (run deterministic_id started steps).tables
    → validate_rebuild (run deterministic_id started steps).tables ≡ ok tt
restart_valid deterministic_id steps =
    validate_rebuild-ok (run deterministic_id started steps).tables
      (preempt_run-Inv deterministic_id steps)
