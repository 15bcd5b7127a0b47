-- ===== src/Resource/Recovery.antt =====
-- A release that is interrupted between its two transactions.
use sose.Prelude.{
  ap, ◌∙◌, sorted, refl, has, save, List, String, Unique, [], arith, delete, eq_iff, find, find-key,
  find-sorted, ok, same_self, some, true, ℕ, ◌∷◌, ◌≡◌,
}
use sose.Resource.Records.{
  ResourceReleaseIntent, ResourceReleaseIntent-discrete, ResourceReservation,
  ResourceReservation-discrete, intent_keyed, reservation_keyed,
}
use sose.Resource.Tables.{
  Resources, delete_resource_release_intent, delete_resource_reservation, resource_release_intents,
  resource_reservations, save_resource_release_intent,
}
use sose.Resource.Release.{
  begin_release, finalize_all, finalize_interrupted_releases, finalize_one, finalize_release_intent,
  release, release_intent,
}

finalize_single :
    (i : ResourceReleaseIntent) (c c' : Resources)
    → finalize_one i c ≡ (ok tt, c')
    → finalize_all (i ∷ []) c ≡ (ok tt, c')
unfolding finalize_all
finalize_single i c c' h = ground (arith, h)

module _ (deterministic_id : String → List String → String) (c : Resources) (id : String)
    (r : ResourceReservation) (now : ℕ) (unique : Unique c.reservations)
    (quiet : c.release_intents ≡ []) (held : find id c.reservations ≡ some r) where
  abbrev begun : Resources
  begun = record c { release_intents = release_intent deterministic_id r now ∷ [] }

  abbrev pub after : Resources
  after = record c { reservations = delete id c.reservations; release_intents = [] }

  named : r.reservation_id ≡ id
  named = find-key id c.reservations r held

  reservations_found : find id (resource_reservations c) ≡ some r
  unfolding resource_reservations
  reservations_found = rw (find-sorted _ id c.reservations unique) held

  begins : begin_release deterministic_id r now c ≡ (ok true, begun)
  unfolding begin_release release_intent save_resource_release_intent find save has
  begins = ground (arith, named, held, quiet, same_self ResourceReservation-discrete r)

  finalizes :
      finalize_release_intent (release_intent deterministic_id r now) r begun ≡ (ok tt, after)
  unfolding finalize_release_intent delete_resource_release_intent delete_resource_reservation find
      delete
  finalizes = ground (
    arith,
    named,
    held,
    same_self ResourceReservation-discrete r,
    same_self ResourceReleaseIntent-discrete (release_intent deterministic_id r now),
    eq_iff (release_intent deterministic_id r now).intent_id
        (release_intent deterministic_id r now).intent_id,
  )

  intents_found :
      find (release_intent deterministic_id r now).intent_id (resource_release_intents begun)
      ≡ some (release_intent deterministic_id r now)
  unfolding resource_release_intents sorted find
  intents_found = ground (
    arith,
    eq_iff (release_intent deterministic_id r now).intent_id
        (release_intent deterministic_id r now).intent_id,
  )

  released_whole : release deterministic_id true id now c ≡ (ok true, after)
  unfolding release
  released_whole = rw (reservations_found, release) (rw begins (rw finalizes refl))

  still_held :
      find (release_intent deterministic_id r now).reservation_id (resource_reservations begun)
      ≡ some r
  unfolding resource_reservations release_intent
  still_held =
      find-sorted _ r.reservation_id c.reservations unique
      ∙ ap (λ k. find k c.reservations) named
      ∙ held

  one_recovered : finalize_one (release_intent deterministic_id r now) begun ≡ (ok tt, after)
  unfolding finalize_one
  one_recovered =
      rw (intents_found, finalize_one)
        (rw (same_self ResourceReleaseIntent-discrete (release_intent deterministic_id r now))
          (rw still_held finalizes))

  recovered : finalize_interrupted_releases begun ≡ (ok tt, after)
  unfolding finalize_interrupted_releases resource_release_intents sorted
  recovered = finalize_single (release_intent deterministic_id r now) begun after one_recovered

  -- A release with no other release pending. When the process dies between the two transactions,
  -- before or after the backend has let go, the recovery at the next start succeeds and leaves the
  -- tables that the release leaves when it is not interrupted: the reservation is gone, no intent is
  -- left, and nothing else has changed.
  pub release_recovers :
      (release deterministic_id true id now c ≡ (ok true, after))
      × (finalize_interrupted_releases (begin_release deterministic_id r now c).1 ≡ (ok tt, after))
  release_recovers = (released_whole, rw begins recovered)
