-- ===== src/Resource/Exclusive.antt =====
-- A request is never pending and reserved at the same time, whatever workers interleave.
use sose.Prelude.{
  refl, Bool, List, String, [], arith, delete, eq_iff, false, find, find-delete, find-save, ok,
  save, some, str_eq, ◌∷◌, ◌≡◌, Unique, Unique-save, Unique-delete,
}
use sose.Resource.Records.{
  ResourceReleaseIntent, ResourceDemand, ResourceReservation, definition_keyed, demand_keyed,
  intent_keyed, reservation_keyed,
}
use sose.Resource.Tables.{
  Resources, delete_resource_demand, delete_resource_release_intent, delete_resource_reservation,
  reserved, save_resource_demand, save_resource_release_intent, save_resource_reservation,
}
use sose.Resource.Manager.{cancel_body, demand_body, grant_body}
use sose.Resource.Release.{begin_body, finalize_body}

reserved-save :
    (id : String) (r : ResourceReservation) (rows : List ResourceReservation)
    → str_eq r.request_id id ≡ false
    → reserved id rows ≡ false
    → reserved id (save r rows) ≡ false
unfolding reserved save
reserved-save id r [] h g = ground arith
reserved-save id r (x ∷ rows) h g = ground (arith, reserved-save id r rows)

reserved-delete :
    (id key : String) (rows : List ResourceReservation)
    → reserved id rows ≡ false
    → reserved id (delete key rows) ≡ false
unfolding reserved delete
reserved-delete id key [] g = refl
reserved-delete id key (x ∷ rows) g = ground (arith, reserved-delete id key rows)

-- No request is both pending and reserved.
pub record Exclusive (c : Resources) : Type 0 where
  pub unique : Unique c.demands
  pub apart :
      (id : String) (d : ResourceDemand)
      → find id c.demands ≡ some d
      → reserved id c.reservations ≡ false

pub demand-Exclusive :
    (d d' : ResourceDemand) (c c' : Resources)
    → demand_body d c ≡ ok (d', c')
    → Exclusive c
    → Exclusive c'
unfolding save_resource_demand
demand-Exclusive d d' c c' h v =
    let saved : c' ≡ record c { demands = save d c.demands } = ground arith in
    let free : reserved d.request_id c.reservations ≡ false = ground arith in
    rw saved (record {
      unique = Unique-save d c.demands v.unique;
      apart = λ id e g.
          ground (arith, find-save id d c.demands, eq_iff d.request_id id, free, v.apart id e);
    })

pub cancel-Exclusive :
    (d : ResourceDemand) (b : Bool) (c c' : Resources)
    → cancel_body d c ≡ ok (b, c')
    → Exclusive c
    → Exclusive c'
unfolding delete_resource_demand
cancel-Exclusive d b c c' h v =
    let deleted : c' ≡ record c { demands = delete d.request_id c.demands } = ground arith in
    rw deleted (record {
      unique = Unique-delete d.request_id c.demands v.unique;
      apart = λ id e g.
          ground
            (arith, find-delete id d.request_id c.demands, eq_iff d.request_id id, v.apart id e);
    })

module _ (deterministic_id : String → List String → String) where
  pub grant-Exclusive :
      (d : ResourceDemand) (r r' : ResourceReservation) (c c' : Resources)
      → r.request_id ≡ d.request_id
      → grant_body deterministic_id d r c ≡ ok (r', c')
      → Exclusive c
      → Exclusive c'
  unfolding save_resource_reservation delete_resource_demand
  grant-Exclusive d r r' c c' same_request h v =
      let granted : c' ≡ record c {
        demands = delete d.request_id c.demands;
        reservations = save r c.reservations;
      } =
        ground arith in
      rw granted (record {
        unique = Unique-delete d.request_id c.demands v.unique;
        apart = λ id e g. ground (
          arith,
          same_request,
          find-delete id d.request_id c.demands,
          eq_iff d.request_id id,
          eq_iff r.request_id id,
          v.apart id e,
          reserved-save id r c.reservations,
        );
      })

  pub begin-Exclusive :
      (r : ResourceReservation) (i : ResourceReleaseIntent) (b : Bool) (c c' : Resources)
      → begin_body deterministic_id r i c ≡ ok (b, c')
      → Exclusive c
      → Exclusive c'
  unfolding save_resource_release_intent
  begin-Exclusive r i b c c' h v =
      let same_demands : c'.demands ≡ c.demands = ground arith in
      let same_reservations : c'.reservations ≡ c.reservations = ground arith in
      record {
        unique = rw same_demands v.unique;
        apart = λ id e g. ground (arith, same_demands, same_reservations, v.apart id e);
      }

pub finalize-Exclusive :
    (i : ResourceReleaseIntent) (r : ResourceReservation) (c c' : Resources)
    → finalize_body i r c ≡ ok (tt, c')
    → Exclusive c
    → Exclusive c'
unfolding delete_resource_release_intent delete_resource_reservation
finalize-Exclusive i r c c' h v =
    let same_demands : c'.demands ≡ c.demands = ground arith in
    let deleted : c'.reservations ≡ delete r.reservation_id c.reservations = ground arith in
    record {
      unique = rw same_demands v.unique;
      apart = λ id e g. ground (
        arith,
        same_demands,
        deleted,
        v.apart id e,
        reserved-delete id r.reservation_id c.reservations,
      );
    }
