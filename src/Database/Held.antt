-- ===== src/Database/Held.antt =====
-- What a valid database holds for an active booking or an unfinished ride: its scooter.
use mad_devs_transport_shari.Prelude.{
  ℕ, ◌≤◌, ◌≡◌, Bool, true, some, ◌==◌, arith, ◌&&◌, ==_iff, ==_refl, subst,
}
use mad_devs_transport_shari.Table.{count}
use mad_devs_transport_shari.Table.Laws.{
  scalar-holds, scalar-count_pos, count-by_key, get-scalar, get_self,
}
use mad_devs_transport_shari.Models.{Db, Scooter, Booking, Ride}
use mad_devs_transport_shari.Models.Status.{is_reserved, is_riding, is_active, is_unfinished}
use mad_devs_transport_shari.Database.{
  scooter_key, booking_key, ride_key, get_scooter, get_booking, get_ride_row, holds_scooter,
  rides_scooter,
}
use mad_devs_transport_shari.Database.Invariant.{IsValid}

module _ {F : Type 0} (db : Db F) (v : IsValid db) where
  -- A scooter that is found by its status and its id is found by its id.
  scooter_as :
      (test : Scooter F → Bool) (i : ℕ)
      → 1 ≤ count (λ s. test s && s.id == i) db.scooters
      → (s : Scooter F) × (get_scooter i db ≡ some s) × (test s ≡ true)
  scooter_as test i pos =
      let (s, found) = scalar-count_pos (λ s. test s && s.id == i) db.scooters pos in
      let holds = scalar-holds (λ s. test s && s.id == i) db.scooters s found in
      let e : s.id ≡ i = (==_iff s.id i).0 (ground (arith, holds)) in
      (
        s,
        subst (λ j. get_scooter j db ≡ some s) e
            (get-scalar scooter_key (λ s. test s && s.id == i) db.scooters s v.scooters_keyed
              found),
        ground (arith, holds),
      )

  -- The scooter of an active booking is there, and reserved.
  pub booking_scooter :
      (i : ℕ) (b : Booking)
      → get_booking i db ≡ some b
      → is_active b.status ≡ true
      → (s : Scooter F) × (get_scooter b.scooter_id db ≡ some s) × (is_reserved s.status ≡ true)
  booking_scooter i b found active =
      scooter_as (λ s. is_reserved s.status) b.scooter_id
        (omega (
          arith,
          v.reserved b.scooter_id,
          count-by_key booking_key (holds_scooter b.scooter_id) db.bookings b v.bookings_keyed
              (get_self booking_key i db.bookings b found) (rw active (==_refl b.scooter_id)),
        ))

  -- The scooter of an unfinished ride is there, and riding.
  pub ride_scooter :
      (i : ℕ) (r : Ride)
      → get_ride_row i db ≡ some r
      → is_unfinished r.status ≡ true
      → (s : Scooter F) × (get_scooter r.scooter_id db ≡ some s) × (is_riding s.status ≡ true)
  ride_scooter i r found unfinished =
      scooter_as (λ s. is_riding s.status) r.scooter_id
        (omega (
          arith,
          v.riding r.scooter_id,
          count-by_key ride_key (rides_scooter r.scooter_id) db.rides r v.rides_keyed
              (get_self ride_key i db.rides r found) (rw unfinished (==_refl r.scooter_id)),
        ))
