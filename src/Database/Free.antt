-- ===== src/Database/Free.antt =====
-- Rows that a valid database does not hold: bookings of a scooter that is not reserved, rides of a
-- scooter that is not riding, rides of a booking that is not used.
use mad_devs_transport_shari.Prelude.{◌≡◌, false, none, some, ◌==◌, arith, ==_refl}
use mad_devs_transport_shari.Table.{scalar}
use mad_devs_transport_shari.Table.Laws.{scalar-count_zero}
use mad_devs_transport_shari.Table.Only.{count-only}
use mad_devs_transport_shari.Models.{Db, Scooter, Booking}
use mad_devs_transport_shari.Models.Status.{is_reserved, is_riding, is_used}
use mad_devs_transport_shari.Database.{
  scooter_key, booking_key, get_scooter, get_booking, holds_scooter, rides_scooter, of_booking,
}
use mad_devs_transport_shari.Database.Invariant.{IsValid, reserved_as, riding_as, used_as}

module _ {F : Type 0} (db : Db F) (v : IsValid db) where
  module _ (s : Scooter F) (own : get_scooter s.id db ≡ some s) where
    pub no_booking_of :
        is_reserved s.status ≡ false → scalar (holds_scooter s.id) db.bookings ≡ none
    no_booking_of free = scalar-count_zero (holds_scooter s.id) db.bookings (
        ground (
          arith,
          free,
          v.reserved s.id,
          count-only (reserved_as s.id) (λ x. scooter_key x == s.id) (λ x. ground arith) scooter_key
              s db.scooters v.scooters_keyed own (==_refl s.id) (v.scooters_keyed s.id),
        ))

    pub no_ride_of : is_riding s.status ≡ false → scalar (rides_scooter s.id) db.rides ≡ none
    no_ride_of free = scalar-count_zero (rides_scooter s.id) db.rides (
        ground (
          arith,
          free,
          v.riding s.id,
          count-only (riding_as s.id) (λ x. scooter_key x == s.id) (λ x. ground arith) scooter_key s
              db.scooters v.scooters_keyed own (==_refl s.id) (v.scooters_keyed s.id),
        ))

  pub no_ride_from :
      (b : Booking)
      → get_booking b.id db ≡ some b
      → is_used b.status ≡ false
      → scalar (of_booking b.id) db.rides ≡ none
  no_ride_from b own unused = scalar-count_zero (of_booking b.id) db.rides (
      ground (
        arith,
        unused,
        v.used b.id,
        count-only (used_as b.id) (λ x. booking_key x == b.id) (λ x. ground arith) booking_key b
            db.bookings v.bookings_keyed own (==_refl b.id) (v.bookings_keyed b.id),
      ))
