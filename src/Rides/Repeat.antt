-- ===== src/Rides/Repeat.antt =====
-- backend/app/services/rides.py, `start_ride`: a start that goes through, and its repetition.
use mad_devs_transport_shari.Prelude.{
  ℕ, ◌≡◌, true, false, none, some, arith, leb, ltb, ==_refl, subst,
}
use mad_devs_transport_shari.Table.{scalar, get}
use mad_devs_transport_shari.Table.Laws.{
  scalar-insert, scalar-count_zero, count-by_key, get-put_self, get_self, key-get,
}
use mad_devs_transport_shari.Models.{Db, Scooter, Booking}
use mad_devs_transport_shari.Models.Status.{is_active, is_reserved, is_riding, is_used}
use mad_devs_transport_shari.Database.{
  booking_key, scooter_key, get_booking, get_scooter, holds_user, rides_user, of_booking,
  put_booking,
}
use mad_devs_transport_shari.Database.Invariant.{IsValid}
use mad_devs_transport_shari.Database.Held.{booking_scooter}
use mad_devs_transport_shari.Database.Free.{no_ride_of, no_ride_from}
use mad_devs_transport_shari.Outcome.{ok}
use mad_devs_transport_shari.Rides.{
  Tariff, start_ride, start_unused, restart, locked_scooter, commit_ride,
}
use mad_devs_transport_shari.Rides.NewRide.{new_ride, use_up, started}

module _ {F : Type 0} (db : Db F) (v : IsValid db) (user_id booking_id : ℕ) (b : Booking)
    (found : get_booking booking_id db ≡ some b) (owner : b.user_id ≡ user_id)
    (active : is_active b.status ≡ true) where
  -- A user with an active booking has no ride.
  no_ride_beside : scalar (rides_user user_id) db.rides ≡ none
  no_ride_beside = scalar-count_zero (rides_user user_id) db.rides (
      omega (
        arith,
        v.one_hold user_id,
        count-by_key booking_key (holds_user user_id) db.bookings b v.bookings_keyed
            (get_self booking_key booking_id db.bookings b found)
            (rw active (rw owner (==_refl user_id))),
      ))

  active_unused : is_used b.status ≡ false
  active_unused = ground (arith, active)

  module _ (tariff : Tariff) (now threshold : ℕ) (s : Scooter F)
      (at : get_scooter b.scooter_id db ≡ some s) where
    scooter_reserved : is_reserved s.status ≡ true
    scooter_reserved =
        let (s', at', reserved) = booking_scooter db v booking_id b found active in
        ground (arith, at, at', reserved)

    scooter_unridden : is_riding s.status ≡ false
    scooter_unridden = ground (arith, scooter_reserved)

    start_goes_through :
        leb b.expires_at now ≡ false
        → ltb s.battery threshold ≡ false
        → start_ride user_id booking_id tariff now threshold db
          ≡ ok (
            record { ride = new_ride db user_id b s tariff now; created = true },
            started db user_id booking_id tariff now threshold b s,
          )
    unfolding start_ride start_unused locked_scooter commit_ride
    start_goes_through in_time charged = ground (
      arith,
      no_ride_beside,
      active_unused,
      scooter_reserved,
      no_ride_of db v s (get_self scooter_key b.scooter_id db.scooters s at) scooter_unridden,
      no_ride_from db v b (get_self booking_key booking_id db.bookings b found) active_unused,
    )

    booking_stays :
        get_booking booking_id (started db user_id booking_id tariff now threshold b s)
        ≡ some (use_up b)
    booking_stays =
        subst (λ j. get booking_key j (put_booking (use_up b) db).bookings ≡ some (use_up b))
          (key-get booking_key booking_id db.bookings b found)
          (get-put_self booking_key (use_up b) b db.bookings
            (get_self booking_key booking_id db.bookings b found))

    ride_stays :
        scalar
          (of_booking booking_id)
          (started db user_id booking_id tariff now threshold b s).rides
        ≡ some (new_ride db user_id b s tariff now)
    ride_stays = ground (
      arith,
      key-get booking_key booking_id db.bookings b found,
      no_ride_from db v b (get_self booking_key booking_id db.bookings b found) active_unused,
      scalar-insert (of_booking booking_id) db.rides (new_ride db user_id b s tariff now),
    )

    start_repeats :
        (tariff' : Tariff) (now' threshold' : ℕ)
        → start_ride user_id booking_id tariff' now' threshold'
            (started db user_id booking_id tariff now threshold b s)
          ≡ ok (
            record { ride = new_ride db user_id b s tariff now; created = false },
            started db user_id booking_id tariff now threshold b s,
          )
    unfolding start_ride restart
    start_repeats tariff' now' threshold' = ground (arith, owner, booking_stays, ride_stays)

-- Starting a ride from one's own active booking on valid rows, before it expires and with a charged
-- scooter, creates the ride, takes the booking and marks the scooter as riding: no unique index is
-- violated. Starting again from the same booking, at any instant and with any settings, answers with
-- this ride, not created anew, and changes no row.
pub start_ride_twice :
    {F : Type 0} (db : Db F) (user_id booking_id : ℕ) (b : Booking) (s : Scooter F)
    (tariff tariff' : Tariff) (now now' threshold threshold' : ℕ)
    → IsValid db
    → get_booking booking_id db ≡ some b
    → b.user_id ≡ user_id
    → is_active b.status ≡ true
    → get_scooter b.scooter_id db ≡ some s
    → leb b.expires_at now ≡ false
    → ltb s.battery threshold ≡ false
    → let r = new_ride db user_id b s tariff now in
      let db' = started db user_id booking_id tariff now threshold b s in
      (start_ride user_id booking_id tariff now threshold db
        ≡ ok (record { ride = r; created = true }, db'))
      × (start_ride user_id booking_id tariff' now' threshold' db'
          ≡ ok (record { ride = r; created = false }, db'))
start_ride_twice db user_id booking_id b s tariff tariff' now now' threshold threshold' v found
      owner active at in_time charged =
    (
      start_goes_through db v user_id booking_id b found owner active tariff now threshold s at
          in_time charged,
      start_repeats db v user_id booking_id b found owner active tariff now threshold s at tariff'
          now' threshold',
    )
