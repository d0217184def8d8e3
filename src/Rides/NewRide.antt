-- ===== src/Rides/NewRide.antt =====
-- backend/app/services/rides.py, `start_ride`: the rows of a new ride, and the invariant.
use mad_devs_transport_shari.Prelude.{
  ℕ, ◌+◌, ◌≤◌, ◌≡◌, refl, true, none, some, [], ◌∷◌, ◌==◌, arith, All-append,
}
use mad_devs_transport_shari.Table.{scalar, count}
use mad_devs_transport_shari.Table.Laws.{
  count-put, count-insert, put-IsKeyed, insert-IsKeyed, get_self, key-get,
}
use mad_devs_transport_shari.Models.{Db, Scooter, Booking, Ride}
use mad_devs_transport_shari.Models.Status.{
  ScooterStatus, BookingStatus, RideStatus, SegmentKind, is_active, is_reserved,
}
use mad_devs_transport_shari.Timeline.{new_segment}
use mad_devs_transport_shari.Timeline.Phases.{IsSound}
use mad_devs_transport_shari.Database.{
  scooter_key, booking_key, ride_key, put_scooter, put_booking, insert_ride, get_scooter,
  get_booking, holds_user, holds_scooter, rides_user, rides_scooter, of_booking,
}
use mad_devs_transport_shari.Database.Invariant.{
  IsValid, reserved_as, riding_as, paused_as, used_as, pauses_scooter,
}
use mad_devs_transport_shari.Rides.{Tariff}

-- The new ride's row.
abbrev pub new_ride : {F : Type 0} → Db F → ℕ → Booking → Scooter F → Tariff → ℕ → Ride
new_ride db user_id booking s tariff now = record {
  id = db.next_ride;
  user_id = user_id;
  scooter_id = s.id;
  booking_id = booking.id;
  status = RideStatus.active;
  started_at = now;
  finished_at = none;
  finish_reason = none;
  finish_battery = none;
  finish_battery_threshold = none;
  ride_rate_per_minute = tariff.ride_rate_per_minute;
  pause_rate_per_minute = tariff.pause_rate_per_minute;
  ride_seconds = none;
  pause_seconds = none;
  ride_cost = none;
  pause_cost = none;
  total_cost = none;
  segments = new_segment SegmentKind.ride now ∷ [];
}

abbrev pub in_ride : {F : Type 0} → Scooter F → Scooter F
in_ride s = record s { status = ScooterStatus.riding }

abbrev pub use_up : Booking → Booking
use_up b = record b { status = BookingStatus.used }

module _ {F : Type 0} (db : Db F) (user_id booking_id : ℕ) (tariff : Tariff)
    (now threshold : ℕ) where
  abbrev pub started : Booking → Scooter F → Db F
  started b s =
      insert_ride (new_ride db user_id b s tariff now)
        (put_scooter (in_ride s) (put_booking (use_up b) db))

  module _ (v : IsValid db) (b : Booking) (s : Scooter F)
      (found : get_booking booking_id db ≡ some b) (owner : b.user_id ≡ user_id)
      (active : is_active b.status ≡ true) (no_ride : scalar (rides_user user_id) db.rides ≡ none)
      (at : get_scooter b.scooter_id db ≡ some s) (reserved : is_reserved s.status ≡ true) where
    own : get_booking (booking_key b) db ≡ some b
    own = get_self booking_key booking_id db.bookings b found

    own_scooter : get_scooter (scooter_key s) db ≡ some s
    own_scooter = get_self scooter_key b.scooter_id db.scooters s at

    started-reserved :
        (i : ℕ)
        → count (holds_scooter i) (started b s).bookings
          ≡ count (reserved_as i) (started b s).scooters
    started-reserved i = ground (
      arith,
      v.reserved i,
      key-get scooter_key b.scooter_id db.scooters s at,
      count-put booking_key (holds_scooter i) (use_up b) b db.bookings v.bookings_keyed own,
      count-put scooter_key (reserved_as i) (in_ride s) s db.scooters v.scooters_keyed own_scooter,
    )

    started-riding :
        (i : ℕ)
        → count (rides_scooter i) (started b s).rides ≡ count (riding_as i) (started b s).scooters
    started-riding i = ground (
      arith,
      v.riding i,
      count-insert (rides_scooter i) db.rides (new_ride db user_id b s tariff now),
      count-put scooter_key (riding_as i) (in_ride s) s db.scooters v.scooters_keyed own_scooter,
    )

    started-paused :
        (i : ℕ)
        → count (pauses_scooter i) (started b s).rides ≡ count (paused_as i) (started b s).scooters
    started-paused i = ground (
      arith,
      v.paused i,
      count-insert (pauses_scooter i) db.rides (new_ride db user_id b s tariff now),
      count-put scooter_key (paused_as i) (in_ride s) s db.scooters v.scooters_keyed own_scooter,
    )

    -- The hold of the user passes from the booking to the ride.
    started-one_hold :
        (u : ℕ)
        → count (holds_user u) (started b s).bookings + count (rides_user u) (started b s).rides ≤ 1
    started-one_hold u = ground (
      arith,
      v.one_hold u,
      owner,
      count-put booking_key (holds_user u) (use_up b) b db.bookings v.bookings_keyed own,
      count-insert (rides_user u) db.rides (new_ride db user_id b s tariff now),
    )

    started-used :
        (i : ℕ)
        → count (of_booking i) (started b s).rides ≡ count (used_as i) (started b s).bookings
    started-used i = ground (
      arith,
      v.used i,
      count-put booking_key (used_as i) (use_up b) b db.bookings v.bookings_keyed own,
      count-insert (of_booking i) db.rides (new_ride db user_id b s tariff now),
    )

    started-bookings_fresh :
        (i : ℕ) → db.next_booking ≤ i → count (λ c. booking_key c == i) (started b s).bookings ≡ 0
    started-bookings_fresh i h = ground (
      arith,
      v.bookings_fresh i h,
      count-put booking_key (λ c. booking_key c == i) (use_up b) b db.bookings v.bookings_keyed own,
    )

    started-rides_fresh :
        (i : ℕ) → db.next_ride + 1 ≤ i → count (λ r. ride_key r == i) (started b s).rides ≡ 0
    started-rides_fresh i h = ground (
      arith,
      v.rides_fresh i (omega arith),
      count-insert (λ r. ride_key r == i) db.rides (new_ride db user_id b s tariff now),
    )

    new_ride-IsSound : IsSound (new_ride db user_id b s tariff now)
    new_ride-IsSound = ([], new_segment SegmentKind.ride now, refl, refl, refl, refl)

    pub started-IsValid : IsValid (started b s)
    started-IsValid = record {
      scooters_keyed =
          put-IsKeyed scooter_key (in_ride s) s db.scooters v.scooters_keyed own_scooter;
      bookings_keyed = put-IsKeyed booking_key (use_up b) b db.bookings v.bookings_keyed own;
      rides_keyed =
          insert-IsKeyed ride_key db.rides (new_ride db user_id b s tariff now) v.rides_keyed
            (v.rides_fresh db.next_ride (omega arith));
      bookings_fresh = started-bookings_fresh;
      rides_fresh = started-rides_fresh;
      reserved = started-reserved;
      riding = started-riding;
      paused = started-paused;
      one_hold = started-one_hold;
      used = started-used;
      sound =
          All-append IsSound db.rides (new_ride db user_id b s tariff now ∷ []) v.sound
            (new_ride-IsSound, tt);
      mailed = v.mailed;
    }
