-- ===== src/Bookings/Release.antt =====
-- backend/app/services/bookings.py and booking_sweeper.py: the rows after a booking was cancelled or
-- has expired, and the invariant.
use mad_devs_transport_shari.Prelude.{ℕ, ◌+◌, ◌≤◌, ◌≡◌, true, false, some, ◌==◌, arith}
use mad_devs_transport_shari.Table.{count}
use mad_devs_transport_shari.Table.Laws.{count-put, put-IsKeyed, get_self, key-get}
use mad_devs_transport_shari.Models.{Db, Scooter, Booking}
use mad_devs_transport_shari.Models.Status.{BookingStatus, is_active, is_used, is_reserved}
use mad_devs_transport_shari.Scooters.{release_status}
use mad_devs_transport_shari.Database.{
  scooter_key, booking_key, put_scooter, put_booking, get_scooter, get_booking, holds_user,
  holds_scooter, rides_user,
}
use mad_devs_transport_shari.Database.Invariant.{
  IsValid, reserved_as, riding_as, paused_as, used_as,
}
use mad_devs_transport_shari.Database.Held.{booking_scooter}
use mad_devs_transport_shari.Bookings.{free_scooter}

-- A booking in a new status, ended at `now`.
abbrev pub ended : Booking → BookingStatus → ℕ → Booking
ended b status now = record b { status = status; ended_at = some now }

module _ {F : Type 0} (db : Db F) (v : IsValid db) (i : ℕ) (b : Booking)
    (found : get_booking i db ≡ some b) (active : is_active b.status ≡ true)
    (status : BookingStatus) (now threshold : ℕ) (not_active : is_active status ≡ false)
    (not_used : is_used status ≡ false) where
  own : get_booking (booking_key b) db ≡ some b
  own = get_self booking_key i db.bookings b found

  abbrev freed : Scooter F → Scooter F
  freed s = record s { status = release_status s.battery threshold }

  abbrev released : Scooter F → Db F
  released s = put_scooter (freed s) (put_booking (ended b status now) db)

  -- The scooter of the booking is freed.
  free_scooter-released :
      (s : Scooter F)
      → get_scooter b.scooter_id db ≡ some s
      → is_reserved s.status ≡ true
      → free_scooter b.scooter_id threshold (put_booking (ended b status now) db) ≡ released s
  unfolding free_scooter
  free_scooter-released s at reserved = rw (at, free_scooter) (rw reserved)

  module _ (s : Scooter F) (at : get_scooter b.scooter_id db ≡ some s)
      (reserved : is_reserved s.status ≡ true) where
    own_scooter : get_scooter (scooter_key s) db ≡ some s
    own_scooter = get_self scooter_key b.scooter_id db.scooters s at

    released-reserved :
        (j : ℕ)
        → count (holds_scooter j) (released s).bookings
          ≡ count (reserved_as j) (released s).scooters
    unfolding release_status
    released-reserved j = ground (
      arith,
      v.reserved j,
      key-get scooter_key b.scooter_id db.scooters s at,
      count-put booking_key (holds_scooter j) (ended b status now) b db.bookings v.bookings_keyed
          own,
      count-put scooter_key (reserved_as j) (freed s) s db.scooters v.scooters_keyed own_scooter,
    )

    released-riding :
        (j : ℕ) → count (riding_as j) (released s).scooters ≡ count (riding_as j) db.scooters
    unfolding release_status
    released-riding j = ground (
      arith,
      count-put scooter_key (riding_as j) (freed s) s db.scooters v.scooters_keyed own_scooter,
    )

    released-paused :
        (j : ℕ) → count (paused_as j) (released s).scooters ≡ count (paused_as j) db.scooters
    released-paused j = ground (
      arith,
      count-put scooter_key (paused_as j) (freed s) s db.scooters v.scooters_keyed own_scooter,
    )

    released-one_hold :
        (u : ℕ) → count (holds_user u) (released s).bookings + count (rides_user u) db.rides ≤ 1
    released-one_hold u = ground (
      arith,
      v.one_hold u,
      count-put booking_key (holds_user u) (ended b status now) b db.bookings v.bookings_keyed own,
    )

    released-used :
        (j : ℕ) → count (used_as j) (released s).bookings ≡ count (used_as j) db.bookings
    released-used j = ground (
      arith,
      count-put booking_key (used_as j) (ended b status now) b db.bookings v.bookings_keyed own,
    )

    released-bookings_fresh :
        (j : ℕ) → db.next_booking ≤ j → count (λ c. booking_key c == j) (released s).bookings ≡ 0
    released-bookings_fresh j h = ground (
      arith,
      v.bookings_fresh j h,
      count-put booking_key (λ c. booking_key c == j) (ended b status now) b db.bookings
          v.bookings_keyed own,
    )

    released-IsValid : IsValid (released s)
    released-IsValid = record {
      scooters_keyed = put-IsKeyed scooter_key (freed s) s db.scooters v.scooters_keyed own_scooter;
      bookings_keyed =
          put-IsKeyed booking_key (ended b status now) b db.bookings v.bookings_keyed own;
      rides_keyed = v.rides_keyed;
      bookings_fresh = released-bookings_fresh;
      rides_fresh = v.rides_fresh;
      reserved = released-reserved;
      riding = λ j. omega (arith, v.riding j, released-riding j);
      paused = λ j. omega (arith, v.paused j, released-paused j);
      one_hold = released-one_hold;
      used = λ j. omega (arith, v.used j, released-used j);
      sound = v.sound;
      mailed = v.mailed;
    }

  -- Ending an active booking, as cancelled or expired, frees its scooter and keeps the rows valid.
  pub release-IsValid :
      IsValid (free_scooter b.scooter_id threshold (put_booking (ended b status now) db))
  release-IsValid =
      let (s, at, reserved) = booking_scooter db v i b found active in
      rw (free_scooter-released s at reserved) (released-IsValid s at reserved)
