-- ===== src/Bookings.antt =====
-- backend/app/services/bookings.py: booking a scooter, and cancelling the booking.
-- The partial unique indexes of models/booking.py are checked at the commit.
pub mod Answers
pub mod Create
pub mod Cancel
pub mod Release
use mad_devs_transport_shari.Prelude.{
  ℕ, ◌+◌, Bool, true, false, not, Option, none, some, List, [], ◌∷◌, ◌==◌, is_some, if◌then◌else◌,
}
use mad_devs_transport_shari.Text.{String}
use mad_devs_transport_shari.Table.{scalar}
use mad_devs_transport_shari.Models.{Db, Scooter, Booking}
use mad_devs_transport_shari.Models.Status.{
  ScooterStatus, BookingStatus, is_available, is_reserved, is_active,
}
use mad_devs_transport_shari.Scooters.{has_code, release_status}
use mad_devs_transport_shari.Database.{
  put_scooter, put_booking, insert_booking, get_scooter, get_booking, holds_user, holds_scooter,
  rides_user,
}
use mad_devs_transport_shari.Outcome.{
  Outcome, ok, raise, Code, not_found, forbidden, conflict, raise_if, or_raise, ◌>>=◌, ◌>>◌,
}

module _ {F : Type 0} where
  unfoldable pub get_active_booking : ℕ → Db F → Option Booking
  get_active_booking user_id db = scalar (holds_user user_id) db.bookings

  -- The commit of the new booking: a violated index is reported as the conflict that it stands for.
  unfoldable pub commit_booking : Booking → Db F → Db F → Outcome (Booking × Db F)
  commit_booking booking before db =
      if is_some (scalar (holds_scooter booking.scooter_id) before.bookings)
      then raise (conflict Code.scooter_not_available)
      else if is_some (scalar (holds_user booking.user_id) before.bookings)
      then raise (conflict Code.user_has_active_booking)
      else ok (booking, db)

  -- `clock` is the database's clock at the insert, which fills `created_at`.
  unfoldable pub create_booking : ℕ → String → ℕ → ℕ → ℕ → Db F → Outcome (Booking × Db F)
  create_booking user_id scooter_code ttl now clock db = do
    scooter ←
        or_raise (scalar (has_code scooter_code) db.scooters) (not_found Code.scooter_not_found)
    raise_if (not (is_available scooter.status)) (conflict Code.scooter_not_available)
    raise_if (is_some (scalar (holds_user user_id) db.bookings))
        (conflict Code.user_has_active_booking)
    raise_if (is_some (scalar (rides_user user_id) db.rides)) (conflict Code.user_has_active_ride)
    let booking : Booking = record {
      id = db.next_booking;
      user_id = user_id;
      scooter_id = scooter.id;
      status = BookingStatus.active;
      created_at = clock;
      expires_at = now + ttl;
      warned_at = none;
      ended_at = none;
    }
    commit_booking booking db (
        insert_booking booking
          (put_scooter (record scooter { status = ScooterStatus.reserved }) db))

  -- The scooter goes back only if it is still reserved.
  unfoldable pub free_scooter : ℕ → ℕ → Db F → Db F
  free_scooter scooter_id threshold db = elim (get_scooter scooter_id db) [
    | none ↦ db
    | some s ↦
        if is_reserved s.status
        then put_scooter (record s { status = release_status s.battery threshold }) db
        else db
  ]

  unfoldable pub cancel_booking : ℕ → ℕ → ℕ → ℕ → Db F → Outcome (Booking × Db F)
  cancel_booking user_id booking_id now low_battery_threshold db = do
    booking ← or_raise (get_booking booking_id db) (not_found Code.booking_not_found)
    raise_if (not (booking.user_id == user_id)) (forbidden Code.not_your_booking)
    raise_if (not (is_active booking.status)) (conflict Code.booking_not_active)
    let cancelled : Booking = record booking {
      status = BookingStatus.cancelled;
      ended_at = some now;
    }
    ok (cancelled, free_scooter booking.scooter_id low_battery_threshold (put_booking cancelled db))
