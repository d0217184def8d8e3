-- ===== src/Bookings/Answers.antt =====
-- backend/app/services/bookings.py: what `create_booking` and `cancel_booking` answer on every branch.
use mad_devs_transport_shari.Prelude.{
  ℕ, ◌≡◌, true, false, not, none, some, arith, is_some, if◌then◌else◌, Bool-cases, inl, inr,
}
use mad_devs_transport_shari.Text.{String}
use mad_devs_transport_shari.Table.{scalar}
use mad_devs_transport_shari.Table.Laws.{get-scalar}
use mad_devs_transport_shari.Models.{Db, Scooter, Booking}
use mad_devs_transport_shari.Models.Status.{
  ScooterStatus, BookingStatus, is_available, is_reserved, is_active,
}
use mad_devs_transport_shari.Scooters.{has_code, release_status}
use mad_devs_transport_shari.Database.{
  scooter_key, holds_user, rides_user, holds_scooter, get_booking, get_scooter, put_booking,
  put_scooter,
}
use mad_devs_transport_shari.Database.Held.{booking_scooter}
use mad_devs_transport_shari.Database.Invariant.{IsValid}
use mad_devs_transport_shari.Database.Free.{no_booking_of}
use mad_devs_transport_shari.Outcome.{ok, raise, Code, conflict}
use mad_devs_transport_shari.Bookings.{create_booking, commit_booking, cancel_booking, free_scooter}
use mad_devs_transport_shari.Bookings.Create.{new_booking, booked}

available_not_reserved : (st : ScooterStatus) → is_available st ≡ true → is_reserved st ≡ false
available_not_reserved st h = ground arith

commit_booking-free :
    {F : Type 0} (b : Booking) (before db : Db F)
    → scalar (holds_scooter b.scooter_id) before.bookings ≡ none
    → scalar (holds_user b.user_id) before.bookings ≡ none
    → commit_booking b before db ≡ ok (b, db)
unfolding commit_booking
commit_booking-free b before db free idle = ground arith

-- What `create_booking` answers for a known scooter, on valid rows: a conflict if the scooter is not
-- available, if the user has an active booking, or if the user has a ride, in this order; else
-- the new booking, with the scooter reserved. A unique index is never violated.
pub create_booking_answers :
    {F : Type 0} (db : Db F) (user_id : ℕ) (code : String) (ttl now clock : ℕ) (s : Scooter F)
    → IsValid db
    → scalar (has_code code) db.scooters ≡ some s
    → create_booking user_id code ttl now clock db ≡ (
        if not (is_available s.status)
        then raise (conflict Code.scooter_not_available)
        else if is_some (scalar (holds_user user_id) db.bookings)
        then raise (conflict Code.user_has_active_booking)
        else if is_some (scalar (rides_user user_id) db.rides)
        then raise (conflict Code.user_has_active_ride)
        else ok (new_booking db user_id s ttl now clock, booked db user_id code ttl now clock s))
unfolding create_booking
create_booking_answers db user_id code ttl now clock s v found =
    let own = get-scalar scooter_key (has_code code) db.scooters s v.scooters_keyed found in
    ground (
      arith,
      available_not_reserved s.status,
      no_booking_of db v s own,
      commit_booking-free (new_booking db user_id s ttl now clock) db
          (booked db user_id code ttl now clock s),
    )

-- What `cancel_booking` answers to the owner of a booking, on valid rows: a conflict if the booking is not
-- active; else the cancelled booking, and its scooter, which is still reserved, is released: it is
-- available, or unavailable if its battery is low.
pub cancel_booking_answers :
    {F : Type 0} (db : Db F) (user_id booking_id now threshold : ℕ) (b : Booking) (s : Scooter F)
    → IsValid db
    → get_booking booking_id db ≡ some b
    → b.user_id ≡ user_id
    → get_scooter b.scooter_id db ≡ some s
    → let cancelled : Booking = record b {
      status = BookingStatus.cancelled;
      ended_at = some now;
    } in
      cancel_booking user_id booking_id now threshold db ≡ (
        if is_active b.status
        then ok (
          cancelled,
          put_scooter
              (record s { status = release_status s.battery threshold })
              (put_booking cancelled db),
        )
        else raise (conflict Code.booking_not_active))
unfolding cancel_booking free_scooter
cancel_booking_answers db user_id booking_id now threshold b s v found owner at =
    elim (Bool-cases (is_active b.status)) [
      | inl active ↦
          let (s', at', reserved) = booking_scooter db v booking_id b found active in
          ground (arith, active, at', reserved)
      | inr over ↦ ground (arith, over)
    ]
