-- ===== src/Database.antt =====
-- The tables that the services write (backend/app/models), seen as one value: a service call is one
-- transaction, which the row locks serialise, so it is a function of the rows that it finds. A call
-- that raises commits nothing and leaves the rows as they were.
pub mod Invariant
pub mod Held
pub mod Free
pub mod Sane
use mad_devs_transport_shari.Prelude.{ℕ, ◌+◌, Bool, ◌&&◌, List, [], ◌∷◌, ◌++◌, Option, ◌==◌}
use mad_devs_transport_shari.Table.{scalar, get, put}
use mad_devs_transport_shari.Models.{Db, Scooter, Booking, Ride, User, Email}
use mad_devs_transport_shari.Models.Status.{is_active, is_unfinished}
use mad_devs_transport_shari.Outcome.{Outcome, ok, raise}

abbrev pub scooter_key : {F : Type 0} → Scooter F → ℕ
scooter_key s = s.id

abbrev pub booking_key : Booking → ℕ
booking_key b = b.id

abbrev pub ride_key : Ride → ℕ
ride_key r = r.id

module _ {F : Type 0} where
  -- the flush of a changed row
  abbrev pub put_scooter : Scooter F → Db F → Db F
  put_scooter s db = record db { scooters = put scooter_key s db.scooters }

  abbrev pub put_booking : Booking → Db F → Db F
  put_booking b db = record db { bookings = put booking_key b db.bookings }

  abbrev pub put_ride : Ride → Db F → Db F
  put_ride r db = record db { rides = put ride_key r db.rides }

  abbrev pub insert_booking : Booking → Db F → Db F
  insert_booking b db = record db {
    bookings = db.bookings ++ b ∷ [];
    next_booking = db.next_booking + 1;
  }

  abbrev pub insert_ride : Ride → Db F → Db F
  insert_ride r db = record db { rides = db.rides ++ r ∷ []; next_ride = db.next_ride + 1 }

  abbrev pub get_scooter : ℕ → Db F → Option (Scooter F)
  get_scooter i db = get scooter_key i db.scooters

  abbrev pub get_booking : ℕ → Db F → Option Booking
  get_booking i db = get booking_key i db.bookings

  abbrev pub get_ride_row : ℕ → Db F → Option Ride
  get_ride_row i db = get ride_key i db.rides

  -- The rows after a call: a raise rolls back.
  abbrev pub after {ℓ} : {A : Type ℓ} → Db F → Outcome (A × Db F) → Db F
  after db (ok (a, db')) = db'
  after db (raise e) = db

-- the WHERE clauses that recur
abbrev pub holds_user : ℕ → Booking → Bool
holds_user u b = is_active b.status && b.user_id == u

abbrev pub holds_scooter : ℕ → Booking → Bool
holds_scooter i b = is_active b.status && b.scooter_id == i

abbrev pub rides_user : ℕ → Ride → Bool
rides_user u r = is_unfinished r.status && r.user_id == u

abbrev pub rides_scooter : ℕ → Ride → Bool
rides_scooter i r = is_unfinished r.status && r.scooter_id == i

abbrev pub of_booking : ℕ → Ride → Bool
of_booking b r = r.booking_id == b
