-- ===== src/Database/Invariant.antt =====
-- The rows that belong together across the tables (backend/app/models, services/rides.py,
-- services/bookings.py): what every transaction keeps.
use mad_devs_transport_shari.Prelude.{ℕ, ◌+◌, ◌≤◌, ◌≡◌, Bool, ◌&&◌, ◌==◌, All}
use mad_devs_transport_shari.Table.{count, IsKeyed}
use mad_devs_transport_shari.Models.{Db, Scooter, Booking, Ride, ride_receipt}
use mad_devs_transport_shari.Models.Status.{is_reserved, is_riding, is_used, is_paused}
use mad_devs_transport_shari.Mail.{has_key}
use mad_devs_transport_shari.Timeline.Phases.{IsSound}
use mad_devs_transport_shari.Database.{
  scooter_key, booking_key, ride_key, holds_user, holds_scooter, rides_user, rides_scooter,
  of_booking,
}

module _ {F : Type 0} where
  abbrev pub reserved_as : ℕ → Scooter F → Bool
  reserved_as i s = is_reserved s.status && s.id == i

  abbrev pub riding_as : ℕ → Scooter F → Bool
  riding_as i s = is_riding s.status && s.id == i

  abbrev pub paused_as : ℕ → Scooter F → Bool
  paused_as i s = s.paused && s.id == i

abbrev pub pauses_scooter : ℕ → Ride → Bool
pauses_scooter i r = is_paused r.status && r.scooter_id == i

abbrev pub used_as : ℕ → Booking → Bool
used_as i b = is_used b.status && b.id == i

-- Primary keys are unique and below their sequence; a scooter is reserved for exactly one active
-- booking and riding for exactly one unfinished ride, and marked paused for exactly one paused
-- ride; a user has one hold, booking or ride, at most; a used booking has exactly one ride; the
-- segments and the receipt of every ride are sound; and a ride has one receipt e-mail at most.
pub record IsValid {F : Type 0} (db : Db F) : Type 0 where
  pub scooters_keyed : IsKeyed scooter_key db.scooters
  pub bookings_keyed : IsKeyed booking_key db.bookings
  pub rides_keyed : IsKeyed ride_key db.rides
  pub bookings_fresh :
      (i : ℕ) → db.next_booking ≤ i → count (λ b. booking_key b == i) db.bookings ≡ 0
  pub rides_fresh : (i : ℕ) → db.next_ride ≤ i → count (λ r. ride_key r == i) db.rides ≡ 0
  pub reserved : (i : ℕ) → count (holds_scooter i) db.bookings ≡ count (reserved_as i) db.scooters
  pub riding : (i : ℕ) → count (rides_scooter i) db.rides ≡ count (riding_as i) db.scooters
  pub paused : (i : ℕ) → count (pauses_scooter i) db.rides ≡ count (paused_as i) db.scooters
  pub one_hold : (u : ℕ) → count (holds_user u) db.bookings + count (rides_user u) db.rides ≤ 1
  pub used : (i : ℕ) → count (of_booking i) db.rides ≡ count (used_as i) db.bookings
  pub sound : All IsSound db.rides
  pub mailed : (i : ℕ) → count (has_key (ride_receipt i)) db.emails ≤ 1
