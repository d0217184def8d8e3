-- ===== src/Sweeper.antt =====
-- backend/app/services/booking_sweeper.py: expiring overdue bookings and warning about the ones that
-- expire soon. `locked` says which booking rows another transaction holds, which SKIP LOCKED passes
-- over. The events that `sweep_bookings` sends are given by its result.
pub mod Keeps
pub mod Once
pub mod Loop
pub mod Lasting
use mad_devs_transport_shari.Prelude.{
  ℕ, ◌+◌, ◌-◌, ◌*◌, Bool, true, false, not, ◌&&◌, Option, none, some, List, [], ◌∷◌, map, min, leb,
  ltb, is_some, if◌then◌else◌, filter_by,
}
use mad_devs_transport_shari.Models.{Db, Booking}
use mad_devs_transport_shari.Models.Status.{BookingStatus, is_active}
use mad_devs_transport_shari.Bookings.{free_scooter}
use mad_devs_transport_shari.Database.{put_booking}

pub record SweepResult : Type 0 where
  pub expired : List Booking
  pub warned : List Booking

-- `status = 'active' AND expires_at <= now`
abbrev pub is_overdue : ℕ → Booking → Bool
is_overdue now b = is_active b.status && leb b.expires_at now

abbrev pub expired_at : ℕ → Booking → Booking
expired_at now b = record b { status = BookingStatus.expired; ended_at = some now }

-- `status = 'active' AND warned_at IS NULL AND expires_at > now AND expires_at - now <= window`, with
-- the window least(warn_before, (expires_at - created_at) / 2) doubled on both sides.
unfoldable pub must_warn : ℕ → ℕ → Booking → Bool
must_warn now warn_before b =
    is_active b.status
    && (not (is_some b.warned_at)
        && (ltb now b.expires_at
            && leb (2 * (b.expires_at - now))
                (min (2 * warn_before) (b.expires_at - b.created_at))))

abbrev pub stamp_warned : ℕ → Booking → Booking
stamp_warned now b = record b { warned_at = some now }

unfoldable pub warn_row : ℕ → ℕ → Booking → Booking
warn_row now warn_before b = if must_warn now warn_before b then stamp_warned now b else b

module _ {F : Type 0} where
  -- One round of the loop over the overdue bookings.
  unfoldable pub expire_one : ℕ → ℕ → Booking → Db F → Db F
  expire_one now low_battery_threshold booking db =
      free_scooter booking.scooter_id low_battery_threshold
        (put_booking (expired_at now booking) db)

  unfoldable pub expire_loop : ℕ → ℕ → List Booking → Db F → Db F
  expire_loop now low_battery_threshold [] db = db
  expire_loop now low_battery_threshold (booking ∷ rest) db =
      expire_loop now low_battery_threshold rest (expire_one now low_battery_threshold booking db)

  unfoldable pub expire_overdue : (ℕ → Bool) → ℕ → ℕ → Db F → List Booking × Db F
  expire_overdue locked now low_battery_threshold db =
      let overdue = filter_by (λ b. is_overdue now b && not (locked b.id)) db.bookings in
      (map (expired_at now) overdue, expire_loop now low_battery_threshold overdue db)

  unfoldable pub warn_expiring : ℕ → ℕ → Db F → List Booking × Db F
  warn_expiring now warn_before db =
      let claimed = filter_by (must_warn now warn_before) db.bookings in
      (
        map (stamp_warned now) claimed,
        record db { bookings = map (warn_row now warn_before) db.bookings },
      )

  unfoldable pub sweep_bookings : (ℕ → Bool) → ℕ → ℕ → ℕ → Db F → SweepResult × Db F
  sweep_bookings locked now warn_before low_battery_threshold db =
      let (expired, db') = expire_overdue locked now low_battery_threshold db in
      let (warned, db'') = warn_expiring now warn_before db' in
      (record { expired = expired; warned = warned }, db'')
