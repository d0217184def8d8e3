-- ===== src/Bookings/Cancel.antt =====
-- backend/app/services/bookings.py, `cancel_booking`: on every branch.
use mad_devs_transport_shari.Prelude.{ℕ, refl, not, ◌==◌, Bool-cases, Option-cases, inl, inr}
use mad_devs_transport_shari.Models.{Db}
use mad_devs_transport_shari.Models.Status.{BookingStatus, is_active}
use mad_devs_transport_shari.Database.{get_booking}
use mad_devs_transport_shari.Database.Invariant.{IsValid}
use mad_devs_transport_shari.Database.Sane.{Sane}
use mad_devs_transport_shari.Outcome.{or_raise}
use mad_devs_transport_shari.Bookings.{cancel_booking}
use mad_devs_transport_shari.Bookings.Release.{release-IsValid}

module _ {F : Type 0} (db : Db F) (user_id booking_id now threshold : ℕ) where
  -- On valid rows `cancel_booking` never ends in an uncaught exception, and it leaves valid rows.
  pub cancel_booking-Sane : IsValid db → Sane (cancel_booking user_id booking_id now threshold db)
  unfolding cancel_booking
  cancel_booking-Sane v = elim (Option-cases (get_booking booking_id db)) [
    | inl missing ↦ rw (missing, or_raise) tt
    | inr (b, found) ↦ elim (Bool-cases (b.user_id == user_id)) [
      | inr stranger ↦ rw (found, or_raise) (rw (stranger, not) tt)
      | inl owner ↦ elim (Bool-cases (is_active b.status)) [
        | inr over ↦ rw (found, or_raise) (rw (owner, over) tt)
        | inl active ↦
            rw (found, or_raise)
              (rw (owner, active)
                (release-IsValid db v booking_id b found active BookingStatus.cancelled now
                  threshold refl refl))
      ]
    ]
  ]
