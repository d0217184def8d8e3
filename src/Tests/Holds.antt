-- ===== src/Tests/Holds.antt =====
-- The theorems on bookings and the sweeper, at bookings of the sample system.
use mad_devs_transport_shari.Prelude.{
  ◌≡◌, refl, true, false, not, ◌&&◌, [], ◌∷◌, map, none, some, filter_by,
}
use mad_devs_transport_shari.Prelude.Int.{ℤ}
use mad_devs_transport_shari.Text.{is_column_text}
use mad_devs_transport_shari.Table.{scalar, put}
use mad_devs_transport_shari.Models.{Scooter}
use mad_devs_transport_shari.Models.Status.{ScooterStatus}
use mad_devs_transport_shari.Scooters.{release_status, status_after_telemetry}
use mad_devs_transport_shari.Database.{get_scooter}
use mad_devs_transport_shari.Database.Invariant.{IsValid}
use mad_devs_transport_shari.Outcome.{ok}
use mad_devs_transport_shari.Bookings.{create_booking, commit_booking, cancel_booking}
use mad_devs_transport_shari.Bookings.Answers.{cancel_booking_answers}
use mad_devs_transport_shari.Rides.{start_ride}
use mad_devs_transport_shari.Rides.NewRide.{new_ride, started}
use mad_devs_transport_shari.Rides.Repeat.{start_ride_twice}
use mad_devs_transport_shari.Rides.{Tariff}
use mad_devs_transport_shari.Models.{Booking}
use mad_devs_transport_shari.Models.Status.{BookingStatus}
use mad_devs_transport_shari.Database.{get_booking, put_booking, put_scooter}
use mad_devs_transport_shari.Sweeper.{is_overdue, must_warn, stamp_warned, warn_expiring}
use mad_devs_transport_shari.Sweeper.Once.{warn_expiring_once}
use mad_devs_transport_shari.Sweeper.Loop.{
  Round, before_expiry, before_warning, nowhere, run_booking_sweeper,
}
use mad_devs_transport_shari.Sweeper.Lasting.{run_booking_sweeper_expires}
use mad_devs_transport_shari.Seed.{seeded, seed_scooters}
use mad_devs_transport_shari.Service.{transact, serve, run}
use mad_devs_transport_shari.Tests.Sample.{settings}
use mad_devs_transport_shari.Tests.Trips.{first_scooter, held_db, held-IsValid}

warn_expiring_once_example :
    (warn_expiring 860000000 180000000 (warn_expiring 850000000 180000000 held_db).1).0
    ≡ map (stamp_warned 860000000) (
        filter_by
          (λ b. must_warn 860000000 180000000 b && not (must_warn 850000000 180000000 b))
          held_db.bookings)
warn_expiring_once_example = warn_expiring_once 850000000 180000000 860000000 180000000 held_db

-- The database is away, then a pass expires and fails, then all goes well.
abbrev hiccup : Round
hiccup = record { locked = λ i. false; now = 1900000000; failure = before_expiry }

abbrev half_done : Round
half_done = record { locked = λ i. false; now = 2000000000; failure = before_warning }

abbrev quiet_round : Round
quiet_round = record { locked = λ i. true; now = 2010000000; failure = nowhere }

run_booking_sweeper_expires_example :
    let db' = run_booking_sweeper 180000000 15 (hiccup ∷ half_done ∷ quiet_round ∷ []) held_db in
    IsValid db' × (filter_by (is_overdue 2000000000) db'.bookings ≡ [])
run_booking_sweeper_expires_example =
    run_booking_sweeper_expires 180000000 15 (hiccup ∷ []) (quiet_round ∷ []) half_done held_db
      held-IsValid (λ i. refl) refl

abbrev first_booking : Booking
first_booking = record {
  id = 1;
  user_id = 1;
  scooter_id = 1;
  status = BookingStatus.active;
  created_at = 1000500;
  expires_at = 901000000;
  warned_at = none;
  ended_at = none;
}

abbrev held_scooter : Scooter ℤ
held_scooter = record first_scooter { status = ScooterStatus.reserved }

booking_found : get_booking 1 held_db ≡ some first_booking
unfolding run serve transact is_column_text create_booking commit_booking seed_scooters seeded
    scalar put status_after_telemetry
booking_found = refl

held_found : get_scooter 1 held_db ≡ some held_scooter
unfolding run serve transact is_column_text create_booking commit_booking seed_scooters seeded
    scalar put status_after_telemetry
held_found = refl

abbrev dearer : Tariff
dearer = record { ride_rate_per_minute = 900; pause_rate_per_minute = 300 }

start_ride_twice_example :
    (start_ride 1 1 settings.tariff 60000000 15 held_db
      ≡ ok (
        record {
          ride = new_ride held_db 1 first_booking held_scooter settings.tariff 60000000;
          created = true;
        },
        started held_db 1 1 settings.tariff 60000000 15 first_booking held_scooter,
      ))
    × (start_ride 1 1 dearer 950000000 95
          (started held_db 1 1 settings.tariff 60000000 15 first_booking held_scooter)
        ≡ ok (
          record {
            ride = new_ride held_db 1 first_booking held_scooter settings.tariff 60000000;
            created = false;
          },
          started held_db 1 1 settings.tariff 60000000 15 first_booking held_scooter,
        ))
start_ride_twice_example =
    start_ride_twice held_db 1 1 first_booking held_scooter settings.tariff dearer 60000000
      950000000 15 95 held-IsValid booking_found refl refl held_found refl refl

cancel_booking_answers_example :
    cancel_booking 1 1 30000000 15 held_db
    ≡ ok (
      record first_booking { status = BookingStatus.cancelled; ended_at = some 30000000 },
      put_scooter
          (record held_scooter { status = release_status 92 15 })
          (put_booking
            (record first_booking { status = BookingStatus.cancelled; ended_at = some 30000000 })
            held_db),
    )
cancel_booking_answers_example =
    cancel_booking_answers held_db 1 1 30000000 15 first_booking held_scooter held-IsValid
      booking_found refl held_found
