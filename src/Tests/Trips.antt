-- ===== src/Tests/Trips.antt =====
-- The theorems on the services, and the rows of the sample system after a booking and a ride.
use mad_devs_transport_shari.Prelude.{◌≡◌, refl, true, false, List, [], ◌∷◌, none, some}
use mad_devs_transport_shari.Prelude.Int.{ℤ, pos, ◌+ℤ◌, ◌-ℤ◌, ◌*ℤ◌}
use mad_devs_transport_shari.Text.{is_column_text}
use mad_devs_transport_shari.Table.{scalar, put}
use mad_devs_transport_shari.Models.{Db, Scooter, Ride}
use mad_devs_transport_shari.Models.Status.{ScooterStatus, RideStatus, SegmentKind}
use mad_devs_transport_shari.Geo.{in_any_zone, point_in_polygon, on_segment, crosses, cast_ray}
use mad_devs_transport_shari.Scooters.{has_code, status_after_telemetry}
use mad_devs_transport_shari.Database.{get_ride_row, get_scooter}
use mad_devs_transport_shari.Database.Invariant.{IsValid}
use mad_devs_transport_shari.Database.Sane.{Sane}
use mad_devs_transport_shari.Outcome.{ok}
use mad_devs_transport_shari.Bookings.{create_booking, commit_booking}
use mad_devs_transport_shari.Bookings.Create.{new_booking, booked}
use mad_devs_transport_shari.Bookings.Answers.{create_booking_answers}
use mad_devs_transport_shari.Timeline.{new_segment}
use mad_devs_transport_shari.Rides.{start_ride, start_unused, commit_ride, locked_scooter}
use mad_devs_transport_shari.Rides.Finish.{position}
use mad_devs_transport_shari.Seed.{seeded, seed_scooters}
use mad_devs_transport_shari.Service.{
  transact, Request, books, starts, pauses, resumes, reports, sweeps, serve, run,
}
use mad_devs_transport_shari.Service.Runs.{serve-Sane, run-IsValid, seed_scooters-IsValid}
use mad_devs_transport_shari.Tests.Sample.{whole_numbers, sample_db, settings, fleet_rows}

seed_scooters-IsValid_example : IsValid sample_db
seed_scooters-IsValid_example = seed_scooters-IsValid 15 fleet_rows

pub sample-IsValid : IsValid sample_db
sample-IsValid = seed_scooters-IsValid 15 fleet_rows

serve-Sane_example : Sane (serve settings (books 1 "KG-001" 1000000 1000500) sample_db)
unfolding is_column_text
serve-Sane_example =
    serve-Sane settings (books 1 "KG-001" 1000000 1000500) sample_db sample-IsValid refl

abbrev pub trip : List (Request ℤ)
trip =
    books 1 "KG-001" 1000000 1000500
    ∷ starts 1 1 60000000
    ∷ pauses 1 1 120000000
    ∷ resumes 1 1 180000000
    ∷ reports (record { code = "KG-001"; lat = pos 428756; lon = pos 746036; battery = 9 })
        240000000
    ∷ sweeps (λ i. false) 300000000
    ∷ []

run-IsValid_example : IsValid (run settings trip sample_db)
run-IsValid_example = run-IsValid settings trip sample_db sample-IsValid

abbrev pub first_scooter : Scooter ℤ
first_scooter = record {
  id = 1;
  code = "KG-001";
  lat = pos 428756;
  lon = pos 746036;
  battery = 92;
  status = ScooterStatus.available;
  paused = false;
}

pub first_found : scalar (has_code "KG-001") sample_db.scooters ≡ some first_scooter
unfolding seed_scooters seeded scalar status_after_telemetry
first_found = refl

create_booking_answers_example :
    create_booking 1 "KG-001" 900000000 1000000 1000500 sample_db
    ≡ ok (
      new_booking sample_db 1 first_scooter 900000000 1000000 1000500,
      booked sample_db 1 "KG-001" 900000000 1000000 1000500 first_scooter,
    )
unfolding seed_scooters scalar
create_booking_answers_example =
    create_booking_answers sample_db 1 "KG-001" 900000000 1000000 1000500 first_scooter
      sample-IsValid first_found

-- The rows once the first scooter is booked, and once it is ridden.
abbrev pub held_db : Db ℤ
held_db = run settings (books 1 "KG-001" 1000000 1000500 ∷ []) sample_db

pub held-IsValid : IsValid held_db
held-IsValid = run-IsValid settings (books 1 "KG-001" 1000000 1000500 ∷ []) sample_db sample-IsValid

abbrev pub begin : List (Request ℤ)
begin = books 1 "KG-001" 1000000 1000500 ∷ starts 1 1 60000000 ∷ []

abbrev pub ridden_db : Db ℤ
ridden_db = run settings begin sample_db

pub ridden-IsValid : IsValid ridden_db
ridden-IsValid = run-IsValid settings begin sample_db sample-IsValid

abbrev pub first_ride : Ride
first_ride = record {
  id = 1;
  user_id = 1;
  scooter_id = 1;
  booking_id = 1;
  status = RideStatus.active;
  started_at = 60000000;
  finished_at = none;
  finish_reason = none;
  finish_battery = none;
  finish_battery_threshold = none;
  ride_rate_per_minute = 500;
  pause_rate_per_minute = 150;
  ride_seconds = none;
  pause_seconds = none;
  ride_cost = none;
  pause_cost = none;
  total_cost = none;
  segments = new_segment SegmentKind.ride 60000000 ∷ [];
}

abbrev pub ridden_scooter : Scooter ℤ
ridden_scooter = record first_scooter { status = ScooterStatus.riding }

pub ride_found : get_ride_row 1 ridden_db ≡ some first_ride
unfolding run serve transact is_column_text create_booking commit_booking start_ride start_unused
    commit_ride locked_scooter seed_scooters seeded scalar put status_after_telemetry
ride_found = refl

pub scooter_found : get_scooter 1 ridden_db ≡ some ridden_scooter
unfolding run serve transact is_column_text create_booking commit_booking start_ride start_unused
    commit_ride locked_scooter seed_scooters seeded scalar put status_after_telemetry
scooter_found = refl

pub ride_inside : in_any_zone whole_numbers (position ridden_scooter) settings.zones ≡ true
unfolding in_any_zone point_in_polygon on_segment crosses cast_ray ◌+ℤ◌ ◌-ℤ◌ ◌*ℤ◌
ride_inside = refl
