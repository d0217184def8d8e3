-- ===== src/Tests/Finishes.antt =====
-- The theorems on finishing a ride, at rides of the sample system.
use mad_devs_transport_shari.Prelude.{ℕ, ◌+◌, ◌≡◌, refl, true, List, [], ◌∷◌, none, some}
use mad_devs_transport_shari.Prelude.Int.{ℤ, pos, ◌+ℤ◌, ◌-ℤ◌, ◌*ℤ◌}
use mad_devs_transport_shari.Text.{is_column_text}
use mad_devs_transport_shari.Table.{scalar, put}
use mad_devs_transport_shari.Models.{Db, Ride, Email}
use mad_devs_transport_shari.Rides.Heal.{finish_ride_heals, receipt_email, refuses_all, takes_all}
use mad_devs_transport_shari.Models.Status.{
  is_finished, ScooterStatus, RideStatus, SegmentKind, FinishReason,
}
use mad_devs_transport_shari.Geo.{in_any_zone, point_in_polygon, on_segment, crosses, cast_ray}
use mad_devs_transport_shari.Scooters.{release_status, status_after_telemetry}
use mad_devs_transport_shari.Database.{get_ride_row}
use mad_devs_transport_shari.Outcome.{ok}
use mad_devs_transport_shari.Bookings.{create_booking, commit_booking}
use mad_devs_transport_shari.Timeline.{
  close_ride, open_segment, last_segment, set_last, close_segment, settle,
}
use mad_devs_transport_shari.Billing.{
  duration_seconds, segment_cost, half_up, bill, bill_loop, bill_segment,
}
use mad_devs_transport_shari.Mail.{store_receipt, send_receipt, send_email}
use mad_devs_transport_shari.Rides.{
  FinishResult, start_ride, start_unused, commit_ride, locked_scooter, finish_ride,
  auto_finish_ride, pause_ride, resume_ride, locked_ride, with_receipt,
}
use mad_devs_transport_shari.Rides.Finish.{parked, drained}
use mad_devs_transport_shari.Rides.Receipt.{HasFinished, finish_ride_bills, auto_finish_ride_bills}
use mad_devs_transport_shari.Rides.FinishTwice.{IsRepetition, finish_ride_twice}
use mad_devs_transport_shari.Service.Receipts.{finished_ride_adds_up}
use mad_devs_transport_shari.Timeline.Close.{whole}
use mad_devs_transport_shari.Timeline.Spans.{stored_cost}
use mad_devs_transport_shari.Seed.{seeded, seed_scooters}
use mad_devs_transport_shari.Service.{
  transact, Request, books, starts, pauses, resumes, finishes, serve, run,
}
use mad_devs_transport_shari.Tests.Sample.{whole_numbers, sample_db, settings}
use mad_devs_transport_shari.Tests.Trips.{
  sample-IsValid, ridden_db, ridden-IsValid, first_ride, ridden_scooter, ride_found, scooter_found,
  ride_inside,
}

finish_ride_bills_example :
    (result : FinishResult) × (db' : Db ℤ) × (finish_ride whole_numbers
        (λ e. true)
        1
        1
        settings.zones
        15
        160500000
        ridden_db
      ≡ ok (result, db'))
    × HasFinished 1 (parked ridden_scooter (release_status 92 15)) 160500000 result db'
finish_ride_bills_example =
    finish_ride_bills whole_numbers ridden_db (λ e. true) 1 1 settings.zones 15 160500000 first_ride
      ridden_scooter ridden-IsValid ride_found refl refl scooter_found ride_inside

auto_finish_ride_bills_example :
    (result : FinishResult) × (db' : Db ℤ) × (auto_finish_ride
        (λ e. true)
        1
        (pos 428747)
        (pos 745731)
        9
        10
        160500000
        ridden_db
      ≡ ok (some result, db'))
    × HasFinished 1
        (parked (drained ridden_scooter (pos 428747) (pos 745731) 9) ScooterStatus.unavailable)
        160500000
        result
        db'
auto_finish_ride_bills_example =
    auto_finish_ride_bills ridden_db (λ e. true) 1 (pos 428747) (pos 745731) 9 10 160500000
      first_ride ridden_scooter ridden-IsValid ride_found refl scooter_found

-- The first ride, paused for a minute and finished.
abbrev round_trip : List (Request ℤ)
round_trip =
    books 1 "KG-001" 1000000 1000500
    ∷ starts 1 1 60000000
    ∷ pauses 1 1 120500000
    ∷ resumes 1 1 180000000
    ∷ finishes 1 1 240000000
    ∷ []

abbrev round_ride : Ride
round_ride = record first_ride {
  status = RideStatus.finished;
  finished_at = some 240000000;
  finish_reason = some FinishReason.user;
  ride_seconds = some (pos 120);
  pause_seconds = some (pos 60);
  ride_cost = some 1000;
  pause_cost = some 150;
  total_cost = some 1150;
  segments =
      record {
        kind = SegmentKind.ride;
        started_at = 60000000;
        ended_at = some 120500000;
        seconds = some (pos 60);
        cost = some 500;
      }
      ∷ record {
        kind = SegmentKind.pause;
        started_at = 120500000;
        ended_at = some 180000000;
        seconds = some (pos 60);
        cost = some 150;
      }
      ∷ record {
        kind = SegmentKind.ride;
        started_at = 180000000;
        ended_at = some 240000000;
        seconds = some (pos 60);
        cost = some 500;
      }
      ∷ [];
}

round_found : get_ride_row 1 (run settings round_trip sample_db) ≡ some round_ride
unfolding run serve transact is_column_text create_booking commit_booking start_ride start_unused
    commit_ride locked_scooter pause_ride resume_ride finish_ride locked_ride close_ride
    open_segment last_segment set_last close_segment settle duration_seconds segment_cost half_up
    bill bill_loop bill_segment with_receipt store_receipt send_receipt send_email release_status
    in_any_zone point_in_polygon on_segment crosses cast_ray ◌+ℤ◌ ◌-ℤ◌ ◌*ℤ◌ seed_scooters seeded
    scalar put status_after_telemetry
round_found = refl

finished_ride_adds_up_example :
    (stop : ℕ) × (a : ℕ) × (b : ℕ) × (round_ride.finished_at ≡ some stop)
    × (round_ride.ride_seconds ≡ some (pos a))
    × (round_ride.pause_seconds ≡ some (pos b))
    × (a + b ≡ whole 60000000 stop)
    × (round_ride.total_cost ≡ some (stored_cost round_ride.segments))
finished_ride_adds_up_example =
    finished_ride_adds_up settings round_trip sample_db 1 round_ride sample-IsValid round_found refl

finish_ride_twice_example :
    (result : FinishResult) × (db' : Db ℤ) × (again : FinishResult) × (db'' : Db ℤ) × (finish_ride
        whole_numbers
        (λ e. true)
        1
        1
        settings.zones
        15
        160500000
        ridden_db
      ≡ ok (result, db'))
    × (finish_ride whole_numbers (λ e. true) 1 1 [] 15 150000000 db' ≡ ok (again, db''))
    × IsRepetition result db' again db''
finish_ride_twice_example =
    finish_ride_twice whole_numbers ridden_db (λ e. true) 1 1 settings.zones [] 15 15 160500000
      150000000 first_ride ridden_scooter ridden-IsValid ride_found refl refl scooter_found
      ride_inside

finish_ride_heals_example :
    (result : FinishResult) × (db' : Db ℤ) × (again : FinishResult) × (db'' : Db ℤ) × (finish_ride
        whole_numbers refuses_all 1 1 settings.zones 15 160500000 ridden_db
      ≡ ok (result, db'))
    × (result.finished_now ≡ true)
    × (result.email_id ≡ none)
    × (get_ride_row 1 db' ≡ some result.ride)
    × (is_finished result.ride.status ≡ true)
    × (finish_ride whole_numbers takes_all 1 1 [] 15 150000000 db' ≡ ok (again, db''))
    × (db''.rides ≡ db'.rides)
    × ((e : Email) × (receipt_email result.ride.id db'' ≡ some e))
finish_ride_heals_example =
    finish_ride_heals whole_numbers ridden_db 1 1 settings.zones [] 15 15 160500000 150000000
      first_ride ridden_scooter ridden-IsValid ride_found refl refl scooter_found ride_inside
