-- ===== src/Service/Runs.antt =====
-- What holds of the rows after every history of requests.
use mad_devs_transport_shari.Prelude.{
  Bool, true, false, ℕ, suc, ◌<◌, ◌≡◌, refl, List, [], ◌∷◌, ◌==◌, arith,
}
use mad_devs_transport_shari.Table.{count, IsKeyed}
use mad_devs_transport_shari.Models.{Db}
use mad_devs_transport_shari.Scooters.{status_after_telemetry}
use mad_devs_transport_shari.Outcome.{Outcome, ok, raise, if_encoded}
use mad_devs_transport_shari.Database.{after, scooter_key}
use mad_devs_transport_shari.Database.Invariant.{IsValid, reserved_as, riding_as, paused_as}
use mad_devs_transport_shari.Database.Sane.{Sane, Sane-after}
use mad_devs_transport_shari.Bookings.Create.{create_booking-Sane}
use mad_devs_transport_shari.Bookings.Cancel.{cancel_booking-Sane}
use mad_devs_transport_shari.Rides.Start.{start_ride-Sane}
use mad_devs_transport_shari.Rides.PauseSane.{pause_ride-Sane, resume_ride-Sane}
use mad_devs_transport_shari.Rides.FinishSane.{finish_ride-Sane}
use mad_devs_transport_shari.Rides.Telemetry.{record_telemetry-Sane}
use mad_devs_transport_shari.Sweeper.Keeps.{sweep_bookings-IsValid}
use mad_devs_transport_shari.Seed.{SeedRow, seeded, seed_scooters}
use mad_devs_transport_shari.Service.{
  Settings, Request, books, cancels, starts, pauses, resumes, finishes, reports, sweeps, ended,
  transact, encodes, serve, run,
}

Sane-ended : {A F : Type 0} (o : Outcome (A × Db F)) → Sane o → Sane (ended o)
Sane-ended (ok (a, db)) h = h
Sane-ended (raise e) h = h

encoded-IsValid :
    {F : Type 0} (fits : Bool) (o : Outcome (Unit {0} × Db F)) (db : Db F)
    → IsValid db
    → Sane o
    → IsValid (after db (if_encoded fits o))
encoded-IsValid true o db v h = Sane-after db o v h
encoded-IsValid false o db v h = v

module _ {F : Type 0} (c : Settings F) where
  transact-Sane : (q : Request F) (db : Db F) → IsValid db → Sane (transact c q db)
  unfolding transact
  transact-Sane (books user_id code now clock) db v =
      Sane-ended _ (create_booking-Sane db user_id code c.booking_ttl now clock v)
  transact-Sane (cancels user_id booking_id now) db v =
      Sane-ended _ (cancel_booking-Sane db user_id booking_id now c.low_battery_threshold v)
  transact-Sane (starts user_id booking_id now) db v =
      Sane-ended _ (start_ride-Sane db user_id booking_id c.tariff now c.low_battery_threshold v)
  transact-Sane (pauses user_id ride_id now) db v =
      Sane-ended _ (pause_ride-Sane db user_id ride_id now v)
  transact-Sane (resumes user_id ride_id now) db v =
      Sane-ended _ (resume_ride-Sane db user_id ride_id now v)
  transact-Sane (finishes user_id ride_id now) db v =
      Sane-ended _ (
        finish_ride-Sane db v c.accepts ride_id c.floats user_id c.zones c.low_battery_threshold
          now)
  transact-Sane (reports telemetry now) db v = Sane-ended _ (
      record_telemetry-Sane db v c.accepts telemetry c.low_battery_threshold
        c.ride_auto_finish_battery now)
  transact-Sane (sweeps locked now) db v =
      sweep_bookings-IsValid locked now c.booking_warn_before c.low_battery_threshold db v

  -- On valid rows no request ends in an uncaught exception if its parameters can be encoded: the id that
  -- it brings is below 2 ^ 31, the code of the scooter has no character U+0000. It answers and leaves
  -- valid rows, or it is refused with one of the API's errors. The ids, seconds and amounts that the code
  -- itself stores are taken to fit their columns.
  pub serve-Sane : (q : Request F) (db : Db F) → IsValid db → encodes q ≡ true → Sane (serve c q db)
  unfolding serve
  serve-Sane q db v fits = rw (serve, fits) (transact-Sane q db v)

  -- However a request ends, the rows are valid.
  pub serve-IsValid : (q : Request F) (db : Db F) → IsValid db → IsValid (after db (serve c q db))
  unfolding serve
  serve-IsValid q db v = encoded-IsValid (encodes q) (transact c q db) db v (transact-Sane q db v)

  -- Valid rows are valid after every history of requests, in any order and at any instants: among
  -- others, a scooter is reserved for exactly one active booking and riding for exactly one
  -- unfinished ride, a user has one hold at most, a used booking has one ride, every ride's segments
  -- follow each other without gaps, and a ride has one receipt e-mail at most.
  pub run-IsValid : (qs : List (Request F)) (db : Db F) → IsValid db → IsValid (run c qs db)
  unfolding run
  run-IsValid [] db v = v
  run-IsValid (q ∷ rest) db v = run-IsValid rest (after db (serve c q db)) (serve-IsValid q db v)

-- The rows before the first request: no bookings, rides and e-mails, and no scooters yet.
abbrev pub empty_db : {F : Type 0} → Db F
empty_db = record {
  scooters = [];
  bookings = [];
  rides = [];
  emails = [];
  next_booking = 1;
  next_ride = 1;
  next_email = 1;
}

seeded-above :
    {F : Type 0} (threshold next i : ℕ) (rows : List (SeedRow F))
    → i < next
    → count (λ s. scooter_key s == i) (seeded threshold next rows) ≡ 0
unfolding count seeded
seeded-above threshold next i [] h = refl
seeded-above threshold next i (row ∷ rows) h =
    ground (arith, seeded-above threshold (suc next) i rows)

seeded-IsKeyed :
    {F : Type 0} (threshold next : ℕ) (rows : List (SeedRow F))
    → IsKeyed scooter_key (seeded threshold next rows)
unfolding count seeded
seeded-IsKeyed threshold next [] i = omega arith
seeded-IsKeyed threshold next (row ∷ rows) i =
    ground
      (arith, seeded-IsKeyed threshold (suc next) rows i, seeded-above threshold (suc next) i rows)

seeded-free :
    {F : Type 0} (threshold next i : ℕ) (rows : List (SeedRow F))
    → (count (reserved_as i) (seeded threshold next rows) ≡ 0)
      × (count (riding_as i) (seeded threshold next rows) ≡ 0)
      × (count (paused_as i) (seeded threshold next rows) ≡ 0)
unfolding count seeded status_after_telemetry
seeded-free threshold next i [] = (refl, refl, refl)
seeded-free threshold next i (row ∷ rows) =
    let rest = seeded-free threshold (suc next) i rows in
    (ground (arith, rest.0), ground (arith, rest.1), ground (arith, rest.2))

-- The rows that seeding an empty database leaves are valid.
pub seed_scooters-IsValid :
    {F : Type 0} (threshold : ℕ) (rows : List (SeedRow F))
    → IsValid (seed_scooters threshold rows empty_db).1
unfolding seed_scooters count
seed_scooters-IsValid threshold rows = record {
  scooters_keyed = seeded-IsKeyed threshold 1 rows;
  bookings_keyed = λ i. omega arith;
  rides_keyed = λ i. omega arith;
  bookings_fresh = λ i h. refl;
  rides_fresh = λ i h. refl;
  reserved = λ i. omega (arith, (seeded-free threshold 1 i rows).0);
  riding = λ i. omega (arith, (seeded-free threshold 1 i rows).1);
  paused = λ i. omega (arith, (seeded-free threshold 1 i rows).2);
  one_hold = λ u. omega arith;
  used = λ i. refl;
  sound = tt;
  mailed = λ i. omega arith;
}
