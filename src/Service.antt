-- ===== src/Service.antt =====
-- The requests that change rides and bookings (backend/app/api/bookings.py, rides.py, scooters.py) and
-- the passes of the sweeper, in the order in which the row locks let them through. `now` of each is
-- any instant: requests need not arrive in the order of their clocks.
pub mod Receipts
pub mod Runs
pub mod Others
pub mod OthersRides
pub mod OthersStart
pub mod Owners
use mad_devs_transport_shari.Prelude.{ℕ, Bool, true, false, List, [], ◌∷◌, ltb}
use mad_devs_transport_shari.Text.{String, is_column_text}
use mad_devs_transport_shari.Models.{Db, Email}
use mad_devs_transport_shari.Geo.{FloatOps, Point}
use mad_devs_transport_shari.Scooters.{TelemetryIn}
use mad_devs_transport_shari.Outcome.{Outcome, ok, raise, if_encoded}
use mad_devs_transport_shari.Database.{after}
use mad_devs_transport_shari.Bookings.{create_booking, cancel_booking}
use mad_devs_transport_shari.Rides.{
  Tariff, start_ride, pause_ride, resume_ride, finish_ride, record_telemetry,
}
use mad_devs_transport_shari.Sweeper.{sweep_bookings}

-- The settings of core/config.py that the services are called with, the zones in the database, and
-- what is not modelled: floats, and whether the database takes the row of an e-mail.
pub record Settings (F : Type 0) : Type 0 where
  pub low_battery_threshold : ℕ
  pub ride_auto_finish_battery : ℕ
  pub booking_ttl : ℕ
  pub booking_warn_before : ℕ
  pub tariff : Tariff
  pub zones : List (List (Point F))
  pub floats : FloatOps F
  pub accepts : Email → Bool

pub data Request (F : Type 0) : Type 0 where
  books : (user_id : ℕ) (scooter_code : String) (now clock : ℕ) → Request F
  cancels : (user_id booking_id now : ℕ) → Request F
  starts : (user_id booking_id now : ℕ) → Request F
  pauses : (user_id ride_id now : ℕ) → Request F
  resumes : (user_id ride_id now : ℕ) → Request F
  finishes : (user_id ride_id now : ℕ) → Request F
  reports : (telemetry : TelemetryIn F) (now : ℕ) → Request F
  sweeps : (locked : ℕ → Bool) (now : ℕ) → Request F

-- How a call ended, its value left out.
abbrev pub ended : {A : Type 0} {F : Type 0} → Outcome (A × Db F) → Outcome (Unit {0} × Db F)
ended (ok (a, db)) = ok (tt, db)
ended (raise e) = raise e

-- Does the driver take an id from the request? The columns are of 32 bits, with a sign.
abbrev pub is_column_id : ℕ → Bool
is_column_id i = ltb i 2147483648

-- The id or the code that the request brings.
abbrev pub encodes : {F : Type 0} → Request F → Bool
encodes (books user_id code now clock) = is_column_text code
encodes (cancels user_id booking_id now) = is_column_id booking_id
encodes (starts user_id booking_id now) = is_column_id booking_id
encodes (pauses user_id ride_id now) = is_column_id ride_id
encodes (resumes user_id ride_id now) = is_column_id ride_id
encodes (finishes user_id ride_id now) = is_column_id ride_id
encodes (reports telemetry now) = is_column_text telemetry.code
encodes (sweeps locked now) = true

module _ {F : Type 0} (c : Settings F) where
  unfoldable pub transact : Request F → Db F → Outcome (Unit {0} × Db F)
  transact (books user_id code now clock) db =
      ended (create_booking user_id code c.booking_ttl now clock db)
  transact (cancels user_id booking_id now) db =
      ended (cancel_booking user_id booking_id now c.low_battery_threshold db)
  transact (starts user_id booking_id now) db =
      ended (start_ride user_id booking_id c.tariff now c.low_battery_threshold db)
  transact (pauses user_id ride_id now) db = ended (pause_ride user_id ride_id now db)
  transact (resumes user_id ride_id now) db = ended (resume_ride user_id ride_id now db)
  transact (finishes user_id ride_id now) db =
      ended (finish_ride c.floats c.accepts user_id ride_id c.zones c.low_battery_threshold now db)
  transact (reports telemetry now) db = ended (
      record_telemetry c.accepts telemetry c.low_battery_threshold c.ride_auto_finish_battery now
        db)
  transact (sweeps locked now) db =
      ended (ok (sweep_bookings locked now c.booking_warn_before c.low_battery_threshold db))

  -- A parameter that the driver cannot encode is a DataError of the first query.
  unfoldable pub serve : Request F → Db F → Outcome (Unit {0} × Db F)
  serve q db = if_encoded (encodes q) (transact q db)

  -- The rows after a history of requests.
  unfoldable pub run : List (Request F) → Db F → Db F
  run [] db = db
  run (q ∷ rest) db = run rest (after db (serve q db))
