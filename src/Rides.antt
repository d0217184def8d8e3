-- ===== src/Rides.antt =====
-- backend/app/services/rides.py: start, pause, resume, finish, the automatic finish, and telemetry.
-- Each function is one transaction; `now` is any instant, since it is read before the row locks.
pub mod Start
pub mod NewRide
pub mod Pause
pub mod Finish
pub mod FinishSane
pub mod Telemetry
pub mod Receipt
pub mod Repeat
pub mod FinishTwice
pub mod Heal
pub mod PauseSane
pub mod Update
use mad_devs_transport_shari.Prelude.{
  ℕ, ◌+◌, Bool, true, false, not, ◌&&◌, ◌||◌, Option, none, some, List, [], ◌∷◌, ◌==◌, is_some, leb,
  ltb, if◌then◌else◌, filter_by,
}
use mad_devs_transport_shari.Text.{String, text_eq}
use mad_devs_transport_shari.Table.{scalar}
use mad_devs_transport_shari.Models.{Db, Scooter, Booking, Ride, Email}
use mad_devs_transport_shari.Models.Status.{
  ScooterStatus, BookingStatus, RideStatus, SegmentKind, FinishReason, is_available, is_reserved,
  is_active, is_used, is_finished, is_paused, is_unfinished,
}
use mad_devs_transport_shari.Geo.{FloatOps, Point, in_any_zone}
use mad_devs_transport_shari.Scooters.{TelemetryIn, has_code, release_status, apply_telemetry}
use mad_devs_transport_shari.Mail.{store_receipt}
use mad_devs_transport_shari.Timeline.{close_ride, settle, new_segment, switched}
use mad_devs_transport_shari.Database.{
  put_scooter, put_booking, put_ride, insert_ride, get_scooter, get_booking, get_ride_row,
  rides_user, rides_scooter, of_booking,
}
use mad_devs_transport_shari.Outcome.{
  Outcome, ok, raise, Code, not_found, forbidden, conflict, fault, Fault, assertion_error, raise_if,
  or_raise, ◌>>=◌, ◌>>◌,
}

pub record Tariff : Type 0 where
  pub ride_rate_per_minute : ℕ
  pub pause_rate_per_minute : ℕ

pub record Started : Type 0 where
  pub ride : Ride
  pub created : Bool

pub record FinishResult : Type 0 where
  pub ride : Ride
  pub finished_now : Bool
  pub email_id : Option ℕ

pub record TelemetryResult (F : Type 0) : Type 0 where
  pub scooter : Scooter F
  pub finish : Option FinishResult

module _ {F : Type 0} where
  unfoldable pub get_active_ride : ℕ → Db F → Option Ride
  get_active_ride user_id db = scalar (rides_user user_id) db.rides

  -- `get_ride` and `_locked_ride`, which differ in the lock alone
  unfoldable pub locked_ride : ℕ → ℕ → Db F → Outcome Ride
  locked_ride user_id ride_id db = do
    r ← or_raise (get_ride_row ride_id db) (not_found Code.ride_not_found)
    raise_if (not (r.user_id == user_id)) (forbidden Code.not_your_ride)
    ok r

  unfoldable pub locked_scooter : ℕ → Db F → Outcome (Scooter F)
  locked_scooter scooter_id db = or_raise (get_scooter scooter_id db) (fault assertion_error)

  -- The commit of the new ride: a violated unique index is an IntegrityError.
  unfoldable pub commit_ride : Ride → Db F → Db F → Outcome (Started × Db F)
  commit_ride r before db =
      if is_some (scalar (of_booking r.booking_id) before.rides)
        || (is_some (scalar (rides_user r.user_id) before.rides)
            || is_some (scalar (rides_scooter r.scooter_id) before.rides))
      then raise (conflict Code.user_has_active_ride)
      else ok (record { ride = r; created = true }, db)

  -- A repeated start on a used booking.
  unfoldable pub restart : Option Ride → Db F → Outcome (Started × Db F)
  restart none db = raise (conflict Code.booking_used)
  restart (some existing) db =
      if is_unfinished existing.status
      then ok (record { ride = existing; created = false }, db)
      else raise (conflict Code.booking_used)

  -- The rest of `start_ride`, for a booking that is not used yet.
  unfoldable pub start_unused : ℕ → Booking → Tariff → ℕ → ℕ → Db F → Outcome (Started × Db F)
  start_unused user_id booking tariff now low_battery_threshold db = do
    raise_if (not (is_active booking.status) || leb booking.expires_at now)
        (conflict Code.booking_not_active)
    raise_if (is_some (scalar (rides_user user_id) db.rides)) (conflict Code.user_has_active_ride)
    scooter ← locked_scooter booking.scooter_id db
    raise_if (not (is_reserved scooter.status)) (conflict Code.scooter_not_available)
    raise_if (ltb scooter.battery low_battery_threshold) (conflict Code.scooter_battery_low)
    let r : Ride = record {
      id = db.next_ride;
      user_id = user_id;
      scooter_id = scooter.id;
      booking_id = booking.id;
      status = RideStatus.active;
      started_at = now;
      finished_at = none;
      finish_reason = none;
      finish_battery = none;
      finish_battery_threshold = none;
      ride_rate_per_minute = tariff.ride_rate_per_minute;
      pause_rate_per_minute = tariff.pause_rate_per_minute;
      ride_seconds = none;
      pause_seconds = none;
      ride_cost = none;
      pause_cost = none;
      total_cost = none;
      segments = new_segment SegmentKind.ride now ∷ [];
    }
    commit_ride r db (
        insert_ride r (
          put_scooter (record scooter { status = ScooterStatus.riding })
            (put_booking (record booking { status = BookingStatus.used }) db)))

  unfoldable pub start_ride : ℕ → ℕ → Tariff → ℕ → ℕ → Db F → Outcome (Started × Db F)
  start_ride user_id booking_id tariff now low_battery_threshold db = do
    booking ← or_raise (get_booking booking_id db) (not_found Code.booking_not_found)
    raise_if (not (booking.user_id == user_id)) (forbidden Code.not_your_booking)
    if is_used booking.status
        then restart (scalar (of_booking booking_id) db.rides) db
        else start_unused user_id booking tariff now low_battery_threshold db

  unfoldable pub pause_ride : ℕ → ℕ → ℕ → Db F → Outcome (Ride × Db F)
  pause_ride user_id ride_id now db = do
    r ← locked_ride user_id ride_id db
    elim r.status [
      | RideStatus.finished ↦ raise (conflict Code.ride_finished)
      | RideStatus.paused ↦ ok (r, db)
      | RideStatus.active ↦ do
        scooter ← locked_scooter r.scooter_id db
        (closed, now') ← close_ride r now
        let r' = switched closed SegmentKind.pause now' RideStatus.paused
        ok (r', put_scooter (record scooter { paused = true }) (put_ride r' db))
    ]

  unfoldable pub resume_ride : ℕ → ℕ → ℕ → Db F → Outcome (Ride × Db F)
  resume_ride user_id ride_id now db = do
    r ← locked_ride user_id ride_id db
    elim r.status [
      | RideStatus.finished ↦ raise (conflict Code.ride_finished)
      | RideStatus.active ↦ ok (r, db)
      | RideStatus.paused ↦ do
        scooter ← locked_scooter r.scooter_id db
        (closed, now') ← close_ride r now
        let r' = switched closed SegmentKind.ride now' RideStatus.active
        ok (r', put_scooter (record scooter { paused = false }) (put_ride r' db))
    ]

  -- The receipt e-mail of a ride in the rows `db`, and the result of the call.
  unfoldable pub with_receipt : (Email → Bool) → Ride → Bool → Db F → FinishResult × Db F
  with_receipt accepts r finished_now db =
      let (email_id, db') = store_receipt accepts r db in
      (record { ride = r; finished_now = finished_now; email_id = email_id }, db')

  -- The ride that a finish has settled, flushed with its scooter and its receipt e-mail.
  abbrev pub flush_settled : (Email → Bool) → Ride × Scooter F → Db F → FinishResult × Db F
  flush_settled accepts (r, scooter) db =
      with_receipt accepts r true (put_scooter scooter (put_ride r db))

  unfoldable pub finish_ride :
      FloatOps F
      → (Email → Bool)
      → ℕ
      → ℕ
      → List (List (Point F))
      → ℕ
      → ℕ
      → Db F
      → Outcome (FinishResult × Db F)
  finish_ride fl accepts user_id ride_id zones low_battery_threshold now db = do
    r ← locked_ride user_id ride_id db
    if is_finished r.status then ok (with_receipt accepts r false db) else do
      scooter ← locked_scooter r.scooter_id db
      raise_if (not (in_any_zone fl (record { lat = scooter.lat; lon = scooter.lon }) zones))
          (conflict Code.outside_service_zone)
      settled ←
          settle r scooter now FinishReason.user
            (release_status scooter.battery low_battery_threshold)
      ok (flush_settled accepts settled db)

  -- A ride in progress on the scooter with this code: the join of `unfinished_ride_id`.
  abbrev pub on_scooter : String → Db F → Ride → Bool
  on_scooter code db r =
      is_unfinished r.status
      && elim (get_scooter r.scooter_id db) [ none ↦ false | some s ↦ has_code code s ]

  unfoldable pub unfinished_ride_id : String → Db F → Option ℕ
  unfinished_ride_id code db = elim (scalar (on_scooter code db) db.rides) [
    | none ↦ none
    | some r ↦ some r.id
  ]

  -- A flat battery ends the ride; `none` if the ride has ended already.
  unfoldable pub auto_finish_ride :
      (Email → Bool) → ℕ → F → F → ℕ → ℕ → ℕ → Db F → Outcome (Option FinishResult × Db F)
  auto_finish_ride accepts ride_id lat lon battery threshold now db =
      elim (get_ride_row ride_id db) [
        | none ↦ ok (none, db)
        | some r ↦ if is_finished r.status then ok (none, db) else do
          scooter ← locked_scooter r.scooter_id db
          let located : Scooter F = record scooter { lat = lat; lon = lon; battery = battery }
          let flat : Ride = record r {
            finish_battery = some battery;
            finish_battery_threshold = some threshold;
          }
          settled ← settle flat located now FinishReason.battery ScooterStatus.unavailable
          let (result, db') = flush_settled accepts settled db
          ok (some result, db')
      ]

  -- The report recorded the normal way.
  abbrev pub record_report : TelemetryIn F → ℕ → Db F → Option (TelemetryResult F) × Db F
  record_report telemetry low_battery_threshold db =
      let (found, db') = apply_telemetry telemetry low_battery_threshold db in
      (elim found [ none ↦ none | some s ↦ some (record { scooter = s; finish = none }) ], db')

  -- What a telemetry report answers after the attempt to finish a ride.
  unfoldable pub after_auto_finish :
      TelemetryIn F → ℕ → Option FinishResult × Db F → Outcome (Option (TelemetryResult F) × Db F)
  after_auto_finish telemetry low_battery_threshold (none, db) =
      ok (record_report telemetry low_battery_threshold db)
  after_auto_finish telemetry low_battery_threshold (some finish, db) = do
    scooter ← or_raise (get_scooter finish.ride.scooter_id db) (fault assertion_error)
    ok (some (record { scooter = scooter; finish = some finish }), db)

  unfoldable pub record_telemetry :
      (Email → Bool)
      → TelemetryIn F
      → ℕ
      → ℕ
      → ℕ
      → Db F
      → Outcome (Option (TelemetryResult F) × Db F)
  record_telemetry accepts telemetry low_battery_threshold auto_finish_threshold now db =
      if ltb telemetry.battery auto_finish_threshold
      then elim (unfinished_ride_id telemetry.code db) [
        | none ↦ ok (record_report telemetry low_battery_threshold db)
        | some ride_id ↦ do
          finish ←
              auto_finish_ride accepts ride_id telemetry.lat telemetry.lon telemetry.battery
                auto_finish_threshold now db
          after_auto_finish telemetry low_battery_threshold finish
      ]
      else ok (record_report telemetry low_battery_threshold db)
