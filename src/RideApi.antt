-- ===== src/RideApi.antt =====
-- backend/app/schemas/ride.py, booking.py, scooter.py, email.py: what the API shows of a row; and
-- realtime/hub.py, publish.py, api/bookings.py, services/booking_sweeper.py: the messages that a change puts
-- out, in their order. The texts of an e-mail and the times of a change are left out.
pub mod Handlers
pub mod Refines
pub mod Calls
pub mod Runs
pub mod Valid
use mad_devs_transport_shari.Prelude.{
  ℕ, ◌-◌, ◌/◌, Bool, true, false, Option, none, some, List, [], ◌∷◌, ◌++◌, map, or_else,
}
use mad_devs_transport_shari.Prelude.Int.{ℤ, pos}
use mad_devs_transport_shari.Text.{String}
use mad_devs_transport_shari.Table.{get}
use mad_devs_transport_shari.Models.{Db, Scooter, Booking, Ride, RideSegment, Email, DedupKey}
use mad_devs_transport_shari.Models.Status.{
  ScooterStatus, BookingStatus, RideStatus, FinishReason, SegmentKind, is_finished,
}
use mad_devs_transport_shari.Database.{get_scooter}
use mad_devs_transport_shari.Outcome.{
  Outcome, ok, raise, fault, assertion_error, attribute_error, or_raise, ◌>>=◌, ◌>>◌,
}
use mad_devs_transport_shari.Sweeper.{SweepResult}

pub record ScooterOut (F : Type 0) : Type 0 where
  pub code : String
  pub lat : F
  pub lon : F
  pub battery : ℕ
  pub status : ScooterStatus
  pub paused : Bool

pub record BookingOut : Type 0 where
  pub id : ℕ
  pub scooter_code : String
  pub user_id : ℕ
  pub status : BookingStatus
  pub created_at : ℕ
  pub expires_at : ℕ

pub record ReceiptOut : Type 0 where
  pub ride_seconds : ℤ
  pub pause_seconds : ℤ
  pub ride_cost : ℕ
  pub pause_cost : ℕ
  pub total_cost : ℕ

-- A `RideSegmentOut` has the columns of the segment's row.
pub record RideOut : Type 0 where
  pub id : ℕ
  pub scooter_code : String
  pub user_id : ℕ
  pub status : RideStatus
  pub started_at : ℕ
  pub finished_at : Option ℕ
  pub ride_rate_per_minute : ℕ
  pub pause_rate_per_minute : ℕ
  pub segments : List RideSegment
  pub receipt : Option ReceiptOut
  pub finish_reason : Option FinishReason
  pub finish_battery : Option ℕ
  pub finish_battery_threshold : Option ℕ

pub record EmailOut : Type 0 where
  pub id : ℕ
  pub dedup_key : DedupKey

pub data RideChange : Type 0 where
  ride_started ride_paused ride_resumed ride_finished : RideChange

pub data BookingChange : Type 0 where
  booking_created booking_cancelled booking_expired : BookingChange

pub data Event (F : Type 0) : Type 0 where
  scooter_updated : ScooterOut F → Event F
  booking_event : BookingChange → BookingOut → Event F
  booking_expiring : BookingOut → ℕ → Event F
  ride_event : RideChange → RideOut → Event F
  email_sent : EmailOut → Event F

-- `hub.broadcast` and `hub.send_to_user`
pub data Message (F : Type 0) : Type 0 where
  to_everyone : Event F → Message F
  to_user : ℕ → Event F → Message F

-- The receipt of a finished ride; the assertion is that it has a total.
unfoldable pub receipt_of : Ride → Outcome (Option ReceiptOut)
receipt_of r = elim (is_finished r.status) [
  | false ↦ ok none
  | true ↦ do
    total ← or_raise r.total_cost (fault assertion_error)
    ok (
        some (record {
          ride_seconds = or_else r.ride_seconds (pos 0);
          pause_seconds = or_else r.pause_seconds (pos 0);
          ride_cost = or_else r.ride_cost 0;
          pause_cost = or_else r.pause_cost 0;
          total_cost = total;
        }))
]

abbrev pub as_email_out : Email → EmailOut
as_email_out e = record { id = e.id; dedup_key = e.dedup_key }

module _ {F : Type 0} where
  abbrev pub as_scooter_out : Scooter F → ScooterOut F
  as_scooter_out s = record {
    code = s.code;
    lat = s.lat;
    lon = s.lon;
    battery = s.battery;
    status = s.status;
    paused = s.paused;
  }

  -- `ride.scooter`, `booking.scooter`: the related row.
  unfoldable pub related_scooter : ℕ → Db F → Outcome (Scooter F)
  related_scooter scooter_id db = or_raise (get_scooter scooter_id db) (fault attribute_error)

  unfoldable pub from_booking : Booking → Db F → Outcome BookingOut
  from_booking booking db = do
    scooter ← related_scooter booking.scooter_id db
    ok (record {
      id = booking.id;
      scooter_code = scooter.code;
      user_id = booking.user_id;
      status = booking.status;
      created_at = booking.created_at;
      expires_at = booking.expires_at;
    })

  unfoldable pub from_ride : Ride → Db F → Outcome RideOut
  from_ride r db = do
    receipt ← receipt_of r
    scooter ← related_scooter r.scooter_id db
    ok (record {
      id = r.id;
      scooter_code = scooter.code;
      user_id = r.user_id;
      status = r.status;
      started_at = r.started_at;
      finished_at = r.finished_at;
      ride_rate_per_minute = r.ride_rate_per_minute;
      pause_rate_per_minute = r.pause_rate_per_minute;
      segments = r.segments;
      receipt = receipt;
      finish_reason = r.finish_reason;
      finish_battery = r.finish_battery;
      finish_battery_threshold = r.finish_battery_threshold;
    })

  -- Everyone learns of the scooter, the owner of the booking.
  unfoldable pub publish_booking_change :
      Booking → BookingChange → Db F → Outcome (BookingOut × List (Message F))
  publish_booking_change booking change db = do
    out ← from_booking booking db
    scooter ← related_scooter booking.scooter_id db
    ok (
      out,
      to_everyone (scooter_updated (as_scooter_out scooter))
          ∷ to_user booking.user_id (booking_event change out)
          ∷ [],
    )

  -- Everyone learns of the scooter, the rider of the ride.
  unfoldable pub publish_ride_change :
      Ride → RideChange → Db F → Outcome (RideOut × List (Message F))
  publish_ride_change r change db = do
    out ← from_ride r db
    scooter ← related_scooter r.scooter_id db
    ok (
      out,
      to_everyone (scooter_updated (as_scooter_out scooter))
          ∷ to_user r.user_id (ride_event change out)
          ∷ [],
    )

  -- Only an e-mail that this call has stored is announced.
  unfoldable pub announce_receipt : Ride → Option ℕ → Db F → List (Message F)
  announce_receipt r none db = []
  announce_receipt r (some email_id) db = elim (get (λ e. Email.id e) email_id db.emails) [
    | none ↦ []
    | some email ↦ to_user r.user_id (email_sent (as_email_out email)) ∷ []
  ]

  unfoldable pub publish_expired : List Booking → Db F → Outcome (List (Message F))
  publish_expired [] db = ok []
  publish_expired (booking ∷ rest) db = do
    (out, messages) ← publish_booking_change booking booking_expired db
    later ← publish_expired rest db
    ok (messages ++ later)

  -- `seconds_left` of the instants, in whole seconds.
  unfoldable pub publish_warned : ℕ → List Booking → Db F → Outcome (List (Message F))
  publish_warned now [] db = ok []
  publish_warned now (booking ∷ rest) db = do
    out ← from_booking booking db
    later ← publish_warned now rest db
    ok (
        to_user booking.user_id (booking_expiring out ((booking.expires_at - now) / 1000000))
        ∷ later)

  -- The messages of a pass of the sweeper.
  unfoldable pub publish_sweep : ℕ → SweepResult → Db F → Outcome (List (Message F))
  publish_sweep now result db = do
    expired ← publish_expired result.expired db
    warned ← publish_warned now result.warned db
    ok (expired ++ warned)
