-- ===== src/Models.antt =====
-- The rows of backend/app/models: scooters, users, bookings, rides with their segments, e-mails.
-- An instant is a number of microseconds, money a number of kopecks (NUMERIC(10, 2)); a tariff
-- rate is in kopecks per minute. `F` is the type of the coordinates, Python's float.
-- `updated_at` and the server-side `created_at` of scooters, rides and e-mails are not
-- read by the code modelled here, and are left out.
pub mod Status
use mad_devs_transport_shari.Prelude.{ℕ, Bool, Option, List}
use mad_devs_transport_shari.Prelude.Int.{ℤ}
use mad_devs_transport_shari.Text.{String}
use Status.{ScooterStatus, BookingStatus, RideStatus, FinishReason, SegmentKind}

pub record User : Type 0 where
  pub id : ℕ
  pub name : String
  pub email : Option String
  pub password_hash : Option String
  pub created_at : ℕ

pub record Scooter (F : Type 0) : Type 0 where
  pub id : ℕ
  pub code : String
  pub lat : F
  pub lon : F
  pub battery : ℕ
  pub status : ScooterStatus
  pub paused : Bool

pub record Booking : Type 0 where
  pub id : ℕ
  pub user_id : ℕ
  pub scooter_id : ℕ
  pub status : BookingStatus
  pub created_at : ℕ
  pub expires_at : ℕ
  pub warned_at : Option ℕ
  pub ended_at : Option ℕ

-- One stretch of riding or pausing; `seconds` and `cost` are set when the segment closes.
pub record RideSegment : Type 0 where
  pub kind : SegmentKind
  pub started_at : ℕ
  pub ended_at : Option ℕ
  pub seconds : Option ℤ
  pub cost : Option ℕ

-- `segments` stands in the order of the relationship: `started_at`, then `id`.
pub record Ride : Type 0 where
  pub id : ℕ
  pub user_id : ℕ
  pub scooter_id : ℕ
  pub booking_id : ℕ
  pub status : RideStatus
  pub started_at : ℕ
  pub finished_at : Option ℕ
  pub finish_reason : Option FinishReason
  pub finish_battery : Option ℕ
  pub finish_battery_threshold : Option ℕ
  pub ride_rate_per_minute : ℕ
  pub pause_rate_per_minute : ℕ
  pub ride_seconds : Option ℤ
  pub pause_seconds : Option ℤ
  pub ride_cost : Option ℕ
  pub pause_cost : Option ℕ
  pub total_cost : Option ℕ
  pub segments : List RideSegment

-- `dedup_key` stands for the text `ride:{id}:receipt`, the only key the code writes.
pub data DedupKey : Type 0 where
  ride_receipt : ℕ → DedupKey

pub record Email : Type 0 where
  pub id : ℕ
  pub user_id : ℕ
  pub dedup_key : DedupKey

-- The tables of the services but for the accounts, which Accounts.antt has: the services only lock
-- the row of the user.
pub record Db (F : Type 0) : Type 0 where
  pub scooters : List (Scooter F)
  pub bookings : List Booking
  pub rides : List Ride
  pub emails : List Email
  -- the next value of each sequence of primary keys
  pub next_booking : ℕ
  pub next_ride : ℕ
  pub next_email : ℕ
