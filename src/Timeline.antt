-- ===== src/Timeline.antt =====
-- backend/app/services/rides.py, `_open_segment`, `_close_segment` and `_settle`: the segments of a
-- ride, closed at the call's time and billed when the ride ends.
pub mod Close
pub mod Phases
pub mod Spans
use mad_devs_transport_shari.Prelude.{
  ℕ, ◌+◌, Bool, true, false, Option, none, some, List, [], ◌∷◌, ◌++◌, map, max, or_else, is_some,
}
use mad_devs_transport_shari.Prelude.Int.{ℤ, pos, sub_ℕ}
use mad_devs_transport_shari.Models.{Ride, RideSegment, Scooter}
use mad_devs_transport_shari.Models.Status.{SegmentKind, FinishReason, RideStatus, ScooterStatus}
use mad_devs_transport_shari.Outcome.{
  Outcome, ok, raise, fault, Fault, index_error, assertion_error, raise_if, or_raise, ◌>>=◌, ◌>>◌,
}
use mad_devs_transport_shari.Billing.{Segment, Receipt, segment_cost, duration_seconds, bill}

-- `ride.segments[-1]`
unfoldable pub last_segment : List RideSegment → Option RideSegment
last_segment [] = none
last_segment (s ∷ []) = some s
last_segment (s ∷ t ∷ rest) = last_segment (t ∷ rest)

-- The segment object is the list's last element: what is assigned to it shows in the list.
unfoldable pub set_last : RideSegment → List RideSegment → List RideSegment
set_last x [] = []
set_last x (s ∷ []) = x ∷ []
set_last x (s ∷ t ∷ rest) = s ∷ set_last x (t ∷ rest)

unfoldable pub open_segment : Ride → Outcome RideSegment
open_segment r = do
  segment ← or_raise (last_segment r.segments) (fault index_error)
  raise_if (is_some segment.ended_at) (fault assertion_error)
  ok segment

-- The tariff that a segment is billed by.
abbrev pub rate_of : Ride → SegmentKind → ℕ
rate_of r SegmentKind.ride = r.ride_rate_per_minute
rate_of r SegmentKind.pause = r.pause_rate_per_minute

-- The closed segment and the effective time.
unfoldable pub close_segment : Ride → RideSegment → ℕ → Outcome (RideSegment × ℕ)
close_segment r segment now = do
  let now' = max now segment.started_at
  until_now ← duration_seconds r.started_at now'
  before ← duration_seconds r.started_at segment.started_at
  let seconds = sub_ℕ until_now before
  cost ← segment_cost (rate_of r segment.kind) seconds
  ok (record segment { ended_at = some now'; seconds = some seconds; cost = some cost }, now')

-- `_close_segment(ride, _open_segment(ride), now)`: the ride with its last segment closed.
unfoldable pub close_ride : Ride → ℕ → Outcome (Ride × ℕ)
close_ride r now = do
  segment ← open_segment r
  (closed, now') ← close_segment r segment now
  ok (record r { segments = set_last closed r.segments }, now')

-- `Segment(s.kind, s.seconds or 0)`
abbrev pub billed : RideSegment → Segment
billed s = record { kind = s.kind; seconds = or_else s.seconds (pos 0) }

module _ {F : Type 0} where
  unfoldable pub settle :
      Ride → Scooter F → ℕ → FinishReason → ScooterStatus → Outcome (Ride × Scooter F)
  settle r scooter now reason scooter_status = do
    (r', now') ← close_ride r now
    receipt ← bill (map billed r'.segments) r'.ride_rate_per_minute r'.pause_rate_per_minute
    ok (
      record r' {
        ride_seconds = some receipt.ride_seconds;
        pause_seconds = some receipt.pause_seconds;
        ride_cost = some receipt.ride_cost;
        pause_cost = some receipt.pause_cost;
        total_cost = some receipt.total_cost;
        finished_at = some now';
        finish_reason = some reason;
        status = RideStatus.finished;
      },
      record scooter { status = scooter_status; paused = false },
    )

-- `RideSegment(kind=..., started_at=...)`
abbrev pub new_segment : SegmentKind → ℕ → RideSegment
new_segment kind started_at = record {
  kind = kind;
  started_at = started_at;
  ended_at = none;
  seconds = none;
  cost = none;
}

-- `ride.segments.append(...)` of a pause or a resume, with the new status.
abbrev pub switched : Ride → SegmentKind → ℕ → RideStatus → Ride
switched r kind now status = record r {
  segments = r.segments ++ new_segment kind now ∷ [];
  status = status;
}
