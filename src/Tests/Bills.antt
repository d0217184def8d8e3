-- ===== src/Tests/Bills.antt =====
-- The theorems on backend/app/billing.py and the segments of a ride, at a ride of 100 seconds.
use mad_devs_transport_shari.Prelude.{◌+◌, ◌*◌, ◌≤◌, ◌≡◌, refl, none, List, [], ◌∷◌, arith, All}
use mad_devs_transport_shari.Prelude.Int.{pos}
use mad_devs_transport_shari.Models.{Ride, RideSegment}
use mad_devs_transport_shari.Models.Status.{SegmentKind, RideStatus}
use mad_devs_transport_shari.Outcome.{ok}
use mad_devs_transport_shari.Billing.{Segment, Receipt, half_up, bill}
use mad_devs_transport_shari.Billing.Totals.{bill_totals, bill_accuracy, IsTimed, sum_of}
use mad_devs_transport_shari.Timeline.{new_segment, close_segment}
use mad_devs_transport_shari.Timeline.Close.{close_segment_clamps, closed_at, terms}

abbrev stops : List Segment
stops =
    record { kind = SegmentKind.ride; seconds = pos 60 }
    ∷ record { kind = SegmentKind.pause; seconds = pos 25 }
    ∷ record { kind = SegmentKind.ride; seconds = pos 2 }
    ∷ []

abbrev stops_receipt : Receipt
stops_receipt = record {
  ride_seconds = pos 62;
  pause_seconds = pos 25;
  ride_cost = 517;
  pause_cost = 63;
  total_cost = 580;
}

stops-IsTimed : All IsTimed stops
stops-IsTimed = ((60, refl), ((25, refl), ((2, refl), tt)))

bill_totals_example : bill stops 500 150 ≡ ok stops_receipt
unfolding sum_of half_up
bill_totals_example = bill_totals stops 500 150 stops-IsTimed

bill_accuracy_example :
    (60 * 580 ≤ 500 * 62 + 150 * 25 + 30 * 3) × (500 * 62 + 150 * 25 ≤ 60 * 580 + 30 * 3)
bill_accuracy_example = bill_accuracy stops 500 150 stops_receipt stops-IsTimed bill_totals_example

-- A ride that began at 1 s, on its first segment.
abbrev first_leg : RideSegment
first_leg = new_segment SegmentKind.ride 1000000

abbrev short_ride : Ride
short_ride = record {
  id = 1;
  user_id = 1;
  scooter_id = 1;
  booking_id = 1;
  status = RideStatus.active;
  started_at = 1000000;
  finished_at = none;
  finish_reason = none;
  finish_battery = none;
  finish_battery_threshold = none;
  ride_rate_per_minute = 500;
  pause_rate_per_minute = 150;
  ride_seconds = none;
  pause_seconds = none;
  ride_cost = none;
  pause_cost = none;
  total_cost = none;
  segments = first_leg ∷ [];
}

-- the clock of this call is before the start of the segment
close_segment_clamps_example :
    close_segment short_ride first_leg 400000
    ≡ ok (closed_at (terms short_ride) first_leg 1000000, 1000000)
close_segment_clamps_example = close_segment_clamps short_ride first_leg 400000 (omega arith)
