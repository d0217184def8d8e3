-- ===== src/Billing/Totals.antt =====
-- backend/app/billing.py, `bill`: the receipt against plain sums over the segments.
use mad_devs_transport_shari.Prelude.{
  ℕ, ◌+◌, ◌*◌, ◌≤◌, ◌≡◌, List, [], ◌∷◌, arith, length, All, Bool, true, false, if◌then◌else◌,
}
use mad_devs_transport_shari.Prelude.Int.{pos, pos_part, ◌+ℤ◌}
use mad_devs_transport_shari.Outcome.{ok}
use mad_devs_transport_shari.Models.Status.{SegmentKind}
use mad_devs_transport_shari.Billing.{
  Segment, Receipt, half_up, segment_cost, bill_segment, bill_loop, bill,
}

-- the length of a segment is not negative
abbrev pub IsTimed : Segment → Type 0
IsTimed s = (n : ℕ) × (s.seconds ≡ pos n)

abbrev pub is_ride : SegmentKind → Bool
is_ride SegmentKind.ride = true
is_ride SegmentKind.pause = false

abbrev pub is_pause : SegmentKind → Bool
is_pause SegmentKind.ride = false
is_pause SegmentKind.pause = true

-- The sum of a quantity over the segments of the kinds that `of` takes.
unfoldable pub sum_of : (SegmentKind → Bool) → (Segment → ℕ) → List Segment → ℕ
sum_of of q [] = 0
sum_of of q (s ∷ segments) = (if of s.kind then q s else 0) + sum_of of q segments

abbrev pub lasts : Segment → ℕ
lasts s = pos_part s.seconds

abbrev pub priced : ℕ → Segment → ℕ
priced rate s = half_up (rate * pos_part s.seconds) 60

-- A receipt whose seconds are numbers.
abbrev totals : ℕ → ℕ → ℕ → ℕ → Receipt
totals a b c d = record {
  ride_seconds = pos a;
  pause_seconds = pos b;
  ride_cost = c;
  pause_cost = d;
  total_cost = 0;
}

bill_segment-totals :
    (ride_rate pause_rate a b c d n : ℕ) (s : Segment)
    → s.seconds ≡ pos n
    → bill_segment ride_rate pause_rate (totals a b c d) s
      ≡ ok (
          totals
            (a + (if is_ride s.kind then n else 0))
            (b + (if is_pause s.kind then n else 0))
            (c + (if is_ride s.kind then half_up (ride_rate * n) 60 else 0))
            (d + (if is_pause s.kind then half_up (pause_rate * n) 60 else 0)))
unfolding bill_segment segment_cost ◌+ℤ◌
bill_segment-totals rr pr a b c d n s e = ground arith

bill_loop-totals :
    (ride_rate pause_rate a b c d : ℕ) (segments : List Segment)
    → All IsTimed segments
    → bill_loop ride_rate pause_rate (totals a b c d) segments
      ≡ ok (
          totals
            (a + sum_of is_ride lasts segments)
            (b + sum_of is_pause lasts segments)
            (c + sum_of is_ride (priced ride_rate) segments)
            (d + sum_of is_pause (priced pause_rate) segments))
unfolding bill_loop sum_of
bill_loop-totals rr pr a b c d [] h = ground arith
bill_loop-totals rr pr a b c d (s ∷ segments) ((n, e), h) = ground (
  arith,
  bill_segment-totals rr pr a b c d n s e,
  bill_loop-totals rr pr (a + (if is_ride s.kind then n else 0))
      (b + (if is_pause s.kind then n else 0))
      (c + (if is_ride s.kind then half_up (rr * n) 60 else 0))
      (d + (if is_pause s.kind then half_up (pr * n) 60 else 0)) segments h,
)

-- If no segment has a negative length, `bill` answers, and its receipt has the seconds and the
-- costs summed kind by kind, each segment rounded on its own, with the total the sum of the two
-- costs.
pub bill_totals :
    (segments : List Segment) (ride_rate pause_rate : ℕ)
    → All IsTimed segments
    → bill segments ride_rate pause_rate
      ≡ ok (record {
        ride_seconds = pos (sum_of is_ride lasts segments);
        pause_seconds = pos (sum_of is_pause lasts segments);
        ride_cost = sum_of is_ride (priced ride_rate) segments;
        pause_cost = sum_of is_pause (priced pause_rate) segments;
        total_cost =
            sum_of is_ride (priced ride_rate) segments
            + sum_of is_pause (priced pause_rate) segments;
      })
unfolding bill
bill_totals segments rr pr h = ground (arith, bill_loop-totals rr pr 0 0 0 0 segments h)

half_up-near : (n : ℕ) → (60 * half_up n 60 ≤ n + 30) × (n ≤ 60 * half_up n 60 + 30)
unfolding half_up
half_up-near n = (omega arith, omega arith)

-- Both kinds together count each segment once.
bill_near :
    (rr pr : ℕ) (segments : List Segment)
    → let cost = sum_of is_ride (priced rr) segments + sum_of is_pause (priced pr) segments in
      let exact = rr * sum_of is_ride lasts segments + pr * sum_of is_pause lasts segments in
      (60 * cost ≤ exact + 30 * length segments) × (exact ≤ 60 * cost + 30 * length segments)
unfolding sum_of
bill_near rr pr [] = (omega arith, omega arith)
bill_near rr pr (s ∷ segments) =
    ground
      (arith, half_up-near (rr * lasts s), half_up-near (pr * lasts s), bill_near rr pr segments)

-- What `bill` charges in total is within half a kopeck for each segment of the exact price of the
-- seconds that it reports: 60 * total lies within 30 times the number of segments of
-- ride_rate * ride_seconds + pause_rate * pause_seconds.
pub bill_accuracy :
    (segments : List Segment) (ride_rate pause_rate : ℕ) (r : Receipt)
    → All IsTimed segments
    → bill segments ride_rate pause_rate ≡ ok r
    → let exact = ride_rate * pos_part r.ride_seconds + pause_rate * pos_part r.pause_seconds in
      (60 * r.total_cost ≤ exact + 30 * length segments)
      × (exact ≤ 60 * r.total_cost + 30 * length segments)
bill_accuracy segments rr pr r h e =
    ground (arith, bill_totals segments rr pr h, bill_near rr pr segments)
