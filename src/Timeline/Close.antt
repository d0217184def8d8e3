-- ===== src/Timeline/Close.antt =====
-- backend/app/services/rides.py, `_close_segment`: what closing a segment writes.
use mad_devs_transport_shari.Prelude.{
  ℕ, ◌-◌, ◌*◌, ◌/◌, ◌≤◌, ◌≡◌, refl, none, some, List, [], ◌∷◌, ◌++◌, max, ap, arith,
}
use mad_devs_transport_shari.Prelude.Int.{pos, sub_ℕ}
use mad_devs_transport_shari.Models.{Ride, RideSegment}
use mad_devs_transport_shari.Models.Status.{SegmentKind}
use mad_devs_transport_shari.Outcome.{ok}
use mad_devs_transport_shari.Billing.{second, half_up, segment_cost, duration_seconds}
use mad_devs_transport_shari.Timeline.{
  last_segment, set_last, open_segment, rate_of, close_segment, close_ride,
}

-- whole seconds from `started` to `t`
abbrev pub whole : ℕ → ℕ → ℕ
whole started t = (t - started) / second

-- What the bill of a segment depends on: the start of its ride, and the ride's two rates.
pub record Terms : Type 0 where
  pub started : ℕ
  pub ride_rate : ℕ
  pub pause_rate : ℕ

abbrev pub terms : Ride → Terms
terms r = record {
  started = r.started_at;
  ride_rate = r.ride_rate_per_minute;
  pause_rate = r.pause_rate_per_minute;
}

abbrev pub rate_for : Terms → SegmentKind → ℕ
rate_for c SegmentKind.ride = c.ride_rate
rate_for c SegmentKind.pause = c.pause_rate

-- The seconds between two instants of a ride, counted from its start.
abbrev pub between : Terms → ℕ → ℕ → ℕ
between c from until = whole c.started until - whole c.started from

-- The segment `s` closed at `stop`.
abbrev pub closed_at : Terms → RideSegment → ℕ → RideSegment
closed_at c s stop = record s {
  ended_at = some stop;
  seconds = some (pos (between c s.started_at stop));
  cost = some (half_up (rate_for c s.kind * between c s.started_at stop) 60);
}

rate_of-terms : (r : Ride) (k : SegmentKind) → rate_of r k ≡ rate_for (terms r) k
rate_of-terms r SegmentKind.ride = refl
rate_of-terms r SegmentKind.pause = refl

pub duration_seconds-le : (a b : ℕ) → a ≤ b → duration_seconds a b ≡ ok (whole a b)
unfolding duration_seconds
duration_seconds-le a b h = ground arith

sub_ℕ-le : (a b : ℕ) → b ≤ a → sub_ℕ a b ≡ pos (a - b)
sub_ℕ-le a b h = ground arith

segment_cost-pos : (rate n : ℕ) → segment_cost rate (pos n) ≡ ok (half_up (rate * n) 60)
unfolding segment_cost
segment_cost-pos rate n = refl

-- Closing a segment that does not start before its ride, at any instant, also at one before the segment's
-- start, raises nothing: the segment ends at the later of the two instants, with the seconds that
-- are whole since the start of the ride less those before the segment, and their price.
pub close_segment_clamps :
    (r : Ride) (s : RideSegment) (now : ℕ)
    → r.started_at ≤ s.started_at
    → close_segment r s now
      ≡ ok (closed_at (terms r) s (max now s.started_at), max now s.started_at)
unfolding close_segment
close_segment_clamps r s now h =
    rw
      (
        duration_seconds-le r.started_at (max now s.started_at) (omega arith),
        duration_seconds-le r.started_at s.started_at h,
        sub_ℕ-le (whole r.started_at (max now s.started_at)) (whole r.started_at s.started_at)
            (omega arith),
        rate_of-terms r s.kind,
        segment_cost-pos,
      )
      refl

module _ (s : RideSegment) where
  last_segment-snoc : (xs : List RideSegment) → last_segment (xs ++ s ∷ []) ≡ some s
  unfolding last_segment
  last_segment-snoc [] = refl
  last_segment-snoc (x ∷ []) = refl
  last_segment-snoc (x ∷ y ∷ xs) = last_segment-snoc (y ∷ xs)

  set_last-snoc :
      (x : RideSegment) (xs : List RideSegment) → set_last x (xs ++ s ∷ []) ≡ xs ++ x ∷ []
  unfolding set_last
  set_last-snoc x [] = refl
  set_last-snoc x (y ∷ []) = refl
  set_last-snoc x (y ∷ z ∷ xs) = ap (λ l. y ∷ l) (set_last-snoc x (z ∷ xs))

-- Of a ride whose last segment is open, that segment is closed and the others stay.
pub close_ride-snoc :
    (r : Ride) (xs : List RideSegment) (s : RideSegment) (now : ℕ)
    → r.segments ≡ xs ++ s ∷ []
    → s.ended_at ≡ none
    → r.started_at ≤ s.started_at
    → close_ride r now
      ≡ ok (
        record r { segments = xs ++ closed_at (terms r) s (max now s.started_at) ∷ [] },
        max now s.started_at,
      )
unfolding close_ride open_segment
close_ride-snoc r xs s now split open_end h = ground (
  arith,
  last_segment-snoc s xs,
  close_segment_clamps r s now h,
  set_last-snoc s (closed_at (terms r) s (max now s.started_at)) xs,
)
