-- ===== src/Timeline/Phases.antt =====
-- backend/app/services/rides.py: the segments and the receipt columns of a ride in each of its
-- statuses, under pausing, resuming and settling.
use mad_devs_transport_shari.Prelude.{
  ℕ, ◌+◌, ◌≡◌, refl, false, none, some, List, [], ◌∷◌, ◌++◌, max, arith, map,
}
use mad_devs_transport_shari.Prelude.Int.{pos}
use mad_devs_transport_shari.Models.{Ride, RideSegment, Scooter}
use mad_devs_transport_shari.Models.Status.{SegmentKind, RideStatus, FinishReason, ScooterStatus}
use mad_devs_transport_shari.Outcome.{ok}
use mad_devs_transport_shari.Billing.Totals.{is_ride, is_pause, sum_of, lasts, priced, bill_totals}
use mad_devs_transport_shari.Timeline.{billed, close_ride, settle, switched, new_segment}
use mad_devs_transport_shari.Timeline.Close.{whole, terms, closed_at, close_ride-snoc}
use mad_devs_transport_shari.Timeline.Spans.{
  Spans, Spans-le, Spans-snoc, Spans-IsTimed, Spans-seconds, stored_cost, Spans-stored_cost,
}

-- An unfinished ride: a timeline from its start, then one open segment of the kind `k`.
abbrev pub IsRunning : Ride → SegmentKind → Type 0
IsRunning r k =
    (xs : List RideSegment) × (s : RideSegment) × (r.segments ≡ xs ++ s ∷ [])
    × (s.ended_at ≡ none)
    × (s.kind ≡ k)
    × Spans (terms r) r.started_at xs s.started_at

-- The receipt columns are the bill of the segments.
abbrev pub HasReceipt : Ride → Type 0
HasReceipt r =
    let c = terms r in
    let segments = map billed r.segments in
    (r.ride_seconds ≡ some (pos (sum_of is_ride lasts segments)))
    × (r.pause_seconds ≡ some (pos (sum_of is_pause lasts segments)))
    × (r.ride_cost ≡ some (sum_of is_ride (priced c.ride_rate) segments))
    × (r.pause_cost ≡ some (sum_of is_pause (priced c.pause_rate) segments))
    × (r.total_cost
        ≡ some (
            sum_of is_ride (priced c.ride_rate) segments
            + sum_of is_pause (priced c.pause_rate) segments))

-- A finished ride: a timeline from its start to its end, with its receipt.
abbrev pub IsSettled : Ride → Type 0
IsSettled r =
    (stop : ℕ) × (r.finished_at ≡ some stop)
    × Spans (terms r) r.started_at r.segments stop
    × HasReceipt r

abbrev pub Phase : RideStatus → Ride → Type 0
Phase RideStatus.active r = IsRunning r SegmentKind.ride
Phase RideStatus.paused r = IsRunning r SegmentKind.pause
Phase RideStatus.finished r = IsSettled r

abbrev pub IsSound : Ride → Type 0
IsSound r = Phase r.status r

-- The ride with its open segment closed.
abbrev pub closing : Ride → List RideSegment → RideSegment → ℕ → Ride
closing r xs s now = record r { segments = xs ++ closed_at (terms r) s (max now s.started_at) ∷ [] }

abbrev pub settled : Ride → List RideSegment → RideSegment → ℕ → FinishReason → Ride
settled r xs s now reason =
    let c = closing r xs s now in
    let segments = map billed c.segments in
    record c {
      ride_seconds = some (pos (sum_of is_ride lasts segments));
      pause_seconds = some (pos (sum_of is_pause lasts segments));
      ride_cost = some (sum_of is_ride (priced r.ride_rate_per_minute) segments);
      pause_cost = some (sum_of is_pause (priced r.pause_rate_per_minute) segments);
      total_cost = some (
          sum_of is_ride (priced r.ride_rate_per_minute) segments
          + sum_of is_pause (priced r.pause_rate_per_minute) segments);
      finished_at = some (max now s.started_at);
      finish_reason = some reason;
      status = RideStatus.finished;
    }

module _ (r : Ride) (k : SegmentKind) (now : ℕ) where
  pub closing-Spans :
      (run : IsRunning r k)
      → Spans (terms r) r.started_at (closing r run.0 run.1 now).segments (max now run.1.started_at)
  closing-Spans (xs, s, split, still_open, kind, spans) =
      Spans-snoc (terms r) r.started_at xs s (max now s.started_at) spans (omega arith)

  pub close_ride-running :
      (run : IsRunning r k)
      → close_ride r now ≡ ok (closing r run.0 run.1 now, max now run.1.started_at)
  close_ride-running (xs, s, split, still_open, kind, spans) =
      close_ride-snoc r xs s now split still_open
        (Spans-le (terms r) r.started_at xs s.started_at spans)

  -- A pause or a resume of a running ride leaves it running, in the new kind.
  pub switched-IsRunning :
      (run : IsRunning r k) (kind : SegmentKind) (status : RideStatus)
      → IsRunning (switched (closing r run.0 run.1 now) kind (max now run.1.started_at) status) kind
  switched-IsRunning run kind status = (
    (closing r run.0 run.1 now).segments,
    new_segment kind (max now run.1.started_at),
    refl,
    refl,
    refl,
    closing-Spans run,
  )

  pub settled-IsSettled :
      (run : IsRunning r k) (reason : FinishReason) → IsSettled (settled r run.0 run.1 now reason)
  settled-IsSettled run reason =
      (max now run.1.started_at, refl, closing-Spans run, (refl, refl, refl, refl, refl))

  -- Settling a running ride raises nothing.
  pub settle-running :
      {F : Type 0} (run : IsRunning r k) (scooter : Scooter F) (reason : FinishReason)
      (status : ScooterStatus)
      → settle r scooter now reason status
        ≡ ok (settled r run.0 run.1 now reason, record scooter { status = status; paused = false })
  unfolding settle
  settle-running run scooter reason status = ground (
    arith,
    close_ride-running run,
    bill_totals (map billed (closing r run.0 run.1 now).segments) r.ride_rate_per_minute
        r.pause_rate_per_minute
        (Spans-IsTimed (terms r) r.started_at (closing r run.0 run.1 now).segments
          (max now run.1.started_at) (closing-Spans run)),
  )

-- The receipt of a settled ride: the seconds add up to the whole seconds between its start and
-- its end, and the total is the sum of the costs stored with the segments.
pub settled_adds_up :
    (r : Ride) (run : IsSettled r)
    → (a : ℕ) × (b : ℕ) × (r.ride_seconds ≡ some (pos a))
      × (r.pause_seconds ≡ some (pos b))
      × (a + b ≡ whole r.started_at run.0)
      × (r.total_cost ≡ some (stored_cost r.segments))
settled_adds_up r (stop, end, spans, (rs, ps, rc, pc, total)) = (
  sum_of is_ride lasts (map billed r.segments),
  sum_of is_pause lasts (map billed r.segments),
  rs,
  ps,
  omega (arith, Spans-seconds (terms r) r.started_at r.segments stop (omega arith) spans),
  ground (arith, Spans-stored_cost (terms r) r.started_at r.segments stop spans),
)
