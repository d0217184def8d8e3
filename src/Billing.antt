-- ===== src/Billing.antt =====
-- backend/app/billing.py: the arithmetic of money. A Decimal with two places is a number of
-- kopecks; that a rate is a Decimal and not a float is its type here. Decimal's context keeps 28
-- digits, far more than a NUMERIC(8, 2) rate times a count of seconds has, so the quotient by 60
-- is rounded once, by `quantize`.
pub mod Cost
pub mod Totals
use mad_devs_transport_shari.Prelude.{
  ℕ, ◌+◌, ◌-◌, ◌*◌, ◌/◌, Bool, List, [], ◌∷◌, ltb, if◌then◌else◌,
}
use mad_devs_transport_shari.Prelude.Int.{ℤ, pos, negsuc, ◌+ℤ◌}
use mad_devs_transport_shari.Outcome.{Outcome, Error, ok, raise, fault, Fault, value_error, ◌>>=◌}
use mad_devs_transport_shari.Models.Status.{SegmentKind}

pub record Segment : Type 0 where
  pub kind : SegmentKind
  pub seconds : ℤ

pub record Receipt : Type 0 where
  pub ride_seconds : ℤ
  pub pause_seconds : ℤ
  pub ride_cost : ℕ
  pub pause_cost : ℕ
  pub total_cost : ℕ

-- `quantize(KOPECK, ROUND_HALF_UP)` of the quotient n / d, at least 0.
unfoldable pub half_up : ℕ → ℕ → ℕ
half_up n d = (2 * n + d) / (2 * d)

unfoldable pub segment_cost : ℕ → ℤ → Outcome ℕ
unfolding half_up
segment_cost rate (pos seconds) = ok (half_up (rate * seconds) 60)
segment_cost rate (negsuc n) = raise (fault value_error)

-- `// timedelta(seconds=1)`, of instants in microseconds
abbrev pub second : ℕ
second = 1000000

unfoldable pub duration_seconds : ℕ → ℕ → Outcome ℕ
duration_seconds started_at ended_at =
    if ltb ended_at started_at
    then raise (fault value_error)
    else ok ((ended_at - started_at) / second)

-- The loop of `bill`: the four sums so far, `total_cost` filled in at the end.
unfoldable pub bill_segment : ℕ → ℕ → Receipt → Segment → Outcome Receipt
bill_segment ride_rate pause_rate r s = elim s.kind [
  | SegmentKind.ride ↦ segment_cost ride_rate s.seconds >>= λ cost.
      ok (record r { ride_seconds = r.ride_seconds +ℤ s.seconds; ride_cost = r.ride_cost + cost })
  | SegmentKind.pause ↦ segment_cost pause_rate s.seconds >>= λ cost.
      ok (record r {
        pause_seconds = r.pause_seconds +ℤ s.seconds;
        pause_cost = r.pause_cost + cost;
      })
]

unfoldable pub bill_loop : ℕ → ℕ → Receipt → List Segment → Outcome Receipt
bill_loop ride_rate pause_rate r [] = ok r
bill_loop ride_rate pause_rate r (s ∷ segments) =
    bill_segment ride_rate pause_rate r s >>= λ r'. bill_loop ride_rate pause_rate r' segments

abbrev pub no_charge : Receipt
no_charge = record {
  ride_seconds = pos 0;
  pause_seconds = pos 0;
  ride_cost = 0;
  pause_cost = 0;
  total_cost = 0;
}

unfoldable pub bill : List Segment → ℕ → ℕ → Outcome Receipt
unfolding bill_loop
bill segments ride_rate pause_rate = bill_loop ride_rate pause_rate no_charge segments >>= λ r.
    ok (record r { total_cost = r.ride_cost + r.pause_cost })
