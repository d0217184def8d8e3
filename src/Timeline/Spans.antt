-- ===== src/Timeline/Spans.antt =====
-- backend/app/services/rides.py: a ride's segments as a timeline without gaps.
use mad_devs_transport_shari.Prelude.{
  ℕ, ◌+◌, ◌*◌, ◌≤◌, ◌≡◌, refl, some, List, [], ◌∷◌, ◌++◌, arith, map, All, or_else,
}
use mad_devs_transport_shari.Prelude.Int.{pos}
use mad_devs_transport_shari.Models.{RideSegment}
use mad_devs_transport_shari.Billing.{half_up}
use mad_devs_transport_shari.Billing.Totals.{IsTimed, is_ride, is_pause, sum_of, lasts, priced}
use mad_devs_transport_shari.Timeline.{billed}
use mad_devs_transport_shari.Timeline.Close.{Terms, rate_for, between, closed_at}

abbrev pub ends : RideSegment → ℕ
ends s = or_else s.ended_at 0

-- A closed segment has its end, its seconds and its price.
abbrev pub IsClosed : Terms → RideSegment → Type 0
IsClosed c s =
    (s.ended_at ≡ some (ends s))
    × (s.started_at ≤ ends s)
    × (s.seconds ≡ some (pos (between c s.started_at (ends s))))
    × (s.cost ≡ some (half_up (rate_for c s.kind * between c s.started_at (ends s)) 60))

-- Closed segments from `t` to `u`, each beginning where the one before it ends.
abbrev pub Spans : Terms → ℕ → List RideSegment → ℕ → Type 0
Spans c t [] u = t ≡ u
Spans c t (s ∷ rest) u = (s.started_at ≡ t) × IsClosed c s × Spans c (ends s) rest u

module _ (c : Terms) where
  pub Spans-le : (t : ℕ) (xs : List RideSegment) (u : ℕ) → Spans c t xs u → t ≤ u
  Spans-le t [] u h = omega arith
  Spans-le t (s ∷ rest) u (start, closed, h) = omega (arith, Spans-le (ends s) rest u h)

  pub Spans-snoc :
      (t : ℕ) (xs : List RideSegment) (s : RideSegment) (stop : ℕ)
      → Spans c t xs s.started_at
      → s.started_at ≤ stop
      → Spans c t (xs ++ closed_at c s stop ∷ []) stop
  Spans-snoc t [] s stop h le = ground arith
  Spans-snoc t (x ∷ xs) s stop (start, closed, h) le =
      (start, closed, Spans-snoc (ends x) xs s stop h le)

  pub Spans-IsTimed :
      (t : ℕ) (xs : List RideSegment) (u : ℕ) → Spans c t xs u → All IsTimed (map billed xs)
  Spans-IsTimed t [] u h = tt
  Spans-IsTimed t (s ∷ rest) u (start, closed, h) =
      ((between c s.started_at (ends s), ground arith), Spans-IsTimed (ends s) rest u h)

  -- The lengths of the segments of a timeline add up to the seconds between its ends.
  pub Spans-seconds :
      (t : ℕ) (xs : List RideSegment) (u : ℕ)
      → c.started ≤ t
      → Spans c t xs u
      → sum_of is_ride lasts (map billed xs) + sum_of is_pause lasts (map billed xs) ≡ between c t u
  unfolding sum_of
  Spans-seconds t [] u le h = omega arith
  Spans-seconds t (s ∷ rest) u le (start, closed, h) =
      ground (arith, Spans-seconds (ends s) rest u, Spans-le (ends s) rest u h)

-- the sum of the stored segment costs
unfoldable pub stored_cost : List RideSegment → ℕ
stored_cost [] = 0
stored_cost (s ∷ rest) = or_else s.cost 0 + stored_cost rest

-- The costs that are stored with the segments are the ones that the bill adds up.
pub Spans-stored_cost :
    (c : Terms) (t : ℕ) (xs : List RideSegment) (u : ℕ)
    → Spans c t xs u
    → stored_cost xs
      ≡ sum_of is_ride (priced c.ride_rate) (map billed xs)
        + sum_of is_pause (priced c.pause_rate) (map billed xs)
unfolding stored_cost sum_of
Spans-stored_cost c t [] u h = refl
Spans-stored_cost c t (s ∷ rest) u (start, closed, h) =
    ground (arith, Spans-stored_cost c (ends s) rest u h)
