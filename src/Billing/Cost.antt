-- ===== src/Billing/Cost.antt =====
-- backend/app/billing.py, `segment_cost`: the rounding.
use mad_devs_transport_shari.Prelude.{ℕ, ◌+◌, ◌*◌, ◌≤◌, ◌<◌, ◌≡◌, refl, arith}
use mad_devs_transport_shari.Prelude.Int.{pos, negsuc}
use mad_devs_transport_shari.Outcome.{ok, raise, fault, value_error}
use mad_devs_transport_shari.Billing.{half_up, segment_cost}

-- The price of a segment of non-negative length is within half a kopeck of the exact
-- proportional price rate * seconds / 60, and an exact half kopeck goes up; a negative length is
-- refused.
segment_cost_rounds :
    (rate s n : ℕ)
    → ((c : ℕ) × (segment_cost rate (pos s) ≡ ok c)
        × (2 * (rate * s) < 120 * c + 60)
        × (120 * c ≤ 2 * (rate * s) + 60))
      × (segment_cost rate (negsuc n) ≡ raise (fault value_error))
unfolding segment_cost half_up
segment_cost_rounds rate s n = ((half_up (rate * s) 60, refl, omega arith, omega arith), refl)
