-- ===== src/Service/Receipts.antt =====
-- backend/app/services/rides.py: the receipts that a history of requests leaves in the rides.
use mad_devs_transport_shari.Prelude.{ℕ, ◌+◌, ◌≡◌, some, List, subst}
use mad_devs_transport_shari.Prelude.Int.{pos}
use mad_devs_transport_shari.Models.{Db, Ride}
use mad_devs_transport_shari.Models.Status.{RideStatus}
use mad_devs_transport_shari.Timeline.Close.{whole}
use mad_devs_transport_shari.Timeline.Spans.{stored_cost}
use mad_devs_transport_shari.Timeline.Phases.{IsSettled, Phase, settled_adds_up}
use mad_devs_transport_shari.Database.{get_ride_row}
use mad_devs_transport_shari.Database.Invariant.{IsValid}
use mad_devs_transport_shari.Rides.PauseSane.{ride-IsSound}
use mad_devs_transport_shari.Service.{Settings, Request, run}
use mad_devs_transport_shari.Service.Runs.{run-IsValid}

-- After any history of requests on valid rows, every finished ride has its end and its receipt: the
-- seconds of riding and of pausing add up to the whole seconds from its start to its end, and the
-- total is the sum of the costs that its segments show.
pub finished_ride_adds_up :
    {F : Type 0} (c : Settings F) (qs : List (Request F)) (db : Db F) (i : ℕ) (r : Ride)
    → IsValid db
    → get_ride_row i (run c qs db) ≡ some r
    → r.status ≡ RideStatus.finished
    → (stop : ℕ) × (a : ℕ) × (b : ℕ) × (r.finished_at ≡ some stop)
      × (r.ride_seconds ≡ some (pos a))
      × (r.pause_seconds ≡ some (pos b))
      × (a + b ≡ whole r.started_at stop)
      × (r.total_cost ≡ some (stored_cost r.segments))
finished_ride_adds_up c qs db i r v found over =
    let sound = ride-IsSound (run c qs db) 0 i 0 (run-IsValid c qs db v) r found in
    let done : IsSettled r = subst (λ st. Phase st r) over sound in
    let (a, b, ride, pause, sum, total) = settled_adds_up r done in
    (done.0, a, b, done.1, ride, pause, sum, total)
