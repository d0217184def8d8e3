-- ===== src/Rides/FinishTwice.antt =====
-- backend/app/services/rides.py, `finish_ride`: the repetition of a finish.
use mad_devs_transport_shari.Prelude.{ℕ, ◌≡◌, refl, Bool, true, false, some, List, sym, ◌∙◌, ap}
use mad_devs_transport_shari.Models.{Db, Scooter, Ride, Email}
use mad_devs_transport_shari.Models.Status.{FinishReason, is_finished}
use mad_devs_transport_shari.Geo.{FloatOps, Point, in_any_zone}
use mad_devs_transport_shari.Scooters.{release_status}
use mad_devs_transport_shari.Timeline.Phases.{settled}
use mad_devs_transport_shari.Database.{get_ride_row, get_scooter, put_ride, put_scooter}
use mad_devs_transport_shari.Database.Invariant.{IsValid}
use mad_devs_transport_shari.Outcome.{ok}
use mad_devs_transport_shari.Rides.{FinishResult, finish_ride, with_receipt, flush_settled}
use mad_devs_transport_shari.Rides.PauseSane.{ride-IsSound}
use mad_devs_transport_shari.Rides.Finish.{
  position, parked, finish_ride-inside, finish_ride-finished,
}
use mad_devs_transport_shari.Rides.FinishSane.{running}
use mad_devs_transport_shari.Rides.Telemetry.{with_receipt-scooters, with_receipt-ride}
use mad_devs_transport_shari.Rides.Receipt.{
  flush_settled-HasFinished, with_receipt-rides, with_receipt-now,
}

-- The answer of a repeated finish: the same ride, not finished by this call, with no ride and no
-- scooter changed.
abbrev pub IsRepetition : {F : Type 0} → FinishResult → Db F → FinishResult → Db F → Type 0
IsRepetition result db again db' =
    (again.ride ≡ result.ride)
    × (again.finished_now ≡ false)
    × (db'.rides ≡ db.rides)
    × (db'.scooters ≡ db.scooters)

-- Finishing one's own unfinished ride inside a zone, on valid rows, and then again, at any instant,
-- wherever the zones are now and with any threshold: the second call answers with the ride as the
-- first one has left it, says that it did not finish it, and changes no ride and no scooter.
pub finish_ride_twice :
    {F : Type 0} (fl : FloatOps F) (db : Db F) (accepts : Email → Bool) (user_id i : ℕ)
    (zones zones' : List (List (Point F))) (threshold threshold' now now' : ℕ) (r : Ride)
    (s : Scooter F)
    → IsValid db
    → get_ride_row i db ≡ some r
    → r.user_id ≡ user_id
    → is_finished r.status ≡ false
    → get_scooter r.scooter_id db ≡ some s
    → in_any_zone fl (position s) zones ≡ true
    → (result : FinishResult) × (db' : Db F) × (again : FinishResult) × (db'' : Db F) × (finish_ride
          fl accepts user_id i zones threshold now db
        ≡ ok (result, db'))
      × (finish_ride fl accepts user_id i zones' threshold' now' db' ≡ ok (again, db''))
      × IsRepetition result db' again db''
finish_ride_twice fl db accepts user_id i zones zones' threshold threshold' now now' r s v found
      owner going at inside =
    let (k, run) = running r (ride-IsSound db user_id i now v r found) going in
    let s' = parked s (release_status s.battery threshold) in
    let done = settled r run.0 run.1 now FinishReason.user in
    let rows = put_scooter s' (put_ride done db) in
    let (result, db') = flush_settled accepts (done, s') db in
    let (again, db'') = with_receipt accepts done false db' in
    let same = with_receipt-ride accepts done true rows in
    let (_, _, row, _) =
      flush_settled-HasFinished db accepts i r r found refl s s' at refl k run now
        FinishReason.user in
    (
      result,
      db',
      again,
      db'',
      finish_ride-inside db accepts i r found fl user_id zones threshold now owner going s at inside
          k run,
      finish_ride-finished db' accepts i done (row ∙ ap (λ x. some x) same) fl user_id zones'
          threshold' now' owner refl,
      (
        with_receipt-ride accepts done false db' ∙ sym same,
        with_receipt-now accepts done false db',
        with_receipt-rides accepts done false db',
        with_receipt-scooters accepts done false db',
      ),
    )
