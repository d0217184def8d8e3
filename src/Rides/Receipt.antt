-- ===== src/Rides/Receipt.antt =====
-- backend/app/services/rides.py: what a finished ride is charged, and how its scooter is left.
use mad_devs_transport_shari.Prelude.{
  ℕ, ◌+◌, ◌≤◌, ◌≡◌, refl, Bool, true, false, some, List, arith, max, ◌∙◌, subst,
}
use mad_devs_transport_shari.Prelude.Int.{pos}
use mad_devs_transport_shari.Table.{get}
use mad_devs_transport_shari.Table.Laws.{get-put_self, get_self, key-get}
use mad_devs_transport_shari.Models.{Db, Scooter, Ride, Email}
use mad_devs_transport_shari.Models.Status.{
  RideStatus, SegmentKind, FinishReason, ScooterStatus, is_finished,
}
use mad_devs_transport_shari.Geo.{FloatOps, Point, in_any_zone}
use mad_devs_transport_shari.Scooters.{release_status}
use mad_devs_transport_shari.Mail.{
  store_receipt, send_receipt, send_email, receipt_dedup_key, caught,
}
use mad_devs_transport_shari.Timeline.Close.{whole, terms}
use mad_devs_transport_shari.Timeline.Spans.{Spans-le, stored_cost}
use mad_devs_transport_shari.Timeline.Phases.{
  IsRunning, IsSettled, settled, closing-Spans, settled_adds_up,
}
use mad_devs_transport_shari.Database.{
  scooter_key, ride_key, get_ride_row, get_scooter, put_scooter, put_ride,
}
use mad_devs_transport_shari.Database.Invariant.{IsValid}
use mad_devs_transport_shari.Outcome.{ok}
use mad_devs_transport_shari.Rides.{
  FinishResult, finish_ride, auto_finish_ride, with_receipt, flush_settled,
}
use mad_devs_transport_shari.Rides.PauseSane.{ride-IsSound}
use mad_devs_transport_shari.Rides.Finish.{
  position, parked, drained, explained, finish_ride-inside, auto_finish_ride-running,
}
use mad_devs_transport_shari.Rides.FinishSane.{running}
use mad_devs_transport_shari.Rides.Telemetry.{with_receipt-scooters, with_receipt-ride}

-- The receipt of a ride that ended at `now` or later: the seconds of riding and pausing add up to
-- the whole seconds since the start, and the total is the sum of what its segments cost.
abbrev pub IsCharged : Ride → ℕ → Type 0
IsCharged r now =
    (stop : ℕ) × (a : ℕ) × (b : ℕ) × (now ≤ stop)
    × (r.started_at ≤ stop)
    × (r.status ≡ RideStatus.finished)
    × (r.finished_at ≡ some stop)
    × (r.ride_seconds ≡ some (pos a))
    × (r.pause_seconds ≡ some (pos b))
    × (a + b ≡ whole r.started_at stop)
    × (r.total_cost ≡ some (stored_cost r.segments))

settled-IsCharged :
    (r : Ride) (k : SegmentKind) (run : IsRunning r k) (now : ℕ) (reason : FinishReason)
    → IsCharged (settled r run.0 run.1 now reason) now
settled-IsCharged r k run now reason =
    let r' = settled r run.0 run.1 now reason in
    let stop = max now run.1.started_at in
    let spans = closing-Spans r k now run in
    let done : IsSettled r' = (stop, refl, spans, (refl, refl, refl, refl, refl)) in
    let (a, b, ride, pause, sum, total) = settled_adds_up r' done in
    (
      stop,
      a,
      b,
      omega arith,
      omega (arith, Spans-le (terms r) r.started_at r'.segments stop spans),
      refl,
      refl,
      ride,
      pause,
      sum,
      total,
    )

caught-rides :
    {F : Type 0} (accepts : Email → Bool) (user_id : ℕ) (r : Ride) (db : Db F)
    → (caught db (send_email accepts user_id (receipt_dedup_key r) db)).1.rides ≡ db.rides
unfolding send_email
caught-rides accepts user_id r db = ground arith

pub with_receipt-rides :
    {F : Type 0} (accepts : Email → Bool) (r : Ride) (now : Bool) (db : Db F)
    → (with_receipt accepts r now db).1.rides ≡ db.rides
unfolding with_receipt store_receipt send_receipt
with_receipt-rides accepts r now db = caught-rides accepts r.user_id r db

pub with_receipt-now :
    {F : Type 0} (accepts : Email → Bool) (r : Ride) (now : Bool) (db : Db F)
    → (with_receipt accepts r now db).0.finished_now ≡ now
unfolding with_receipt
with_receipt-now accepts r now db = refl

-- A finish that has gone through, of the ride number `i` on the scooter `s'`, as the rows show it.
abbrev pub HasFinished : {F : Type 0} → ℕ → Scooter F → ℕ → FinishResult → Db F → Type 0
HasFinished i s' now result db' =
    (result.finished_now ≡ true)
    × IsCharged result.ride now
    × (get_ride_row i db' ≡ some result.ride)
    × (get_scooter s'.id db' ≡ some s')

module _ {F : Type 0} (db : Db F) (accepts : Email → Bool) (i : ℕ) (r r' : Ride)
    (found : get_ride_row i db ≡ some r) (keeps : r'.id ≡ r.id) (s s' : Scooter F)
    (at : get_scooter r.scooter_id db ≡ some s) (same : s'.id ≡ s.id) where
  pub flush_settled-HasFinished :
      (k : SegmentKind) (run : IsRunning r' k) (now : ℕ) (reason : FinishReason)
      → let (result, db') = flush_settled accepts (settled r' run.0 run.1 now reason, s') db in
        HasFinished i s' now result db'
  flush_settled-HasFinished k run now reason =
      let done = settled r' run.0 run.1 now reason in
      let rows = put_scooter s' (put_ride done db) in
      let e = key-get ride_key i db.rides r found in
      (
        with_receipt-now accepts done true rows,
        rw (with_receipt-ride accepts done true rows) (settled-IsCharged r' k run now reason),
        rw (with_receipt-ride accepts done true rows, with_receipt-rides accepts done true rows)
            (subst (λ j. get ride_key j (put_ride done db).rides ≡ some done) (keeps ∙ e)
              (get-put_self ride_key done r db.rides
                (rw keeps (get_self ride_key i db.rides r found)))),
        rw (with_receipt-scooters accepts done true rows) (
            get-put_self scooter_key s' s db.scooters
              (rw same (get_self scooter_key r.scooter_id db.scooters s at))),
      )

-- Finishing one's own unfinished ride with its scooter inside a zone, on valid rows and at any
-- instant: it answers with the ride finished by this call and charged for the whole seconds since
-- its start, as the rows now show it, and its scooter is no longer paused and has the status that
-- its battery gives.
pub finish_ride_bills :
    {F : Type 0} (fl : FloatOps F) (db : Db F) (accepts : Email → Bool) (user_id i : ℕ)
    (zones : List (List (Point F))) (threshold now : ℕ) (r : Ride) (s : Scooter F)
    → IsValid db
    → get_ride_row i db ≡ some r
    → r.user_id ≡ user_id
    → is_finished r.status ≡ false
    → get_scooter r.scooter_id db ≡ some s
    → in_any_zone fl (position s) zones ≡ true
    → (result : FinishResult) × (db' : Db F) × (finish_ride fl accepts user_id i zones threshold now
          db
        ≡ ok (result, db'))
      × HasFinished i (parked s (release_status s.battery threshold)) now result db'
finish_ride_bills fl db accepts user_id i zones threshold now r s v found owner going at inside =
    let (k, run) = running r (ride-IsSound db user_id i now v r found) going in
    let s' = parked s (release_status s.battery threshold) in
    let (result, db') =
      flush_settled accepts (settled r run.0 run.1 now FinishReason.user, s') db in
    (
      result,
      db',
      finish_ride-inside db accepts i r found fl user_id zones threshold now owner going s at inside
          k run,
      flush_settled-HasFinished db accepts i r r found refl s s' at refl k run now
          FinishReason.user,
    )

-- A flat battery ends an unfinished ride on valid rows wherever the scooter is: the ride is finished
-- and charged in the same way, and the scooter, at the reported place and charge, is unavailable and
-- no longer paused.
pub auto_finish_ride_bills :
    {F : Type 0} (db : Db F) (accepts : Email → Bool) (i : ℕ) (lat lon : F)
    (battery threshold now : ℕ) (r : Ride) (s : Scooter F)
    → IsValid db
    → get_ride_row i db ≡ some r
    → is_finished r.status ≡ false
    → get_scooter r.scooter_id db ≡ some s
    → (result : FinishResult) × (db' : Db F) × (auto_finish_ride accepts i lat lon battery threshold
          now db
        ≡ ok (some result, db'))
      × HasFinished i (parked (drained s lat lon battery) ScooterStatus.unavailable) now result db'
auto_finish_ride_bills db accepts i lat lon battery threshold now r s v found going at =
    let (k, run) = running r (ride-IsSound db 0 i now v r found) going in
    let s' = parked (drained s lat lon battery) ScooterStatus.unavailable in
    let r' = explained r battery threshold in
    let (result, db') =
      flush_settled accepts (settled r' run.0 run.1 now FinishReason.battery, s') db in
    (
      result,
      db',
      auto_finish_ride-running db accepts i r found lat lon battery threshold now going s at k run,
      flush_settled-HasFinished db accepts i r r' found refl s s' at refl k run now
          FinishReason.battery,
    )
