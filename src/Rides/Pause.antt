-- ===== src/Rides/Pause.antt =====
-- backend/app/services/rides.py, `pause_ride` and `resume_ride`: on every branch.
use mad_devs_transport_shari.Prelude.{
  ℕ, ◌≡◌, refl, true, false, some, ◌==◌, arith, ◌⊎◌, inl, inr, max,
}
use mad_devs_transport_shari.Models.{Db, Scooter, Ride}
use mad_devs_transport_shari.Models.Status.{RideStatus, SegmentKind}
use mad_devs_transport_shari.Timeline.{switched}
use mad_devs_transport_shari.Timeline.Phases.{IsRunning, closing, close_ride-running}
use mad_devs_transport_shari.Database.{get_ride_row, get_scooter, put_ride, put_scooter}
use mad_devs_transport_shari.Outcome.{ok, raise, Code, forbidden, conflict}
use mad_devs_transport_shari.Rides.{pause_ride, resume_ride, locked_ride, locked_scooter}

pub RideStatus-cases :
    (st : RideStatus)
    → (st ≡ RideStatus.active) ⊎ (st ≡ RideStatus.paused) ⊎ (st ≡ RideStatus.finished)
RideStatus-cases RideStatus.active = inl refl
RideStatus-cases RideStatus.paused = inr (inl refl)
RideStatus-cases RideStatus.finished = inr (inr refl)

-- The row after a switch to the kind `kind` at `now`.
abbrev pub switch_row :
    (r : Ride) (k : SegmentKind) → IsRunning r k → SegmentKind → RideStatus → ℕ → Ride
switch_row r k run kind status now =
    switched (closing r run.0 run.1 now) kind (max now run.1.started_at) status

module _ {F : Type 0} (db : Db F) (user_id i : ℕ) (r : Ride)
    (found : get_ride_row i db ≡ some r) where
  pub locked_ride-owner : r.user_id ≡ user_id → locked_ride user_id i db ≡ ok r
  unfolding locked_ride
  locked_ride-owner owner = ground arith

  pub locked_ride-stranger :
      (r.user_id == user_id) ≡ false
      → locked_ride user_id i db ≡ raise (forbidden Code.not_your_ride)
  unfolding locked_ride
  locked_ride-stranger stranger = ground arith

  module _ (now : ℕ) (s : Scooter F) (at : get_scooter r.scooter_id db ≡ some s)
      (owner : r.user_id ≡ user_id) where
    pub pause_ride-active :
        r.status ≡ RideStatus.active
        → (run : IsRunning r SegmentKind.ride)
        → let r' = switch_row r SegmentKind.ride run SegmentKind.pause RideStatus.paused now in
          pause_ride user_id i now db
          ≡ ok (r', put_scooter (record s { paused = true }) (put_ride r' db))
    unfolding pause_ride locked_scooter
    pause_ride-active active run =
        ground (arith, locked_ride-owner owner, close_ride-running r SegmentKind.ride now run)

    pub resume_ride-paused :
        r.status ≡ RideStatus.paused
        → (run : IsRunning r SegmentKind.pause)
        → let r' = switch_row r SegmentKind.pause run SegmentKind.ride RideStatus.active now in
          resume_ride user_id i now db
          ≡ ok (r', put_scooter (record s { paused = false }) (put_ride r' db))
    unfolding resume_ride locked_scooter
    resume_ride-paused paused run =
        ground (arith, locked_ride-owner owner, close_ride-running r SegmentKind.pause now run)

  module _ (now : ℕ) (owner : r.user_id ≡ user_id) where
    pub pause_ride-paused : r.status ≡ RideStatus.paused → pause_ride user_id i now db ≡ ok (r, db)
    unfolding pause_ride
    pause_ride-paused e = ground (arith, locked_ride-owner owner)

    pub pause_ride-finished :
        r.status ≡ RideStatus.finished
        → pause_ride user_id i now db ≡ raise (conflict Code.ride_finished)
    unfolding pause_ride
    pause_ride-finished e = ground (arith, locked_ride-owner owner)

    pub resume_ride-active :
        r.status ≡ RideStatus.active → resume_ride user_id i now db ≡ ok (r, db)
    unfolding resume_ride
    resume_ride-active e = ground (arith, locked_ride-owner owner)

    pub resume_ride-finished :
        r.status ≡ RideStatus.finished
        → resume_ride user_id i now db ≡ raise (conflict Code.ride_finished)
    unfolding resume_ride
    resume_ride-finished e = ground (arith, locked_ride-owner owner)
