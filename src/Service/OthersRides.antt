-- ===== src/Service/OthersRides.antt =====
-- backend/app/services/bookings.py and rides.py: the rows of the other users under the calls on an existing booking or ride.
use mad_devs_transport_shari.Prelude.{
  ℕ, ◌+◌, ◌≡◌, refl, Bool, true, false, not, none, some, List, ◌==◌, Bool-cases, Option-cases, inl,
  inr, ==_iff, subst,
}
use mad_devs_transport_shari.Text.{String}
use mad_devs_transport_shari.Table.{scalar}
use mad_devs_transport_shari.Models.{Db, Scooter, Booking, Ride, Email}
use mad_devs_transport_shari.Models.Status.{
  RideStatus, SegmentKind, BookingStatus, FinishReason, is_available, is_active, is_finished,
}
use mad_devs_transport_shari.Geo.{FloatOps, Point, in_any_zone}
use mad_devs_transport_shari.Scooters.{has_code, release_status}
use mad_devs_transport_shari.Timeline.Phases.{Phase, settled}
use mad_devs_transport_shari.Database.{
  ride_key, booking_key, get_ride_row, get_booking, put_ride, put_scooter, put_booking, holds_user,
  holds_scooter, rides_user,
}
use mad_devs_transport_shari.Database.Invariant.{IsValid}
use mad_devs_transport_shari.Database.Held.{ride_scooter}
use mad_devs_transport_shari.Outcome.{or_raise}
use mad_devs_transport_shari.Bookings.{create_booking, commit_booking, cancel_booking}
use mad_devs_transport_shari.Sweeper.Keeps.{free_scooter-bookings}
use mad_devs_transport_shari.Rides.{pause_ride, resume_ride, finish_ride, with_receipt}
use mad_devs_transport_shari.Rides.Pause.{
  RideStatus-cases, switch_row, pause_ride-active, resume_ride-paused, pause_ride-paused,
  pause_ride-finished, resume_ride-active, resume_ride-finished,
}
use mad_devs_transport_shari.Rides.PauseSane.{ride-IsSound, unfinished_of}
use mad_devs_transport_shari.Rides.Finish.{
  position, parked, finish_ride-finished, finish_ride-outside, finish_ride-inside,
}
use mad_devs_transport_shari.Rides.FinishSane.{running, is_unfinished-not}
use mad_devs_transport_shari.Rides.Receipt.{with_receipt-rides}
use mad_devs_transport_shari.Service.{run}
use mad_devs_transport_shari.Service.Others.{
  put-KeepsOthers, insert-KeepsOthers, ride_owner, booking_owner, LeavesOthers, Private,
  LeavesOthers-refl, with_receipt-bookings, free_scooter-rides,
}

module _ {F : Type 0} (db : Db F) where
  pub create_booking-Private :
      (u : ℕ) (code : String) (ttl now clock : ℕ)
      → Private u db (create_booking u code ttl now clock db)
  unfolding create_booking commit_booking
  create_booking-Private u code ttl now clock =
      elim (Option-cases (scalar (has_code code) db.scooters)) [
        | inl missing ↦ rw (missing, or_raise) tt
        | inr (s, found) ↦ elim (Bool-cases (is_available s.status)) [
          | inr held ↦ rw (found, or_raise) (rw (held, not) tt)
          | inl free ↦ elim (Option-cases (scalar (holds_user u) db.bookings)) [
            | inr (b, booked) ↦ rw (found, or_raise) (rw (free, booked) tt)
            | inl no_booking ↦ elim (Option-cases (scalar (rides_user u) db.rides)) [
              | inr (r, rides) ↦ rw (found, or_raise) (rw (free, no_booking, rides) tt)
              | inl no_ride ↦ elim (Option-cases (scalar (holds_scooter s.id) db.bookings)) [
                | inr (b, taken) ↦ rw (found, or_raise) (rw (free, no_booking, no_ride, taken) tt)
                | inl unbooked ↦
                    rw (found, or_raise)
                      (rw (free, no_booking, no_ride, unbooked)
                        (
                          λ j x at foreign. at,
                          insert-KeepsOthers booking_key booking_owner u
                              (record {
                                id = db.next_booking;
                                user_id = u;
                                scooter_id = s.id;
                                status = BookingStatus.active;
                                created_at = clock;
                                expires_at = now + ttl;
                                warned_at = none;
                                ended_at = none;
                              })
                              db.bookings,
                        ))
              ]
            ]
          ]
        ]
      ]

  pub cancel_booking-Private :
      (u i now threshold : ℕ) → Private u db (cancel_booking u i now threshold db)
  unfolding cancel_booking
  cancel_booking-Private u i now threshold = elim (Option-cases (get_booking i db)) [
    | inl missing ↦ rw (missing, or_raise) tt
    | inr (b, found) ↦ elim (Bool-cases (b.user_id == u)) [
      | inr stranger ↦ rw (found, or_raise) (rw (stranger, not) tt)
      | inl owner ↦ elim (Bool-cases (is_active b.status)) [
        | inr over ↦ rw (found, or_raise) (rw (owner, over) tt)
        | inl active ↦
            let cancelled : Booking = record b {
              status = BookingStatus.cancelled;
              ended_at = some now;
            } in
            rw (found, or_raise)
              (rw (owner, active)
                (rw
                  (
                    free_scooter-rides b.scooter_id threshold (put_booking cancelled db),
                    free_scooter-bookings b.scooter_id threshold (put_booking cancelled db),
                  )
                  (
                    λ j x at foreign. at,
                    put-KeepsOthers booking_key booking_owner u i cancelled b db.bookings found
                        ((==_iff b.user_id u).0 owner) refl,
                  )))
      ]
    ]
  ]

  module _ (v : IsValid db) (u i now : ℕ) where
    module _ (r : Ride) (found : get_ride_row i db ≡ some r) (owner : r.user_id ≡ u) where
      pub put_ride-LeavesOthers :
          (r' : Ride) (s : Scooter F)
          → r'.id ≡ r.id
          → LeavesOthers u db (put_scooter s (put_ride r' db))
      put_ride-LeavesOthers r' s same = (
        put-KeepsOthers ride_key ride_owner u i r' r db.rides found owner same,
        λ j x at foreign. at,
      )

      pub pause_row-Private : Private u db (pause_ride u i now db)
      pause_row-Private = elim (RideStatus-cases r.status) [
        | inl active ↦
            let run = subst (λ st. Phase st r) active (ride-IsSound db u i now v r found) in
            let (s, at, riding) =
              ride_scooter db v i r found
                (unfinished_of db u i now v r found RideStatus.active refl active) in
            rw (pause_ride-active db u i r found now s at owner active run) (
              put_ride-LeavesOthers
                (switch_row r SegmentKind.ride run SegmentKind.pause RideStatus.paused now)
                (record s { paused = true }) refl)
        | inr (inl paused) ↦
            rw (pause_ride-paused db u i r found now owner paused) (LeavesOthers-refl u db)
        | inr (inr finished) ↦ rw (pause_ride-finished db u i r found now owner finished) tt
      ]

      pub resume_row-Private : Private u db (resume_ride u i now db)
      resume_row-Private = elim (RideStatus-cases r.status) [
        | inr (inl paused) ↦
            let run = subst (λ st. Phase st r) paused (ride-IsSound db u i now v r found) in
            let (s, at, riding) =
              ride_scooter db v i r found
                (unfinished_of db u i now v r found RideStatus.paused refl paused) in
            rw (resume_ride-paused db u i r found now s at owner paused run) (
              put_ride-LeavesOthers
                (switch_row r SegmentKind.pause run SegmentKind.ride RideStatus.active now)
                (record s { paused = false }) refl)
        | inl active ↦
            rw (resume_ride-active db u i r found now owner active) (LeavesOthers-refl u db)
        | inr (inr finished) ↦ rw (resume_ride-finished db u i r found now owner finished) tt
      ]

      module _ (accepts : Email → Bool) where
        with_receipt-LeavesOthers :
            (x : Ride) (b : Bool) (rows : Db F)
            → LeavesOthers u db rows
            → LeavesOthers u db (with_receipt accepts x b rows).1
        unfolding with_receipt
        with_receipt-LeavesOthers x b rows h =
            rw (with_receipt-rides accepts x b rows) (rw (with_receipt-bookings accepts x b rows) h)

        pub finish_row-Private :
            (fl : FloatOps F) (zones : List (List (Point F))) (threshold : ℕ)
            → Private u db (finish_ride fl accepts u i zones threshold now db)
        finish_row-Private fl zones threshold = elim (Bool-cases (is_finished r.status)) [
          | inl done ↦
              rw (finish_ride-finished db accepts i r found fl u zones threshold now owner done)
                (with_receipt-LeavesOthers r false db (LeavesOthers-refl u db))
          | inr going ↦
              let (s, at, held) = ride_scooter db v i r found (is_unfinished-not r.status going) in
              let (k, run) = running r (ride-IsSound db u i now v r found) going in
              elim (Bool-cases (in_any_zone fl (position s) zones)) [
                | inr outside ↦
                    rw
                      (finish_ride-outside db accepts i r found fl u zones threshold now owner going
                        s at outside)
                      tt
                | inl inside ↦
                    let done = settled r run.0 run.1 now FinishReason.user in
                    let s' = parked s (release_status s.battery threshold) in
                    rw
                      (finish_ride-inside db accepts i r found fl u zones threshold now owner going
                        s at inside k run)
                      (with_receipt-LeavesOthers done true (put_scooter s' (put_ride done db))
                        (put_ride-LeavesOthers done s' refl))
              ]
        ]
