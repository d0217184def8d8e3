-- ===== src/Rides/PauseSane.antt =====
-- backend/app/services/rides.py, `pause_ride` and `resume_ride`: what they keep.
use mad_devs_transport_shari.Prelude.{
  ℕ, ◌≡◌, refl, true, false, none, some, ◌==◌, arith, Bool-cases, Option-cases, inl, inr, ==_iff,
  subst,
}
use mad_devs_transport_shari.Table.Laws.{All-scalar}
use mad_devs_transport_shari.Models.{Db, Scooter, Ride}
use mad_devs_transport_shari.Models.Status.{
  RideStatus, SegmentKind, is_riding, is_reserved, is_unfinished,
}
use mad_devs_transport_shari.Timeline.Phases.{IsSound, Phase, switched-IsRunning}
use mad_devs_transport_shari.Database.{ride_key, get_ride_row}
use mad_devs_transport_shari.Database.Invariant.{IsValid}
use mad_devs_transport_shari.Database.Held.{ride_scooter}
use mad_devs_transport_shari.Database.Sane.{Sane}
use mad_devs_transport_shari.Outcome.{raise, not_found, Code}
use mad_devs_transport_shari.Rides.{pause_ride, resume_ride, locked_ride}
use mad_devs_transport_shari.Rides.Update.{update-IsValid}
use mad_devs_transport_shari.Rides.Pause.{
  RideStatus-cases, switch_row, locked_ride-stranger, pause_ride-active, resume_ride-paused,
  pause_ride-paused, pause_ride-finished, resume_ride-active, resume_ride-finished,
}

module _ {F : Type 0} (db : Db F) (user_id i now : ℕ) where
  pub locked_ride-missing :
      get_ride_row i db ≡ none → locked_ride user_id i db ≡ raise (not_found Code.ride_not_found)
  unfolding locked_ride
  locked_ride-missing missing = ground arith

  module _ (v : IsValid db) (r : Ride) (found : get_ride_row i db ≡ some r) where
    pub ride-IsSound : IsSound r
    ride-IsSound = All-scalar IsSound (λ x. ride_key x == i) db.rides r v.sound found

    riding_not_reserved : (s : Scooter F) → is_riding s.status ≡ true → is_reserved s.status ≡ false
    riding_not_reserved s h = ground arith

    pub unfinished_of :
        (st : RideStatus) → is_unfinished st ≡ true → r.status ≡ st → is_unfinished r.status ≡ true
    unfinished_of st h e = rw e h

    pause_row-Sane : r.user_id ≡ user_id → Sane (pause_ride user_id i now db)
    pause_row-Sane owner = elim (RideStatus-cases r.status) [
      | inl active ↦
          let run = subst (λ st. Phase st r) active ride-IsSound in
          let unfinished = unfinished_of RideStatus.active refl active in
          let (s, at, riding) = ride_scooter db v i r found unfinished in
          rw (pause_ride-active db user_id i r found now s at owner active run) (
            update-IsValid db v i r found unfinished s at riding
              (switch_row r SegmentKind.ride run SegmentKind.pause RideStatus.paused now)
              (record s { paused = true })
              (record { id = refl; user_id = refl; scooter_id = refl; booking_id = refl }) refl
              (ground arith) refl (riding_not_reserved s riding)
              (switched-IsRunning r SegmentKind.ride now run SegmentKind.pause RideStatus.paused))
      | inr (inl paused) ↦ rw (pause_ride-paused db user_id i r found now owner paused) v
      | inr (inr finished) ↦ rw (pause_ride-finished db user_id i r found now owner finished) tt
    ]

    resume_row-Sane : r.user_id ≡ user_id → Sane (resume_ride user_id i now db)
    resume_row-Sane owner = elim (RideStatus-cases r.status) [
      | inr (inl paused) ↦
          let run = subst (λ st. Phase st r) paused ride-IsSound in
          let unfinished = unfinished_of RideStatus.paused refl paused in
          let (s, at, riding) = ride_scooter db v i r found unfinished in
          rw (resume_ride-paused db user_id i r found now s at owner paused run) (
            update-IsValid db v i r found unfinished s at riding
              (switch_row r SegmentKind.pause run SegmentKind.ride RideStatus.active now)
              (record s { paused = false })
              (record { id = refl; user_id = refl; scooter_id = refl; booking_id = refl }) refl
              (ground arith) refl (riding_not_reserved s riding)
              (switched-IsRunning r SegmentKind.pause now run SegmentKind.ride RideStatus.active))
      | inl active ↦ rw (resume_ride-active db user_id i r found now owner active) v
      | inr (inr finished) ↦ rw (resume_ride-finished db user_id i r found now owner finished) tt
    ]

  -- On valid rows `pause_ride` never ends in an uncaught exception, and it leaves valid rows.
  pub pause_ride-Sane : IsValid db → Sane (pause_ride user_id i now db)
  unfolding pause_ride
  pause_ride-Sane v = elim (Option-cases (get_ride_row i db)) [
    | inl missing ↦ rw (locked_ride-missing missing) tt
    | inr (r, found) ↦ elim (Bool-cases (r.user_id == user_id)) [
      | inl owner ↦ pause_row-Sane v r found ((==_iff r.user_id user_id).0 owner)
      | inr stranger ↦ rw (locked_ride-stranger db user_id i r found stranger) tt
    ]
  ]

  -- On valid rows `resume_ride` never ends in an uncaught exception, and it leaves valid rows.
  pub resume_ride-Sane : IsValid db → Sane (resume_ride user_id i now db)
  unfolding resume_ride
  resume_ride-Sane v = elim (Option-cases (get_ride_row i db)) [
    | inl missing ↦ rw (locked_ride-missing missing) tt
    | inr (r, found) ↦ elim (Bool-cases (r.user_id == user_id)) [
      | inl owner ↦ resume_row-Sane v r found ((==_iff r.user_id user_id).0 owner)
      | inr stranger ↦ rw (locked_ride-stranger db user_id i r found stranger) tt
    ]
  ]
