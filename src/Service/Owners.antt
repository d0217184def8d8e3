-- ===== src/Service/Owners.antt =====
-- backend/app/services/bookings.py and rides.py: the rows that a rider's request leaves alone.
use mad_devs_transport_shari.Prelude.{
  ℕ, All, ◌≡◌, Bool, true, false, Option, none, some, List, [], ◌∷◌, ◌==◌, arith, Bool-cases,
  Option-cases, inl, inr, ==_iff, subst,
}
use mad_devs_transport_shari.Models.{Db, Booking, Ride}
use mad_devs_transport_shari.Database.{after, get_ride_row, get_booking}
use mad_devs_transport_shari.Database.Invariant.{IsValid}
use mad_devs_transport_shari.Outcome.{Outcome, ok, raise, if_encoded}
use mad_devs_transport_shari.Bookings.{create_booking, cancel_booking}
use mad_devs_transport_shari.Rides.{pause_ride, resume_ride, start_ride, finish_ride}
use mad_devs_transport_shari.Rides.Pause.{locked_ride-stranger}
use mad_devs_transport_shari.Rides.PauseSane.{locked_ride-missing}
use mad_devs_transport_shari.Service.Runs.{serve-IsValid}
use mad_devs_transport_shari.Service.{
  Settings, Request, reports, sweeps, run, books, cancels, starts, pauses, resumes, finishes,
  transact, serve, encodes, ended,
}
use mad_devs_transport_shari.Service.Others.{LeavesOthers, Private, LeavesOthers-refl}
use mad_devs_transport_shari.Service.OthersRides.{
  finish_row-Private, create_booking-Private, cancel_booking-Private, pause_row-Private,
  resume_row-Private,
}
use mad_devs_transport_shari.Service.OthersStart.{start_ride-Private}

-- The rider who makes the request; scooters and the sweeper are none.
abbrev pub rider : {F : Type 0} → Request F → Option ℕ
rider (books user_id code now clock) = some user_id
rider (cancels user_id booking_id now) = some user_id
rider (starts user_id booking_id now) = some user_id
rider (pauses user_id ride_id now) = some user_id
rider (resumes user_id ride_id now) = some user_id
rider (finishes user_id ride_id now) = some user_id
rider (reports telemetry now) = none
rider (sweeps locked now) = none

after-ended :
    {A F : Type 0} (u : ℕ) (db : Db F) (o : Outcome (A × Db F))
    → Private u db o
    → LeavesOthers u db (after db (ended o))
after-ended u db (ok (a, db')) h = h
after-ended u db (raise e) h = LeavesOthers-refl u db

-- A call on a row that is not there, or that is somebody else's.
by_owner :
    {A F : Type 0} (db : Db F) (u i : ℕ) (call : Outcome (A × Db F))
    → (get_ride_row i db ≡ none → Private u db call)
    → ((r : Ride) → get_ride_row i db ≡ some r → r.user_id ≡ u → Private u db call)
    → ((r : Ride) → get_ride_row i db ≡ some r → (r.user_id == u) ≡ false → Private u db call)
    → Private u db call
by_owner db u i call missing own foreign = elim (Option-cases (get_ride_row i db)) [
  | inl h ↦ missing h
  | inr (r, found) ↦ elim (Bool-cases (r.user_id == u)) [
    | inl owner ↦ own r found ((==_iff r.user_id u).0 owner)
    | inr stranger ↦ foreign r found stranger
  ]
]

abbrev OfRider : Option ℕ → (ℕ → Type 0) → Type 0
OfRider none P = Unit
OfRider (some u) P = P u

encoded-OfRider :
    {F : Type 0} (o : Option ℕ) (fits : Bool) (r : Outcome (Unit {0} × Db F)) (db : Db F)
    → OfRider o (λ u. LeavesOthers u db (after db r))
    → OfRider o (λ u. LeavesOthers u db (after db (if_encoded fits r)))
encoded-OfRider none fits r db h = tt
encoded-OfRider (some u) true r db h = h
encoded-OfRider (some u) false r db h = LeavesOthers-refl u db

module _ {F : Type 0} (c : Settings F) where
  transact-OfRider :
      (q : Request F) (db : Db F)
      → IsValid db
      → OfRider (rider q) (λ u. LeavesOthers u db (after db (transact c q db)))
  unfolding transact pause_ride resume_ride finish_ride
  transact-OfRider (books u code now clock) db v =
      after-ended u db (create_booking u code c.booking_ttl now clock db)
        (create_booking-Private db u code c.booking_ttl now clock)
  transact-OfRider (cancels u i now) db v =
      after-ended u db (cancel_booking u i now c.low_battery_threshold db)
        (cancel_booking-Private db u i now c.low_battery_threshold)
  transact-OfRider (starts u i now) db v =
      after-ended u db (start_ride u i c.tariff now c.low_battery_threshold db)
        (start_ride-Private db v u i c.tariff now c.low_battery_threshold)
  transact-OfRider (pauses u i now) db v = after-ended u db (pause_ride u i now db) (
      by_owner db u i (pause_ride u i now db) (λ h. rw (locked_ride-missing db u i now h) tt)
        (pause_row-Private db v u i now)
        (λ r found other. rw (locked_ride-stranger db u i r found other) tt))
  transact-OfRider (resumes u i now) db v = after-ended u db (resume_ride u i now db) (
      by_owner db u i (resume_ride u i now db) (λ h. rw (locked_ride-missing db u i now h) tt)
        (resume_row-Private db v u i now)
        (λ r found other. rw (locked_ride-stranger db u i r found other) tt))
  transact-OfRider (finishes u i now) db v =
      let call = finish_ride c.floats c.accepts u i c.zones c.low_battery_threshold now db in
      after-ended u db call (
        by_owner db u i call (λ h. rw (locked_ride-missing db u i now h) tt)
          (λ r found own.
            finish_row-Private db v u i now r found own c.accepts c.floats c.zones
              c.low_battery_threshold)
          (λ r found other. rw (locked_ride-stranger db u i r found other) tt))
  transact-OfRider (reports telemetry now) db v = tt
  transact-OfRider (sweeps locked now) db v = tt

  serve-OfRider :
      (q : Request F) (db : Db F)
      → IsValid db
      → OfRider (rider q) (λ u. LeavesOthers u db (after db (serve c q db)))
  unfolding serve
  serve-OfRider q db v =
      encoded-OfRider (rider q) (encodes q) (transact c q db) db (transact-OfRider q db v)

  -- A request of a rider other than `w`.
  abbrev pub IsForeign : ℕ → Request F → Type 0
  IsForeign w q = (u : ℕ) × (rider q ≡ some u) × ((w == u) ≡ false)

  -- Whatever other riders ask for, in whatever order and at whatever instants, on valid rows: each ride and
  -- each booking of a user is as it was, in every column.
  pub others_change_nothing :
      (w : ℕ) (qs : List (Request F)) (db : Db F)
      → IsValid db
      → All (IsForeign w) qs
      → ((i : ℕ) (r : Ride)
          → get_ride_row i db ≡ some r
          → r.user_id ≡ w
          → get_ride_row i (run c qs db) ≡ some r)
        × ((i : ℕ) (b : Booking)
            → get_booking i db ≡ some b
            → b.user_id ≡ w
            → get_booking i (run c qs db) ≡ some b)
  unfolding run
  others_change_nothing w [] db v h = (λ i r found own. found, λ i b found own. found)
  others_change_nothing w (q ∷ qs) db v ((u, asks, other), h) =
      let db' = after db (serve c q db) in
      let valid = serve-IsValid c q db v in
      let (rides, bookings) =
        subst (λ o. OfRider o (λ x. LeavesOthers x db db')) asks (serve-OfRider q db v) in
      let (later_rides, later_bookings) = others_change_nothing w qs db' valid h in
      (
        λ i r found own. later_rides i r (rides i r found (ground (arith, own, other))) own,
        λ i b found own. later_bookings i b (bookings i b found (ground (arith, own, other))) own,
      )
