-- ===== src/RideApi/Refines.antt =====
-- backend/app/api/bookings.py, rides.py, scooters.py: which requests of the services a call comes down to.
use mad_devs_transport_shari.Prelude.{
  ℕ, ◌≡◌, refl, ◌∙◌, ap, Bool, true, false, Option, none, some, [], if◌then◌else◌,
}
use mad_devs_transport_shari.Models.{Db, Scooter, Booking, Ride}
use mad_devs_transport_shari.Outcome.{
  if_encoded, Outcome, ok, raise, not_found, forbidden, conflict, auth, fault, ◌>>=◌ as ◌then_do◌,
}
use mad_devs_transport_shari.Database.{after}
use mad_devs_transport_shari.Rides.{Started, FinishResult, TelemetryResult}
use mad_devs_transport_shari.Service.{ended}
use mad_devs_transport_shari.Http.{
  Http, done, refused, crashed, Handler, give, ◌>>=◌, call, http_error,
}
use mad_devs_transport_shari.RideApi.{
  RideChange, ride_started, ride_finished, BookingChange, publish_booking_change,
  publish_ride_change, as_scooter_out, from_ride, from_booking,
}
use mad_devs_transport_shari.RideApi.Handlers.{
  Shown, respond, reads, booked, rode, shows_ride, started, finished, announced, shows_booking,
  shows_active, reported, booking, ride,
}

-- A handler that only reads.
abbrev pub Reads : {S A : Type 0} → Handler S A → Type 0
Reads {S} m = (s : S) → (m s).1 ≡ s

read_on :
    {S A B : Type 0} (r : Http A × S) (f : A → Handler S B) (s : S)
    → r.1 ≡ s
    → ((a : A) → Reads (f a))
    → let r' : Http B × S = elim r.0 [
      | done a ↦ f a r.1
      | refused status detail ↦ (refused status detail, r.1)
      | crashed e ↦ (crashed e, r.1)
    ] in
      r'.1 ≡ s
read_on (done a, t) f s h k = k a t ∙ h
read_on (refused status detail, t) f s h k = h
read_on (crashed e, t) f s h k = h

pub bind-Reads :
    {S A B : Type 0} (m : Handler S A) (f : A → Handler S B)
    → Reads m
    → ((a : A) → Reads (f a))
    → Reads (m >>= f)
bind-Reads m f h k s = read_on (m s) f s (h s) k

-- The rows after a call of a service, and after what follows.
called :
    {A B F : Type 0} (status : ℕ) (o : Outcome (A × Db F)) (k : A → Handler (Db F) B) (db : Db F)
    → ((a : A) → Reads (k a))
    → let r : Http A × Db F = elim o [
      | ok (a, s') ↦ (done a, s')
      | raise e ↦ (http_error status e, db)
    ] in
      let r' : Http B × Db F = elim r.0 [
        | done a ↦ k a r.1
        | refused st detail ↦ (refused st detail, r.1)
        | crashed e ↦ (crashed e, r.1)
      ] in
      r'.1 ≡ after db (ended o)
unfolding http_error
called status (ok (a, db')) k db reads_only = reads_only a db'
called status (raise (not_found code)) k db reads_only = refl
called status (raise (forbidden code)) k db reads_only = refl
called status (raise (conflict code)) k db reads_only = refl
called status (raise (auth code)) k db reads_only = refl
called status (raise (fault e)) k db reads_only = refl

pub call-after :
    {A B F : Type 0} (status : ℕ) (f : Db F → Outcome (A × Db F)) (k : A → Handler (Db F) B)
    (db : Db F)
    → ((a : A) → Reads (k a))
    → ((call status f >>= k) db).1 ≡ after db (ended (f db))
call-after status f k db reads_only = called status (f db) k db reads_only

ended-if_encoded :
    {A F : Type 0} (fits : Bool) (o : Outcome (A × Db F))
    → ended (if_encoded fits o) ≡ if_encoded fits (ended o)
ended-if_encoded true o = refl
ended-if_encoded false o = refl

-- The same if the service is reached only with parameters that can be encoded.
pub encoded-after :
    {A B F : Type 0} (status : ℕ) (fits : Bool) (f : Db F → Outcome (A × Db F))
    (k : A → Handler (Db F) B) (db : Db F)
    → ((a : A) → Reads (k a))
    → ((call status (λ rows. if_encoded fits (f rows)) >>= k) db).1
      ≡ after db (if_encoded fits (ended (f db)))
encoded-after status fits f k db reads_only =
    call-after status (λ rows. if_encoded fits (f rows)) k db reads_only
    ∙ ap (after db) (ended-if_encoded fits (f db))

looked :
    {A F : Type 0} (o : Outcome A) (db : Db F)
    → let m : Outcome (A × Db F) = o then_do λ a. ok (a, db) in
      let r : Http A × Db F = elim m [
        | ok (a, s') ↦ (done a, s')
        | raise e ↦ (http_error 500 e, db)
      ] in
      r.1 ≡ db
unfolding http_error
looked (ok a) db = refl
looked (raise e) db = refl

if-Reads :
    {S A : Type 0} (b : Bool) (m m' : Handler S A)
    → Reads m
    → Reads m'
    → Reads (if b then m else m')
if-Reads true m m' h h' = h
if-Reads false m m' h h' = h'

module _ {F : Type 0} where
  pub reads-Reads : {A : Type 0} (f : Db F → Outcome A) → Reads (reads f)
  reads-Reads f db = looked (f db) db

  pub rode-Reads :
      (change : RideChange) (status : ℕ) (r : Ride) → Reads (rode {F = F} change status r)
  rode-Reads change status r =
      bind-Reads (reads (publish_ride_change r change))
        (λ (out, messages). give (respond status (ride (some out)) messages))
        (reads-Reads (publish_ride_change r change)) (λ a s. refl)

  pub booked-Reads :
      (change : BookingChange) (status : ℕ) (b : Booking) → Reads (booked {F = F} change status b)
  booked-Reads change status b =
      bind-Reads (reads (publish_booking_change b change))
        (λ (out, messages). give (respond status (booking (some out)) messages))
        (reads-Reads (publish_booking_change b change)) (λ a s. refl)

  pub shows_ride-Reads : (r : Ride) → Reads (shows_ride {F = F} r)
  shows_ride-Reads r =
      bind-Reads (reads (from_ride r)) (λ out. give (respond 200 (ride (some out)) []))
        (reads-Reads (from_ride r)) (λ a s. refl)

  pub started-Reads : (result : Started) → Reads (started {F = F} result)
  started-Reads result =
      if-Reads result.created (rode ride_started 201 result.ride) (shows_ride result.ride)
        (rode-Reads ride_started 201 result.ride) (shows_ride-Reads result.ride)

  pub finished-Reads : (result : FinishResult) → Reads (finished {F = F} result)
  finished-Reads result =
      bind-Reads
        (if result.finished_now then rode ride_finished 200 result.ride else shows_ride result.ride)
        (announced result)
        (if-Reads result.finished_now (rode ride_finished 200 result.ride) (shows_ride result.ride)
          (rode-Reads ride_finished 200 result.ride) (shows_ride-Reads result.ride))
        (λ response db. refl)

  reported_end :
      (s : Scooter F) (o : Option FinishResult)
      → Reads (reported (some (record { scooter = s; finish = o })))
  reported_end s none db = refl
  reported_end s (some over) db =
      bind-Reads (rode ride_finished 200 over.ride)
        (λ response. announced over (record response { shown = Shown.scooter (as_scooter_out s) }))
        (rode-Reads ride_finished 200 over.ride) (λ response s. refl) db

  pub reported-Reads : (o : Option (TelemetryResult F)) → Reads (reported o)
  reported-Reads none db = refl
  reported-Reads (some result) db = reported_end result.scooter result.finish db

  pub shows_booking-Reads : (o : Option Booking) → Reads (shows_booking {F = F} o)
  shows_booking-Reads none = λ db. refl
  shows_booking-Reads (some b) =
      bind-Reads (reads (from_booking b)) (λ out. give (respond 200 (booking (some out)) []))
        (reads-Reads (from_booking b)) (λ a s. refl)

  pub shows_active-Reads : (o : Option Ride) → Reads (shows_active {F = F} o)
  shows_active-Reads none = λ db. refl
  shows_active-Reads (some r) = shows_ride-Reads r
