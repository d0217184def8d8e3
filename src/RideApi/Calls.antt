-- ===== src/RideApi/Calls.antt =====
-- backend/app/api: the whole API as requests of the services on the scooters, bookings and rides.
use mad_devs_transport_shari.Prelude.{
  ℕ, ◌≡◌, refl, Bool, true, false, ◌||◌, some, List, [], ◌∷◌, ◌==◌, ltb, All, if◌then◌else◌,
}
use mad_devs_transport_shari.Text.{is_column_text}
use mad_devs_transport_shari.Models.{Db}
use mad_devs_transport_shari.Scooters.{TelemetryIn}
use mad_devs_transport_shari.Outcome.{if_encoded, Outcome, ok}
use mad_devs_transport_shari.Database.{after}
use mad_devs_transport_shari.Bookings.{create_booking, cancel_booking, get_active_booking}
use mad_devs_transport_shari.Rides.{
  start_ride, pause_ride, resume_ride, finish_ride, record_telemetry, get_active_ride, locked_ride,
}
use mad_devs_transport_shari.Sweeper.{sweep_bookings}
use mad_devs_transport_shari.Service.{
  Settings, Request, books, cancels, starts, pauses, resumes, finishes, reports, sweeps, serve,
  transact, is_column_id, run,
}
use mad_devs_transport_shari.Service.Owners.{rider}
use mad_devs_transport_shari.Http.{Handler, give, ◌>>=◌, ◌>>◌, refuse_if, call, bad_request}
use mad_devs_transport_shari.AccountApi.{len}
use mad_devs_transport_shari.RideApi.{
  ride_paused, ride_resumed, booking_created, booking_cancelled, publish_sweep,
}
use mad_devs_transport_shari.RideApi.Handlers.{
  Action, book, cancel, start, pause, resume, finish, active_booking, active_ride, finished_rides,
  mailbox, one_ride, Response, respond, reads, booked, rode, shows_ride, started, finished,
  shows_booking, shows_active, reported, act, post_telemetry, sweep_pass, from_rides,
  list_finished_rides, rides, swept,
}
use mad_devs_transport_shari.RideApi.Refines.{
  bind-Reads, call-after, encoded-after, reads-Reads, rode-Reads, booked-Reads, shows_ride-Reads,
  started-Reads, finished-Reads, reported-Reads, shows_booking-Reads, shows_active-Reads,
}

-- The one transaction of a rider's call, if the schema accepts its body and the call is not a query.
abbrev pub asked : {F : Type 0} → ℕ → Action → List (Request F)
asked u (book code now clock) =
    if len code == 0 || ltb 32 (len code) then [] else books u code now clock ∷ []
asked u (cancel booking_id now) = cancels u booking_id now ∷ []
asked u (start booking_id now) = if booking_id == 0 then [] else starts u booking_id now ∷ []
asked u (pause ride_id now) = pauses u ride_id now ∷ []
asked u (resume ride_id now) = resumes u ride_id now ∷ []
asked u (finish ride_id now) = finishes u ride_id now ∷ []
asked u active_booking = []
asked u active_ride = []
asked u finished_rides = []
asked u mailbox = []
asked u (one_ride ride_id) = []

-- The one of a scooter's report, if the schema accepts it.
abbrev pub asked_report : {F : Type 0} → TelemetryIn F → ℕ → List (Request F)
asked_report report now =
    if len report.code == 0 || (ltb 32 (len report.code) || ltb 100 report.battery)
    then []
    else reports report now ∷ []

All-unless :
    {F : Type 0} (P : Request F → Type 0) (bad : Bool) (q : Request F)
    → P q
    → All P (if bad then [] else q ∷ [])
All-unless P true q h = tt
All-unless P false q h = (h, tt)

pub asked-rider :
    (F : Type 0) (u : ℕ) (action : Action)
    → All {A = Request F} (λ q. rider q ≡ some u) (asked u action)
asked-rider F u (book code now clock) =
    All-unless (λ q. rider q ≡ some u) (len code == 0 || ltb 32 (len code)) (books u code now clock)
      refl
asked-rider F u (cancel i now) = (refl, tt)
asked-rider F u (start i now) = All-unless (λ q. rider q ≡ some u) (i == 0) (starts u i now) refl
asked-rider F u (pause i now) = (refl, tt)
asked-rider F u (resume i now) = (refl, tt)
asked-rider F u (finish i now) = (refl, tt)
asked-rider F u active_booking = tt
asked-rider F u active_ride = tt
asked-rider F u finished_rides = tt
asked-rider F u mailbox = tt
asked-rider F u (one_ride i) = tt

module _ {F : Type 0} (c : Settings F) where
  comes_to_one :
      (q : Request F) (db db' : Db F) → db' ≡ after db (serve c q db) → db' ≡ run c (q ∷ []) db
  unfolding run
  comes_to_one q db db' e = e

  pub comes_to_none : (db db' : Db F) → db' ≡ db → db' ≡ run c [] db
  unfolding run
  comes_to_none db db' e = e

  guarded :
      (bad : Bool) (m : Handler (Db F) (Response F)) (q : Request F) (db : Db F)
      → (m db).1 ≡ after db (serve c q db)
      → ((refuse_if bad 422 bad_request >> m) db).1 ≡ run c (if bad then [] else q ∷ []) db
  unfolding run
  guarded true m q db h = refl
  guarded false m q db h = h

  pub act-ComesTo :
      (u : ℕ) (action : Action) (db : Db F) → (act c u action db).1 ≡ run c (asked u action) db
  unfolding act serve transact
  act-ComesTo u (book code now clock) db =
      let f = create_booking u code c.booking_ttl now clock in
      guarded (len code == 0 || ltb 32 (len code))
        (call 500 (λ rows. if_encoded (is_column_text code) (f rows))
          >>= booked booking_created 201)
        (books u code now clock) db
        (encoded-after 500 (is_column_text code) f (booked booking_created 201) db
          (booked-Reads booking_created 201))
  act-ComesTo u (cancel i now) db =
      let f = cancel_booking u i now c.low_battery_threshold in
      comes_to_one (cancels u i now) db
        ((call 500 (λ rows. if_encoded (is_column_id i) (f rows)) >>= booked booking_cancelled 200)
          db).1
        (encoded-after 500 (is_column_id i) f (booked booking_cancelled 200) db
          (booked-Reads booking_cancelled 200))
  act-ComesTo u (start i now) db =
      let f = start_ride u i c.tariff now c.low_battery_threshold in
      guarded (i == 0) (call 500 (λ rows. if_encoded (is_column_id i) (f rows)) >>= started)
        (starts u i now) db (encoded-after 500 (is_column_id i) f started db started-Reads)
  act-ComesTo u (pause i now) db =
      let f = pause_ride u i now in
      comes_to_one (pauses u i now) db
        ((call 500 (λ rows. if_encoded (is_column_id i) (f rows)) >>= rode ride_paused 200) db).1
        (encoded-after 500 (is_column_id i) f (rode ride_paused 200) db
          (rode-Reads ride_paused 200))
  act-ComesTo u (resume i now) db =
      let f = resume_ride u i now in
      comes_to_one (resumes u i now) db
        ((call 500 (λ rows. if_encoded (is_column_id i) (f rows)) >>= rode ride_resumed 200) db).1
        (encoded-after 500 (is_column_id i) f (rode ride_resumed 200) db
          (rode-Reads ride_resumed 200))
  act-ComesTo u (finish i now) db =
      let f = finish_ride c.floats c.accepts u i c.zones c.low_battery_threshold now in
      comes_to_one (finishes u i now) db
        ((call 500 (λ rows. if_encoded (is_column_id i) (f rows)) >>= finished) db).1
        (encoded-after 500 (is_column_id i) f finished db finished-Reads)
  act-ComesTo u active_booking db =
      comes_to_none db (shows_booking (get_active_booking u db) db).1
        (shows_booking-Reads (get_active_booking u db) db)
  act-ComesTo u active_ride db =
      comes_to_none db (shows_active (get_active_ride u db) db).1
        (shows_active-Reads (get_active_ride u db) db)
  act-ComesTo u finished_rides db =
      let f : Db F → Outcome _ = λ rows. from_rides (list_finished_rides u rows) rows in
      comes_to_none db ((reads f >>= λ outs. give (respond 200 (rides outs) [])) db).1 (
        bind-Reads (reads f) (λ outs. give (respond 200 (rides outs) [])) (reads-Reads f)
          (λ a s. refl) db)
  act-ComesTo u mailbox db = comes_to_none db db refl
  act-ComesTo u (one_ride i) db =
      let f : Db F → Outcome _ = λ rows. if_encoded (is_column_id i) (locked_ride u i rows) in
      comes_to_none db ((reads f >>= shows_ride) db).1
        (bind-Reads (reads f) shows_ride (reads-Reads f) shows_ride-Reads db)

  pub post_telemetry-ComesTo :
      (report : TelemetryIn F) (now : ℕ) (db : Db F)
      → (post_telemetry c report now db).1 ≡ run c (asked_report report now) db
  unfolding post_telemetry serve transact
  post_telemetry-ComesTo report now db =
      let f =
        record_telemetry c.accepts report c.low_battery_threshold c.ride_auto_finish_battery now in
      guarded (len report.code == 0 || (ltb 32 (len report.code) || ltb 100 report.battery))
        (call 500 (λ rows. if_encoded (is_column_text report.code) (f rows)) >>= reported)
        (reports report now) db
        (encoded-after 500 (is_column_text report.code) f reported db reported-Reads)

  pub sweep_pass-ComesTo :
      (locked : ℕ → Bool) (now : ℕ) (db : Db F)
      → (sweep_pass c locked now db).1 ≡ run c (sweeps locked now ∷ []) db
  unfolding sweep_pass serve transact
  sweep_pass-ComesTo locked now db =
      let f : Db F → Outcome _ =
        λ rows. ok (sweep_bookings locked now c.booking_warn_before c.low_battery_threshold rows) in
      comes_to_one (sweeps locked now) db
        ((call 500 f >>= λ result.
            reads (publish_sweep now result) >>= λ messages. give (respond 200 swept messages))
          db).1
        (call-after 500 f
          (λ result.
            reads (publish_sweep now result) >>= λ messages. give (respond 200 swept messages))
          db
          (λ result.
            bind-Reads (reads (publish_sweep now result))
              (λ messages. give (respond 200 swept messages))
              (reads-Reads (publish_sweep now result)) (λ a s. refl)))
