-- ===== src/RideApi/Handlers.antt =====
-- backend/app/api/bookings.py, rides.py, scooters.py, emails.py, deps.py: the whole API as one system, with the
-- accounts beside the other tables. A request of a rider names no user: the session that it carries does.
use mad_devs_transport_shari.Prelude.{
  ℕ, Bool, true, false, ◌&&◌, ◌||◌, Option, none, some, List, [], ◌∷◌, ◌++◌, map, ◌==◌, ltb,
  is_some, filter_by, if◌then◌else◌,
}
use mad_devs_transport_shari.Text.{String, is_column_text}
use mad_devs_transport_shari.Models.{Db, Booking, Ride, Email}
use mad_devs_transport_shari.Models.Status.{is_finished}
use mad_devs_transport_shari.Scooters.{TelemetryIn}
use mad_devs_transport_shari.Outcome.{if_encoded, Outcome, ok, Code, ◌>>=◌ as ◌then_do◌}
use mad_devs_transport_shari.Bookings.{create_booking, cancel_booking, get_active_booking}
use mad_devs_transport_shari.Rides.{
  Started, FinishResult, TelemetryResult, start_ride, pause_ride, resume_ride, finish_ride,
  record_telemetry, get_active_ride, locked_ride,
}
use mad_devs_transport_shari.Sweeper.{sweep_bookings}
use mad_devs_transport_shari.Service.{Settings, is_column_id}
use mad_devs_transport_shari.Accounts.{AccountDb}
use mad_devs_transport_shari.Http.{
  done, Handler, give, refuse, ◌>>=◌, ◌>>◌, refuse_if, call, bad_request, service,
}
use mad_devs_transport_shari.AccountApi.{Site, Carrier, Answer, get_current_user, len}
use mad_devs_transport_shari.AccountApi.Endpoints.{AccountRequest, serve_account}
use mad_devs_transport_shari.RideApi.{
  ScooterOut, BookingOut, RideOut, EmailOut, Message, to_everyone, scooter_updated, RideChange,
  ride_started, ride_paused, ride_resumed, ride_finished, BookingChange, booking_created,
  booking_cancelled, as_scooter_out, as_email_out, from_booking, from_ride, publish_booking_change,
  publish_ride_change, announce_receipt, publish_sweep,
}

pub record System (F : Type 0) : Type 0 where
  pub accounts : AccountDb
  pub fleet : Db F

pub data Shown (F : Type 0) : Type 0 where
  account : Answer → Shown F
  scooter : ScooterOut F → Shown F
  booking : Option BookingOut → Shown F
  ride : Option RideOut → Shown F
  rides : List RideOut → Shown F
  emails : List EmailOut → Shown F
  swept : Shown F

pub record Response (F : Type 0) : Type 0 where
  pub status : ℕ
  pub shown : Shown F
  pub messages : List (Message F)

-- What a signed-in rider asks for; `now` and `clock` are read by the handler.
pub data Action : Type 0 where
  book : (scooter_code : String) (now clock : ℕ) → Action
  cancel : (booking_id now : ℕ) → Action
  start : (booking_id now : ℕ) → Action
  pause resume finish : (ride_id now : ℕ) → Action
  active_booking active_ride finished_rides mailbox : Action
  one_ride : (ride_id : ℕ) → Action

pub data Call (F : Type 0) : Type 0 where
  accounts : AccountRequest → Call F
  acts : (carrier : Carrier) (at : ℕ) (action : Action) → Call F
  telemetry : (report : TelemetryIn F) (now : ℕ) → Call F
  sweep : (locked : ℕ → Bool) (now : ℕ) → Call F

-- `ORDER BY finished_at DESC, id DESC`; in descending order NULL comes first.
abbrev pub finished_later : Ride → Ride → Bool
finished_later a b = elim a.finished_at [
  | none ↦ if is_some b.finished_at then true else ltb b.id a.id
  | some s ↦ elim b.finished_at [ none ↦ false | some t ↦ ltb t s || (s == t && ltb b.id a.id) ]
]

unfoldable pub insert_ride_by_finish : Ride → List Ride → List Ride
insert_ride_by_finish r [] = r ∷ []
insert_ride_by_finish r (x ∷ xs) =
    let later = insert_ride_by_finish r xs in if finished_later r x then r ∷ (x ∷ xs) else x ∷ later

unfoldable pub sort_by_finish : List Ride → List Ride
sort_by_finish [] = []
sort_by_finish (r ∷ rs) = insert_ride_by_finish r (sort_by_finish rs)

-- `ORDER BY created_at DESC, id DESC`: the rows are taken to be created in the order of the table.
unfoldable pub newest_first : List Email → List Email
newest_first [] = []
newest_first (e ∷ es) = newest_first es ++ e ∷ []

module _ {F : Type 0} where
  unfoldable pub list_finished_rides : ℕ → Db F → List Ride
  list_finished_rides user_id db =
      sort_by_finish (filter_by (λ r. r.user_id == user_id && is_finished r.status) db.rides)

  unfoldable pub from_rides : List Ride → Db F → Outcome (List RideOut)
  from_rides [] db = ok []
  from_rides (r ∷ rs) db =
      from_ride r db then_do λ out. from_rides rs db then_do λ outs. ok (out ∷ outs)

  abbrev pub respond : ℕ → Shown F → List (Message F) → Response F
  respond status shown messages = record { status = status; shown = shown; messages = messages }

  -- A value that is computed from the rows.
  abbrev pub reads : {A : Type 0} → (Db F → Outcome A) → Handler (Db F) A
  reads f = call 500 (λ db. f db then_do λ a. ok (a, db))

  abbrev pub booked : BookingChange → ℕ → Booking → Handler (Db F) (Response F)
  booked change status b = do
    (out, messages) ← reads (publish_booking_change b change)
    give (respond status (booking (some out)) messages)

  abbrev pub rode : RideChange → ℕ → Ride → Handler (Db F) (Response F)
  rode change status r = do
    (out, messages) ← reads (publish_ride_change r change)
    give (respond status (ride (some out)) messages)

  abbrev pub shows_ride : Ride → Handler (Db F) (Response F)
  shows_ride r = do out ← reads (from_ride r); give (respond 200 (ride (some out)) [])

  -- 201 with a new ride, 200 with the one that goes on.
  abbrev pub started : Started → Handler (Db F) (Response F)
  started result =
      if result.created then rode ride_started 201 result.ride else shows_ride result.ride

  -- The receipt is announced after the ride.
  abbrev pub announced : FinishResult → Response F → Handler (Db F) (Response F)
  announced result response db = (
    done (record response {
      messages = response.messages ++ announce_receipt result.ride result.email_id db;
    }),
    db,
  )

  abbrev pub finished : FinishResult → Handler (Db F) (Response F)
  finished result = do
    response ←
        if result.finished_now then rode ride_finished 200 result.ride else shows_ride result.ride
    announced result response

  abbrev pub shows_booking : Option Booking → Handler (Db F) (Response F)
  shows_booking none = give (respond 200 (booking none) [])
  shows_booking (some b) = do
    out ← reads (from_booking b)
    give (respond 200 (booking (some out)) [])

  abbrev pub shows_active : Option Ride → Handler (Db F) (Response F)
  shows_active none = give (respond 200 (ride none) [])
  shows_active (some r) = shows_ride r

  -- The new state of the scooter, after a ride that the report has ended or not.
  abbrev pub reported : Option (TelemetryResult F) → Handler (Db F) (Response F)
  reported none = refuse 404 (service Code.scooter_not_found)
  reported (some result) = elim result.finish [
    | none ↦ give (
        respond 200 (scooter (as_scooter_out result.scooter))
          (to_everyone (scooter_updated (as_scooter_out result.scooter)) ∷ []))
    | some ended ↦ do
      response ← rode ride_finished 200 ended.ride
      announced ended (record response { shown = scooter (as_scooter_out result.scooter) })
  ]

module _ {F : Type 0} where
  -- A handler of one part of the system.
  abbrev pub on_fleet : {A : Type 0} → Handler (Db F) A → Handler (System F) A
  on_fleet m s = ((m s.fleet).0, record s { fleet = (m s.fleet).1 })

  abbrev pub on_accounts : {A : Type 0} → Handler AccountDb A → Handler (System F) A
  on_accounts m s = ((m s.accounts).0, record s { accounts = (m s.accounts).1 })

module _ {F : Type 0} (c : Settings F) where
  -- The endpoints, for the user behind the session.
  abbrev pub post_booking : ℕ → String → ℕ → ℕ → Handler (Db F) (Response F)
  post_booking user_id scooter_code now clock = do
    refuse_if (len scooter_code == 0 || ltb 32 (len scooter_code)) 422 bad_request
    b ← call 500 (λ db.
        if_encoded (is_column_text scooter_code)
          (create_booking user_id scooter_code c.booking_ttl now clock db))
    booked booking_created 201 b

  abbrev pub post_cancel : ℕ → ℕ → ℕ → Handler (Db F) (Response F)
  post_cancel user_id booking_id now = do
    b ← call 500 (λ db.
        if_encoded (is_column_id booking_id)
          (cancel_booking user_id booking_id now c.low_battery_threshold db))
    booked booking_cancelled 200 b

  abbrev pub post_ride : ℕ → ℕ → ℕ → Handler (Db F) (Response F)
  post_ride user_id booking_id now = do
    refuse_if (booking_id == 0) 422 bad_request
    result ← call 500 (λ db.
        if_encoded (is_column_id booking_id)
          (start_ride user_id booking_id c.tariff now c.low_battery_threshold db))
    started result

  abbrev pub post_pause : ℕ → ℕ → ℕ → Handler (Db F) (Response F)
  post_pause user_id ride_id now = do
    r ← call 500 (λ db. if_encoded (is_column_id ride_id) (pause_ride user_id ride_id now db))
    rode ride_paused 200 r

  abbrev pub post_resume : ℕ → ℕ → ℕ → Handler (Db F) (Response F)
  post_resume user_id ride_id now = do
    r ← call 500 (λ db. if_encoded (is_column_id ride_id) (resume_ride user_id ride_id now db))
    rode ride_resumed 200 r

  abbrev pub post_finish : ℕ → ℕ → ℕ → Handler (Db F) (Response F)
  post_finish user_id ride_id now = do
    result ← call 500 (λ db.
        if_encoded (is_column_id ride_id)
          (finish_ride c.floats c.accepts user_id ride_id c.zones c.low_battery_threshold now db))
    finished result

  abbrev pub list_rides : ℕ → Handler (Db F) (Response F)
  list_rides user_id = do
    outs ← reads (λ db. from_rides (list_finished_rides user_id db) db)
    give (respond 200 (rides outs) [])

  abbrev pub list_emails : ℕ → Handler (Db F) (Response F)
  list_emails user_id db = (
    done (
        respond 200
          (emails
            (map as_email_out (newest_first (filter_by (λ e. e.user_id == user_id) db.emails))))
          []),
    db,
  )

  abbrev pub get_one_ride : ℕ → ℕ → Handler (Db F) (Response F)
  get_one_ride user_id ride_id = do
    r ← reads (λ db. if_encoded (is_column_id ride_id) (locked_ride user_id ride_id db))
    shows_ride r

  unfoldable pub act : ℕ → Action → Handler (Db F) (Response F)
  act user_id (book scooter_code now clock) = post_booking user_id scooter_code now clock
  act user_id (cancel booking_id now) = post_cancel user_id booking_id now
  act user_id (start booking_id now) = post_ride user_id booking_id now
  act user_id (pause ride_id now) = post_pause user_id ride_id now
  act user_id (resume ride_id now) = post_resume user_id ride_id now
  act user_id (finish ride_id now) = post_finish user_id ride_id now
  act user_id active_booking = λ db. shows_booking (get_active_booking user_id db) db
  act user_id active_ride = λ db. shows_active (get_active_ride user_id db) db
  act user_id finished_rides = list_rides user_id
  act user_id mailbox = list_emails user_id
  act user_id (one_ride ride_id) = get_one_ride user_id ride_id

  unfoldable pub post_telemetry : TelemetryIn F → ℕ → Handler (Db F) (Response F)
  post_telemetry report now = do
    refuse_if (len report.code == 0 || (ltb 32 (len report.code) || ltb 100 report.battery)) 422
        bad_request
    result ← call 500 (λ db. if_encoded (is_column_text report.code) (
        record_telemetry c.accepts report c.low_battery_threshold c.ride_auto_finish_battery now
          db))
    reported result

  -- A pass of the sweeper, which commits before it sends.
  unfoldable pub sweep_pass : (ℕ → Bool) → ℕ → Handler (Db F) (Response F)
  sweep_pass locked now = do
    result ←
        call 500
          (λ db. ok (sweep_bookings locked now c.booking_warn_before c.low_battery_threshold db))
    messages ← reads (publish_sweep now result)
    give (respond 200 swept messages)

  unfoldable pub answer_call : Site → Call F → Handler (System F) (Response F)
  answer_call site (accounts q) = do
    answer ← on_accounts (serve_account site q)
    give (respond answer.status (account answer) [])
  answer_call site (acts carrier at action) = do
    user ← on_accounts (get_current_user site carrier at)
    on_fleet (act user.id action)
  answer_call site (telemetry report now) = on_fleet (post_telemetry report now)
  answer_call site (sweep locked now) = on_fleet (sweep_pass locked now)

  -- The system after a history of calls.
  unfoldable pub run_calls : Site → List (Call F) → System F → System F
  run_calls site [] s = s
  run_calls site (q ∷ rest) s = run_calls site rest (answer_call site q s).1
