-- ===== src/Tests/System.antt =====
-- The theorems on the whole API, at a rider who books while the tables have another user.
use mad_devs_transport_shari.Prelude.{ℕ, ◌≡◌, refl, false, some, List, [], ◌∷◌, ◌==◌, arith}
use mad_devs_transport_shari.Prelude.Int.{ℤ, pos}
use mad_devs_transport_shari.Table.{scalar}
use mad_devs_transport_shari.Models.{User, Booking, Ride}
use mad_devs_transport_shari.Database.{get_ride_row, get_booking}
use mad_devs_transport_shari.Database.Invariant.{IsValid}
use mad_devs_transport_shari.Service.{Request, run}
use mad_devs_transport_shari.Service.Runs.{seed_scooters-IsValid}
use mad_devs_transport_shari.Accounts.{user_from_token}
use mad_devs_transport_shari.Accounts.Sound.{IsSound}
use mad_devs_transport_shari.Http.{done}
use mad_devs_transport_shari.AccountApi.{
  get_current_user, session_token, starts_with_bearer, after_prefix,
}
use mad_devs_transport_shari.AccountApi.Endpoints.{logs_in}
use mad_devs_transport_shari.AccountApi.Sessions.{HasSession, get_current_user_live}
use mad_devs_transport_shari.RideApi.Handlers.{
  System, Call, acts, accounts, telemetry, sweep, book, start, active_ride, run_calls,
}
use mad_devs_transport_shari.RideApi.Runs.{Trace, run_calls_refines, strangers_change_nothing}
use mad_devs_transport_shari.RideApi.Valid.{run_calls-IsValid}
use mad_devs_transport_shari.Tests.Accounts.{plain, timur}
use mad_devs_transport_shari.Tests.Accounts
use mad_devs_transport_shari.Tests.Api.{site, phone, accounts-IsSound}
use mad_devs_transport_shari.Tests.Sample.{sample_db, settings, fleet_rows}

abbrev town : System ℤ
town = record { accounts = Accounts.accounts; fleet = sample_db }

abbrev morning : List (Call ℤ)
morning =
    acts phone 500 (book "KG-001" 1000000 1000500)
    ∷ accounts (logs_in "timur@mail.kg" "old-secret" "tablet" 600)
    ∷ acts phone 700 (start 1 60000000)
    ∷ []

abbrev day : List (Call ℤ)
day =
    acts phone 500 (book "KG-001" 1000000 1000500)
    ∷ telemetry (record { code = "KG-002"; lat = pos 428747; lon = pos 745731; battery = 66 })
        2000000
    ∷ sweep (λ i. false) 3000000
    ∷ acts phone 700 active_ride
    ∷ []

run_calls_refines_example :
    (qs : List (Request ℤ)) × Trace settings site day town qs
    × ((run_calls settings site day town).fleet ≡ run settings qs sample_db)
run_calls_refines_example = run_calls_refines settings site day town

run_calls-IsValid_example :
    IsValid (run_calls settings site day town).fleet
    × IsSound plain (run_calls settings site day town).accounts
run_calls-IsValid_example =
    run_calls-IsValid settings site day town (seed_scooters-IsValid 15 fleet_rows) accounts-IsSound

-- Timur's session, not the one of user 1.
not_the_first :
    (now : ℕ) (u : User)
    → get_current_user site phone now Accounts.accounts ≡ (done timur, Accounts.accounts)
    → HasSession site phone now Accounts.accounts u
    → (1 == u.id) ≡ false
not_the_first now u signed h =
    ground (arith, signed, get_current_user_live site phone now Accounts.accounts u h)

timur_signed_in :
    get_current_user site phone 500 Accounts.accounts ≡ (done timur, Accounts.accounts)
unfolding get_current_user session_token starts_with_bearer after_prefix user_from_token scalar
timur_signed_in = refl

abbrev booking_call : List (Call ℤ)
booking_call = acts phone 500 (book "KG-001" 1000000 1000500) ∷ []

strangers_change_nothing_example :
    ((i : ℕ) (r : Ride)
      → get_ride_row i sample_db ≡ some r
      → r.user_id ≡ 1
      → get_ride_row i (run_calls settings site booking_call town).fleet ≡ some r)
    × ((i : ℕ) (b : Booking)
        → get_booking i sample_db ≡ some b
        → b.user_id ≡ 1
        → get_booking i (run_calls settings site booking_call town).fleet ≡ some b)
strangers_change_nothing_example =
    strangers_change_nothing settings site 1 booking_call town (seed_scooters-IsValid 15 fleet_rows)
      (λ u h. not_the_first 500 u timur_signed_in h, tt)
