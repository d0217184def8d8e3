-- ===== src/Lib.antt =====
-- A scooter sharing service: a FastAPI backend over PostgreSQL, and a simulator of its fleet.
--
-- The backend (backend/app) books scooters, turns a booking into a ride, bills the ride by the second,
-- and ends it by the rider or by a flat battery; a background pass expires overdue bookings. A call of
-- a service is one transaction under row locks, so it is a function of the rows it finds: it gives an
-- Outcome, a value with the rows it leaves, or the exception it raises, which rolls back. Concurrent
-- requests are the sequences of such calls, in the order of the locks; each has a clock of its own, so the
-- instants need not grow. The simulator (simulator/scootersim) moves scooters and reports telemetry.
--
-- Files, and the code they are about:
--   Prelude, Text, Table: Booleans, integers, lists, strings; a table as a list of rows with keys.
--   Outcome: the error classes of backend/app/services/rides.py, bookings.py, auth.py.
--   Models, Models/Status: backend/app/models. Database: the tables as one value; Database/Invariant: the
--     rows that belong together (IsValid); Database/Sane: an answer with valid rows, or a refusal.
--   Billing: backend/app/billing.py. Geo: backend/app/geo.py.
--   Scooters: backend/app/services/scooters.py. Mail: services/mail.py (send_email), receipts.py.
--   AddressFormat, StubAddress: services/mail.py (email_problem; address_for, recipient_address).
--   Bookings: services/bookings.py. Sweeper: services/booking_sweeper.py. Seed: seed.py.
--   Timeline: the segments of a ride in services/rides.py (_close_segment, _settle).
--   Rides: start_ride, pause_ride, resume_ride, finish_ride, auto_finish_ride and record_telemetry of
--     services/rides.py. Service: one transaction, of a request of the API or of a pass of the sweeper,
--     and histories of them; Service/Owners: whose rows it leaves alone.
--   Configuration: core/config.py, the thresholds. Accounts: services/auth.py. Sockets: realtime/hub.py, api/ws.py.
--   MailDomain: services/mail_domain.py.
--   Http: what a handler ends in. AccountApi: the endpoints of api/auth.py and users.py, with deps.py and
--     account_checks.py. RideApi: schemas/ride.py, booking.py, scooter.py, email.py, realtime/publish.py, and
--     the endpoints of api/rides.py, bookings.py, scooters.py, emails.py with the accounts, as one system.
--   Simulator: simulator/scootersim/geo.py; Simulator/Fleet and Simulator/Moves: fleet.py, config.py;
--     Simulator/Runner: runner.py.
--   Tests: a sample system, and the theorems at it.
--
-- Numbers: an instant is a number of microseconds, money a number of kopecks, a rate a number of kopecks
-- per minute; the digits of Decimal and of NUMERIC(10, 2) are taken to be enough, and so are the 32 bits
-- of the ids and of the seconds that the code itself stores. An id in a request is tested: the DataError
-- of an id, or of a text that a column does not take, is modelled where the endpoint calls the service.
-- Seconds that the code could make negative are integers. Floats, the functions of math, random numbers
-- and hashes are parameters, and what is relied on is a named record of laws. No definition uses fuel:
-- the loops run over lists, and rejection sampling over its number of tries.
--
-- Not modelled: the texts of messages and e-mails, routing, the JSON around an event, the list of
-- scooters, the rows of the service zones, the width of the column of a name (the schema bounds the
-- name before it is stripped), the ranges of coordinates, the simulator's HTTP client, migrations,
-- scripts, and the web client. A request reads its clock and its random token once, and they are
-- arguments of its handler.
pub mod Prelude
pub mod Text
pub mod Table
pub mod Outcome
pub mod Geo
pub mod Models
pub mod Billing
pub mod Database
pub mod Scooters
pub mod Mail
pub mod Bookings
pub mod Timeline
pub mod Rides
pub mod Sweeper
pub mod Seed
pub mod Service
pub mod Accounts
pub mod Sockets
pub mod Simulator
pub mod Tests
pub mod AccountApi
pub mod AddressFormat
pub mod Configuration
pub mod Http
pub mod MailDomain
pub mod RideApi
pub mod StubAddress
