-- ===== src/Outcome.antt =====
-- How a call ends: with a value, or by raising. The service errors of backend/app/services/rides.py
-- and bookings.py carry an API code; the message for the reader is not modelled. A `fault` is an
-- exception that no service catches: an AssertionError, an
-- IndexError, an AttributeError, a ValueError or an error of the database.
use mad_devs_transport_shari.Prelude.{Bool, true, false, Option, none, some}

pub data Code : Type 0 where
  scooter_not_found booking_not_found ride_not_found : Code
  not_your_booking not_your_ride : Code
  scooter_not_available scooter_battery_low booking_used booking_not_active : Code
  user_has_active_booking user_has_active_ride ride_finished outside_service_zone : Code
  email_taken password_not_set invalid_credentials wrong_password : Code

pub data Fault : Type 0 where
  value_error index_error attribute_error assertion_error database_error : Fault

pub data Error : Type 0 where
  not_found forbidden conflict : Code → Error
  -- the AuthError of services/auth.py, whose status the endpoint chooses
  auth : Code → Error
  fault : Fault → Error

pub data Outcome {ℓ} (A : Type ℓ) : Type ℓ where
  ok : A → Outcome A
  raise : Error → Outcome A

infixl 5 ◌>>=◌ ◌>>◌
abbrev pub ◌>>=◌ {ℓ κ} : {A : Type ℓ} {B : Type κ} → Outcome A → (A → Outcome B) → Outcome B
ok a >>= f = f a
raise e >>= f = raise e

abbrev pub ◌>>◌ {ℓ} : {B : Type ℓ} → Outcome (Unit {0}) → Outcome B → Outcome B
m >> k = m >>= λ _. k

abbrev pub raise_if : Bool → Error → Outcome (Unit {0})
raise_if true e = raise e
raise_if false e = ok tt

-- A value that must be there.
abbrev pub or_raise {ℓ} : {A : Type ℓ} → Option A → Error → Outcome A
or_raise none e = raise e
or_raise (some a) e = ok a

-- A value that the driver or the database refuses, in the parameter of a query or in a row to write, is a
-- DataError, which no service and no endpoint catches.
abbrev pub if_encoded {ℓ} : {A : Type ℓ} → Bool → Outcome A → Outcome A
if_encoded true o = o
if_encoded false o = raise (fault database_error)
