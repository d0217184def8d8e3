-- ===== src/Database/Sane.antt =====
-- What is asked of every transaction on a valid database.
use mad_devs_transport_shari.Models.{Db}
use mad_devs_transport_shari.Outcome.{
  Outcome, Error, ok, raise, not_found, forbidden, conflict, auth, fault,
}
use mad_devs_transport_shari.Database.{after}
use mad_devs_transport_shari.Database.Invariant.{IsValid}

-- An error that the API reports; not an exception that nobody catches.
abbrev pub IsRefusal : Error → Type 0
IsRefusal (fault f) = ⊥
IsRefusal (not_found c) = Unit
IsRefusal (forbidden c) = Unit
IsRefusal (conflict c) = Unit
IsRefusal (auth c) = Unit

-- A call that answers has left valid rows, and one that raises has refused the request.
abbrev pub Sane {ℓ} : {A : Type ℓ} {F : Type 0} → Outcome (A × Db F) → Type 0
Sane (ok (a, db)) = IsValid db
Sane (raise e) = IsRefusal e

pub Sane-after {ℓ} :
    {A : Type ℓ} {F : Type 0} (db : Db F) (o : Outcome (A × Db F))
    → IsValid db
    → Sane o
    → IsValid (after db o)
Sane-after db (ok (a, db')) v h = h
Sane-after db (raise e) v h = v
