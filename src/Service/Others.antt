-- ===== src/Service/Others.antt =====
-- backend/app/services/bookings.py and rides.py: what it is to leave the rows of the other users alone.
use mad_devs_transport_shari.Prelude.{
  ℕ, ◌≡◌, sym, ◌∙◌, Bool, false, some, List, [], ◌∷◌, ◌++◌, ◌==◌, arith, Bool-cases, inl, inr,
  subst,
}
use mad_devs_transport_shari.Table.{get, put}
use mad_devs_transport_shari.Table.Laws.{get-put_ne, scalar-insert, key-get}
use mad_devs_transport_shari.Models.{Db, Booking, Ride, Email}
use mad_devs_transport_shari.Mail.{store_receipt, send_receipt, send_email}
use mad_devs_transport_shari.Database.{ride_key, booking_key}
use mad_devs_transport_shari.Outcome.{Outcome, ok, raise}
use mad_devs_transport_shari.Bookings.{free_scooter}
use mad_devs_transport_shari.Rides.{with_receipt}

module _ {ℓ} {A : Type ℓ} (key owner : A → ℕ) (u : ℕ) where
  -- The rows of the other users.
  abbrev pub KeepsOthers : List A → List A → Type ℓ
  KeepsOthers xs ys =
      (j : ℕ) (x : A) → get key j xs ≡ some x → (owner x == u) ≡ false → get key j ys ≡ some x

  pub put-KeepsOthers :
      (i : ℕ) (row old : A) (xs : List A)
      → get key i xs ≡ some old
      → owner old ≡ u
      → key row ≡ key old
      → KeepsOthers xs (put key row xs)
  put-KeepsOthers i row old xs at own same j x found foreign = elim (Bool-cases (j == key row)) [
    | inl hit ↦
        let e : j ≡ i = ground (arith, hit, same, key-get key i xs old at) in
        let both : some x ≡ some old = sym (subst (λ k. get key k xs ≡ some x) e found) ∙ at in
        absurd (ground (arith, both, own, foreign))
    | inr miss ↦ get-put_ne key j row xs (λ e. ground (arith, miss, e)) ∙ found
  ]

  pub insert-KeepsOthers : (row : A) (xs : List A) → KeepsOthers xs (xs ++ row ∷ [])
  insert-KeepsOthers row xs j x found foreign =
      ground (arith, found, scalar-insert (λ y. key y == j) xs row)

abbrev pub ride_owner : Ride → ℕ
ride_owner r = r.user_id

abbrev pub booking_owner : Booking → ℕ
booking_owner b = b.user_id

-- No ride and no booking of another user is changed or gone.
abbrev pub LeavesOthers : {F : Type 0} → ℕ → Db F → Db F → Type 0
LeavesOthers u db db' =
    KeepsOthers ride_key ride_owner u db.rides db'.rides
    × KeepsOthers booking_key booking_owner u db.bookings db'.bookings

abbrev pub Private : {A F : Type 0} → ℕ → Db F → Outcome (A × Db F) → Type 0
Private u db (ok (a, db')) = LeavesOthers u db db'
Private u db (raise e) = Unit

pub LeavesOthers-refl : {F : Type 0} (u : ℕ) (db : Db F) → LeavesOthers u db db
LeavesOthers-refl u db = (λ j x found foreign. found, λ j x found foreign. found)

pub caught-bookings :
    {F : Type 0} (accepts : Email → Bool) (r : Ride) (db : Db F)
    → (store_receipt accepts r db).1.bookings ≡ db.bookings
unfolding store_receipt send_receipt send_email
caught-bookings accepts r db = ground arith

pub with_receipt-bookings :
    {F : Type 0} (accepts : Email → Bool) (r : Ride) (now : Bool) (db : Db F)
    → (with_receipt accepts r now db).1.bookings ≡ db.bookings
unfolding with_receipt
with_receipt-bookings accepts r now db = caught-bookings accepts r db

pub free_scooter-rides :
    {F : Type 0} (i threshold : ℕ) (db : Db F) → (free_scooter i threshold db).rides ≡ db.rides
unfolding free_scooter
free_scooter-rides i threshold db = ground arith
