-- ===== src/Sweeper/Once.antt =====
-- backend/app/services/booking_sweeper.py: which bookings a pass expires, and which it warns about.
use mad_devs_transport_shari.Prelude.{
  ℕ, ◌+◌, ◌≡◌, refl, ap, Bool, true, false, not, ◌&&◌, some, List, [], ◌∷◌, map, arith, filter_by,
  Bool-cases, inl, inr, length, All, ◌==◌,
}
use mad_devs_transport_shari.Table.{count, IsKeyed}
use mad_devs_transport_shari.Table.Laws.{count-put, put-IsKeyed}
use mad_devs_transport_shari.Models.{Db, Booking}
use mad_devs_transport_shari.Database.{booking_key, get_booking, put_booking}
use mad_devs_transport_shari.Database.Invariant.{IsValid}
use mad_devs_transport_shari.Sweeper.{
  is_overdue, expired_at, expire_one, expire_loop, expire_overdue, must_warn, warn_row,
  stamp_warned, warn_expiring,
}
use mad_devs_transport_shari.Sweeper.Keeps.{
  Pending, selected, selected-Pending, All-filter_by, All-get, expire_one-Pending,
  count-filter_by-le, free_scooter-bookings,
}

must_warn-warn_row :
    (now wb now' wb' : ℕ) (b : Booking)
    → must_warn now' wb' (warn_row now wb b) ≡ (must_warn now' wb' b && not (must_warn now wb b))
unfolding warn_row must_warn
must_warn-warn_row now wb now' wb' b = ground arith

warn_row-unclaimed : (now wb : ℕ) (b : Booking) → must_warn now wb b ≡ false → warn_row now wb b ≡ b
unfolding warn_row
warn_row-unclaimed now wb b h = rw h

claimed_again :
    (now wb now' wb' : ℕ) (bs : List Booking)
    → filter_by (must_warn now' wb') (map (warn_row now wb) bs)
      ≡ filter_by (λ b. must_warn now' wb' b && not (must_warn now wb b)) bs
claimed_again now wb now' wb' [] = refl
claimed_again now wb now' wb' (b ∷ bs) = elim (Bool-cases (must_warn now wb b)) [
  | inl claimed ↦
      ground (arith, must_warn-warn_row now wb now' wb' b, claimed_again now wb now' wb' bs)
  | inr other ↦ ground (
    arith,
    must_warn-warn_row now wb now' wb' b,
    warn_row-unclaimed now wb b other,
    claimed_again now wb now' wb' bs,
  )
]

-- A second pass of the warnings, at any instant and with any window, warns about exactly those
-- bookings of the original rows that it would have warned about alone and that the first pass did
-- not warn about: no booking is warned about twice.
pub warn_expiring_once :
    {F : Type 0} (now wb now' wb' : ℕ) (db : Db F)
    → (warn_expiring now' wb' (warn_expiring now wb db).1).0
      ≡ map
          (stamp_warned now')
          (filter_by (λ b. must_warn now' wb' b && not (must_warn now wb b)) db.bookings)
unfolding warn_expiring
warn_expiring_once now wb now' wb' db =
    ap (map (stamp_warned now')) (claimed_again now wb now' wb' db.bookings)

module _ {F : Type 0} (now threshold : ℕ) where
  pub expire_one-bookings :
      (b : Booking) (db : Db F)
      → (expire_one now threshold b db).bookings ≡ (put_booking (expired_at now b) db).bookings
  unfolding expire_one
  expire_one-bookings b db =
      free_scooter-bookings b.scooter_id threshold (put_booking (expired_at now b) db)

  -- Each round takes one booking off the overdue ones.
  expire_loop-count :
      (bs : List Booking) (db : Db F)
      → IsKeyed booking_key db.bookings
      → Pending db bs
      → All (λ b. is_overdue now b ≡ true) bs
      → count (is_overdue now) (expire_loop now threshold bs db).bookings + length bs
        ≡ count (is_overdue now) db.bookings
  unfolding expire_loop
  expire_loop-count [] db keyed h due = omega arith
  expire_loop-count (b ∷ rest) db keyed (found, active, alone, h) (hit, due) =
      let e = expire_one-bookings b db in
      let keyed' : IsKeyed booking_key (expire_one now threshold b db).bookings =
        rw e (put-IsKeyed booking_key (expired_at now b) b db.bookings keyed found) in
      ground (
        arith,
        hit,
        ap (count (is_overdue now)) e,
        count-put booking_key (is_overdue now) (expired_at now b) b db.bookings keyed found,
        expire_loop-count rest (expire_one now threshold b db) keyed'
            (expire_one-Pending now threshold b db rest alone h) due,
      )

pub count-length {ℓ} :
    {A : Type ℓ} (p : A → Bool) (xs : List A) → length (filter_by p xs) ≡ count p xs
unfolding count
count-length p [] = refl
count-length p (x ∷ xs) = ground (arith, count-length p xs)

pub length-zero {ℓ} : {A : Type ℓ} (xs : List A) → length xs ≡ 0 → xs ≡ []
length-zero [] h = refl
length-zero (x ∷ xs) h = absurd (omega arith)

filter_by-ext {ℓ} :
    {A : Type ℓ} (p q : A → Bool) (same : (x : A) → p x ≡ q x) (xs : List A)
    → filter_by p xs ≡ filter_by q xs
filter_by-ext p q same [] = refl
filter_by-ext p q same (x ∷ xs) = ground (arith, same x, filter_by-ext p q same xs)

All-second {ℓ κ μ} :
    {A : Type ℓ} (P : A → Type κ) (Q R : A → Type μ) (imp : (x : A) → Q x → R x) (xs : List A)
    → All (λ x. P x × Q x) xs
    → All R xs
All-second P Q R imp [] h = tt
All-second P Q R imp (x ∷ xs) ((p, q), h) = (imp x q, All-second P Q R imp xs h)

-- A pass that meets no locked row expires every overdue booking: on valid rows none is left that is
-- active with its time run out.
pub expire_overdue_all :
    {F : Type 0} (db : Db F) (locked : ℕ → Bool) (now threshold : ℕ)
    → IsValid db
    → ((i : ℕ) → locked i ≡ false)
    → filter_by (is_overdue now) (expire_overdue locked now threshold db).1.bookings ≡ []
unfolding expire_overdue
expire_overdue_all db locked now threshold v free =
    let sel = selected db now locked in
    let bs = filter_by sel db.bookings in
    let found =
      All-filter_by sel (λ b. get_booking b.id db ≡ some b) db.bookings
        (All-get booking_key db.bookings v.bookings_keyed) in
    let pending =
      selected-Pending db now locked bs
        (λ i.
          omega (
            arith,
            v.bookings_keyed i,
            count-filter_by-le sel (λ b. booking_key b == i) db.bookings,
          ))
        found in
    let due =
      All-second (λ b. get_booking b.id db ≡ some b) (λ b. sel b ≡ true)
        (λ b. is_overdue now b ≡ true) (λ b h. ground (arith, h)) bs found in
    let rest = (expire_loop now threshold bs db).bookings in
    let same : bs ≡ filter_by (is_overdue now) db.bookings =
      filter_by-ext sel (is_overdue now) (λ b. ground (arith, free b.id)) db.bookings in
    length-zero (filter_by (is_overdue now) rest) (
      omega (
        arith,
        count-length (is_overdue now) rest,
        expire_loop-count now threshold bs db v.bookings_keyed pending due,
        ap length same,
        count-length (is_overdue now) db.bookings,
      ))
