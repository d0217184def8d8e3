-- ===== src/Sweeper/Keeps.antt =====
-- backend/app/services/booking_sweeper.py: the invariant under a sweep.
use mad_devs_transport_shari.Prelude.{
  ℕ, ◌≤◌, ◌≡◌, refl, ◌∙◌, Bool, true, not, ◌&&◌, some, List, [], ◌∷◌, map, ◌==◌, ◌≢◌, arith,
  filter_by, All, Bool-cases, inl, inr, ==_refl,
}
use mad_devs_transport_shari.Table.{scalar, count, get, IsKeyed}
use mad_devs_transport_shari.Table.Laws.{get-put_ne, IsKeyed-tail, count-scalar-some}
use mad_devs_transport_shari.Models.{Db, Booking}
use mad_devs_transport_shari.Models.Status.{BookingStatus, is_active}
use mad_devs_transport_shari.Bookings.{free_scooter}
use mad_devs_transport_shari.Bookings.Release.{release-IsValid}
use mad_devs_transport_shari.Database.{
  booking_key, get_booking, put_booking, holds_user, holds_scooter,
}
use mad_devs_transport_shari.Database.Invariant.{IsValid, used_as}
use mad_devs_transport_shari.Sweeper.{
  is_overdue, expired_at, expire_one, expire_loop, expire_overdue, warn_row, warn_expiring,
  sweep_bookings,
}

module _ {ℓ} {A : Type ℓ} (p : A → Bool) where
  pub count-filter_by-le :
      (test : A → Bool) (xs : List A) → count test (filter_by p xs) ≤ count test xs
  unfolding count
  count-filter_by-le test [] = omega arith
  count-filter_by-le test (x ∷ xs) = ground (arith, count-filter_by-le test xs)

  pub All-filter_by {κ} :
      (P : A → Type κ) (xs : List A) → All P xs → All (λ x. P x × (p x ≡ true)) (filter_by p xs)
  All-filter_by P [] h = tt
  All-filter_by P (x ∷ xs) (hx, h) = elim (Bool-cases (p x)) [
    | inl hit ↦ rw hit ((hx, hit), All-filter_by P xs h)
    | inr miss ↦ rw miss (All-filter_by P xs h)
  ]

module _ {ℓ} {A : Type ℓ} (key : A → ℕ) where
  -- Each row of a keyed table is found by its key.
  All-found :
      (xs ys : List A) (x : A)
      → IsKeyed key (x ∷ xs)
      → All (λ y. get key (key y) xs ≡ some y) ys
      → All (λ y. get key (key y) (x ∷ xs) ≡ some y) ys
  unfolding scalar count
  All-found xs [] x keyed h = tt
  All-found xs (y ∷ ys) x keyed (hy, h) = (
    ground (arith, keyed (key y), count-scalar-some (λ z. key z == key y) xs y hy),
    All-found xs ys x keyed h,
  )

  pub All-get : (xs : List A) → IsKeyed key xs → All (λ y. get key (key y) xs ≡ some y) xs
  unfolding scalar
  All-get [] keyed = tt
  All-get (x ∷ xs) keyed = (
    ground (arith, ==_refl (key x)),
    All-found xs xs x keyed (All-get xs (IsKeyed-tail key x xs keyed)),
  )

-- Bookings that are active in the rows, each listed once.
abbrev pub Pending : {F : Type 0} → Db F → List Booking → Type 0
Pending db [] = Unit
Pending db (b ∷ rest) =
    (get_booking b.id db ≡ some b)
    × (is_active b.status ≡ true)
    × (count (λ c. c.id == b.id) rest ≡ 0)
    × Pending db rest

pub free_scooter-bookings :
    {F : Type 0} (i threshold : ℕ) (db : Db F)
    → (free_scooter i threshold db).bookings ≡ db.bookings
unfolding free_scooter
free_scooter-bookings i threshold db = ground arith

module _ {F : Type 0} (now threshold : ℕ) where
  -- A round of the loop leaves the other pending bookings pending.
  pub expire_one-Pending :
      (b : Booking) (db : Db F) (rest : List Booking)
      → count (λ c. c.id == b.id) rest ≡ 0
      → Pending db rest
      → Pending (expire_one now threshold b db) rest
  unfolding expire_one count
  expire_one-Pending b db [] once h = tt
  expire_one-Pending b db (c ∷ rest) once (found, active, alone, h) =
      let other : c.id ≢ b.id = λ e. absurd (ground (arith, once, e)) in
      (
        rw (free_scooter-bookings b.scooter_id threshold (put_booking (expired_at now b) db))
            (get-put_ne booking_key c.id (expired_at now b) db.bookings other ∙ found),
        active,
        alone,
        expire_one-Pending b db rest (ground arith) h,
      )

  expire_loop-IsValid :
      (bs : List Booking) (db : Db F)
      → IsValid db
      → Pending db bs
      → IsValid (expire_loop now threshold bs db)
  unfolding expire_loop
  expire_loop-IsValid [] db v h = v
  expire_loop-IsValid (b ∷ rest) db v (found, active, alone, h) =
      expire_loop-IsValid rest (expire_one now threshold b db)
        (unfold expire_one in
          release-IsValid db v b.id b found active BookingStatus.expired now threshold refl refl)
        (expire_one-Pending b db rest alone h)

module _ {F : Type 0} (db : Db F) (now : ℕ) (locked : ℕ → Bool) where
  abbrev pub selected : Booking → Bool
  selected b = is_overdue now b && not (locked b.id)

  pub selected-Pending :
      (bs : List Booking)
      → IsKeyed booking_key bs
      → All (λ b. (get_booking b.id db ≡ some b) × (selected b ≡ true)) bs
      → Pending db bs
  unfolding count
  selected-Pending [] keyed h = tt
  selected-Pending (b ∷ rest) keyed ((found, hit), h) = (
    found,
    ground (arith, hit),
    ground (arith, keyed b.id, ==_refl b.id),
    selected-Pending rest (IsKeyed-tail booking_key b rest keyed) h,
  )

  pub expire_overdue-IsValid :
      (threshold : ℕ) → IsValid db → IsValid (expire_overdue locked now threshold db).1
  unfolding expire_overdue
  expire_overdue-IsValid threshold v =
      expire_loop-IsValid now threshold (filter_by selected db.bookings) db v (
        selected-Pending (filter_by selected db.bookings)
          (λ i. omega (
            arith,
            v.bookings_keyed i,
            count-filter_by-le selected (λ b. booking_key b == i) db.bookings,
          ))
          (All-filter_by selected (λ b. get_booking b.id db ≡ some b) db.bookings
            (All-get booking_key db.bookings v.bookings_keyed)))

count-map {ℓ} :
    {A : Type ℓ} (f : A → A) (test : A → Bool)
    → ((x : A) → test (f x) ≡ test x)
    → (xs : List A) → count test (map f xs) ≡ count test xs
unfolding count
count-map f test same [] = refl
count-map f test same (x ∷ xs) = ground (arith, same x, count-map f test same xs)

module _ (now warn_before : ℕ) where
  -- The stamp changes nothing that the invariant reads.
  pub warn_row-same :
      (b : Booking)
      → ((warn_row now warn_before b).id ≡ b.id)
        × ((warn_row now warn_before b).status ≡ b.status)
        × ((warn_row now warn_before b).user_id ≡ b.user_id)
        × ((warn_row now warn_before b).scooter_id ≡ b.scooter_id)
  unfolding warn_row
  warn_row-same b = (ground arith, ground arith, ground arith, ground arith)

  pub warn_count :
      (test : Booking → Bool)
      → ((b : Booking) → test (warn_row now warn_before b) ≡ test b)
      → (bs : List Booking) → count test (map (warn_row now warn_before) bs) ≡ count test bs
  warn_count test same bs = count-map (warn_row now warn_before) test same bs

  pub warn_expiring-IsValid :
      {F : Type 0} (db : Db F) → IsValid db → IsValid (warn_expiring now warn_before db).1
  unfolding warn_expiring
  warn_expiring-IsValid db v = record {
    scooters_keyed = v.scooters_keyed;
    bookings_keyed = λ i. omega (
      arith,
      v.bookings_keyed i,
      warn_count (λ b. booking_key b == i) (λ b. ground (arith, warn_row-same b)) db.bookings,
    );
    rides_keyed = v.rides_keyed;
    bookings_fresh = λ i h. omega (
      arith,
      v.bookings_fresh i h,
      warn_count (λ b. booking_key b == i) (λ b. ground (arith, warn_row-same b)) db.bookings,
    );
    rides_fresh = v.rides_fresh;
    reserved = λ i. omega (
      arith,
      v.reserved i,
      warn_count (holds_scooter i) (λ b. ground (arith, warn_row-same b)) db.bookings,
    );
    riding = v.riding;
    paused = v.paused;
    one_hold = λ u. omega (
      arith,
      v.one_hold u,
      warn_count (holds_user u) (λ b. ground (arith, warn_row-same b)) db.bookings,
    );
    used = λ i. omega (
      arith,
      v.used i,
      warn_count (used_as i) (λ b. ground (arith, warn_row-same b)) db.bookings,
    );
    sound = v.sound;
    mailed = v.mailed;
  }

-- A sweep at any instant, whatever rows other transactions hold, keeps the rows valid.
pub sweep_bookings-IsValid :
    {F : Type 0} (locked : ℕ → Bool) (now warn_before threshold : ℕ) (db : Db F)
    → IsValid db
    → IsValid (sweep_bookings locked now warn_before threshold db).1
unfolding sweep_bookings
sweep_bookings-IsValid locked now warn_before threshold db v =
    warn_expiring-IsValid now warn_before (expire_overdue locked now threshold db).1
      (expire_overdue-IsValid db now locked threshold v)
