-- ===== src/Bookings/Create.antt =====
-- backend/app/services/bookings.py, `create_booking`: the rows of a new booking, and the invariant.
use mad_devs_transport_shari.Prelude.{
  ℕ, ◌+◌, ◌≤◌, ◌≡◌, true, none, some, ◌==◌, arith, not, is_some, Bool-cases, Option-cases, inl, inr,
  ==_iff, subst,
}
use mad_devs_transport_shari.Text.{String}
use mad_devs_transport_shari.Table.{scalar, count}
use mad_devs_transport_shari.Table.Laws.{
  count-put, count-insert, put-IsKeyed, insert-IsKeyed, get-scalar, count-scalar-none,
}
use mad_devs_transport_shari.Models.{Db, Scooter, Booking}
use mad_devs_transport_shari.Models.Status.{ScooterStatus, BookingStatus, is_available}
use mad_devs_transport_shari.Scooters.{has_code}
use mad_devs_transport_shari.Database.{
  scooter_key, booking_key, put_scooter, insert_booking, holds_user, holds_scooter, rides_user,
}
use mad_devs_transport_shari.Database.Invariant.{
  IsValid, reserved_as, riding_as, paused_as, used_as,
}
use mad_devs_transport_shari.Database.Sane.{Sane}
use mad_devs_transport_shari.Outcome.{or_raise}
use mad_devs_transport_shari.Bookings.{create_booking, commit_booking}

abbrev pub new_booking : {F : Type 0} → Db F → ℕ → Scooter F → ℕ → ℕ → ℕ → Booking
new_booking db user_id s ttl now clock = record {
  id = db.next_booking;
  user_id = user_id;
  scooter_id = s.id;
  status = BookingStatus.active;
  created_at = clock;
  expires_at = now + ttl;
  warned_at = none;
  ended_at = none;
}

abbrev pub reserve : {F : Type 0} → Scooter F → Scooter F
reserve s = record s { status = ScooterStatus.reserved }

commit_booking-Sane :
    {F : Type 0} (b : Booking) (before db : Db F) → IsValid db → Sane (commit_booking b before db)
unfolding commit_booking
commit_booking-Sane b before db v =
    elim (Bool-cases (is_some (scalar (holds_scooter b.scooter_id) before.bookings))) [
      | inl taken ↦ rw taken tt
      | inr free ↦ elim (Bool-cases (is_some (scalar (holds_user b.user_id) before.bookings))) [
        | inl held ↦ rw (free, held) tt
        | inr fine ↦ rw (free, fine) v
      ]
    ]

module _ {F : Type 0} (db : Db F) (user_id : ℕ) (code : String) (ttl now clock : ℕ) where
  abbrev pub booked : Scooter F → Db F
  booked s = insert_booking (new_booking db user_id s ttl now clock) (put_scooter (reserve s) db)

  module _ (v : IsValid db) (s : Scooter F) (found : scalar (has_code code) db.scooters ≡ some s)
      (free : is_available s.status ≡ true)
      (no_booking : scalar (holds_user user_id) db.bookings ≡ none)
      (no_ride : scalar (rides_user user_id) db.rides ≡ none) where
    booked-reserved :
        (i : ℕ)
        → count (holds_scooter i) (booked s).bookings ≡ count (reserved_as i) (booked s).scooters
    booked-reserved i = ground (
      arith,
      v.reserved i,
      count-insert (holds_scooter i) db.bookings (new_booking db user_id s ttl now clock),
      count-put scooter_key (reserved_as i) (reserve s) s db.scooters v.scooters_keyed
          (get-scalar scooter_key (has_code code) db.scooters s v.scooters_keyed found),
    )

    booked-riding :
        (i : ℕ) → count (riding_as i) (booked s).scooters ≡ count (riding_as i) db.scooters
    booked-riding i = ground (
      arith,
      count-put scooter_key (riding_as i) (reserve s) s db.scooters v.scooters_keyed
          (get-scalar scooter_key (has_code code) db.scooters s v.scooters_keyed found),
    )

    booked-paused :
        (i : ℕ) → count (paused_as i) (booked s).scooters ≡ count (paused_as i) db.scooters
    booked-paused i = ground (
      arith,
      count-put scooter_key (paused_as i) (reserve s) s db.scooters v.scooters_keyed
          (get-scalar scooter_key (has_code code) db.scooters s v.scooters_keyed found),
    )

    booked-used : (i : ℕ) → count (used_as i) (booked s).bookings ≡ count (used_as i) db.bookings
    booked-used i =
        omega (arith, count-insert (used_as i) db.bookings (new_booking db user_id s ttl now clock))

    booked-one_hold :
        (u : ℕ) → count (holds_user u) (booked s).bookings + count (rides_user u) db.rides ≤ 1
    booked-one_hold u = elim (Bool-cases (user_id == u)) [
      | inl self ↦
          let e = (==_iff user_id u).0 self in
          ground (
            arith,
            count-insert (holds_user u) db.bookings (new_booking db user_id s ttl now clock),
            subst (λ w. count (holds_user w) db.bookings ≡ 0) e
                (count-scalar-none (holds_user user_id) db.bookings no_booking),
            subst (λ w. count (rides_user w) db.rides ≡ 0) e
                (count-scalar-none (rides_user user_id) db.rides no_ride),
          )
      | inr other ↦ ground (
        arith,
        v.one_hold u,
        count-insert (holds_user u) db.bookings (new_booking db user_id s ttl now clock),
      )
    ]

    booked-bookings_fresh :
        (i : ℕ) → db.next_booking + 1 ≤ i → count (λ b. booking_key b == i) (booked s).bookings ≡ 0
    booked-bookings_fresh i h = ground (
      arith,
      v.bookings_fresh i (omega arith),
      count-insert (λ b. booking_key b == i) db.bookings (new_booking db user_id s ttl now clock),
    )

    pub booked-IsValid : IsValid (booked s)
    booked-IsValid = record {
      scooters_keyed =
          put-IsKeyed scooter_key (reserve s) s db.scooters v.scooters_keyed
            (get-scalar scooter_key (has_code code) db.scooters s v.scooters_keyed found);
      bookings_keyed =
          insert-IsKeyed booking_key db.bookings (new_booking db user_id s ttl now clock)
            v.bookings_keyed (v.bookings_fresh db.next_booking (omega arith));
      rides_keyed = v.rides_keyed;
      bookings_fresh = booked-bookings_fresh;
      rides_fresh = v.rides_fresh;
      reserved = booked-reserved;
      riding = λ i. omega (arith, v.riding i, booked-riding i);
      paused = λ i. omega (arith, v.paused i, booked-paused i);
      one_hold = booked-one_hold;
      used = λ i. omega (arith, v.used i, booked-used i);
      sound = v.sound;
      mailed = v.mailed;
    }

  -- On valid rows `create_booking` never ends in an uncaught exception, and it leaves valid rows.
  pub create_booking-Sane : IsValid db → Sane (create_booking user_id code ttl now clock db)
  unfolding create_booking
  create_booking-Sane v = elim (Option-cases (scalar (has_code code) db.scooters)) [
    | inl missing ↦ rw (missing, or_raise) tt
    | inr (s, found) ↦ elim (Bool-cases (is_available s.status)) [
      | inr taken ↦ rw (found, or_raise) (rw (taken, not) tt)
      | inl free ↦ elim (Option-cases (scalar (holds_user user_id) db.bookings)) [
        | inr (b, held) ↦ rw (found, or_raise) (rw (free, held) tt)
        | inl no_booking ↦ elim (Option-cases (scalar (rides_user user_id) db.rides)) [
          | inr (r, rides) ↦ rw (found, or_raise) (rw (free, no_booking, rides) tt)
          | inl no_ride ↦
              rw (found, or_raise)
                (rw (free, no_booking, no_ride)
                  (commit_booking-Sane (new_booking db user_id s ttl now clock) db (booked s)
                    (booked-IsValid v s found free no_booking no_ride)))
        ]
      ]
    ]
  ]
