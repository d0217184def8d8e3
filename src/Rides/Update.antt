-- ===== src/Rides/Update.antt =====
-- backend/app/services/rides.py: a transition of an unfinished ride writes the ride and its scooter
-- back; what it must set for the invariant to hold.
use mad_devs_transport_shari.Prelude.{
  ℕ, ◌+◌, ◌≤◌, ◌≡◌, true, false, some, ◌==◌, arith, bit, ==_refl,
}
use mad_devs_transport_shari.Table.{count}
use mad_devs_transport_shari.Table.Laws.{count-put, put-IsKeyed, get_self, key-get, All-put}
use mad_devs_transport_shari.Table.Only.{count_mono, count-only}
use mad_devs_transport_shari.Models.{Db, Scooter, Ride}
use mad_devs_transport_shari.Models.Status.{is_unfinished, is_paused, is_riding, is_reserved}
use mad_devs_transport_shari.Timeline.Phases.{IsSound}
use mad_devs_transport_shari.Database.{
  scooter_key, ride_key, put_scooter, put_ride, get_scooter, get_ride_row, holds_user, rides_user,
  rides_scooter, of_booking,
}
use mad_devs_transport_shari.Database.Invariant.{
  IsValid, reserved_as, riding_as, paused_as, pauses_scooter,
}

-- The row `r'` is the ride `r` in another state.
pub record SameRide (r r' : Ride) : Type 0 where
  pub id : r'.id ≡ r.id
  pub user_id : r'.user_id ≡ r.user_id
  pub scooter_id : r'.scooter_id ≡ r.scooter_id
  pub booking_id : r'.booking_id ≡ r.booking_id

module _ {F : Type 0} (db : Db F) (v : IsValid db) (i : ℕ) (r : Ride)
    (found : get_ride_row i db ≡ some r) (unfinished : is_unfinished r.status ≡ true)
    (s : Scooter F) (at : get_scooter r.scooter_id db ≡ some s)
    (held : is_riding s.status ≡ true) where
  own : get_ride_row (ride_key r) db ≡ some r
  own = get_self ride_key i db.rides r found

  own_scooter : get_scooter (scooter_key s) db ≡ some s
  own_scooter = get_self scooter_key r.scooter_id db.scooters s at

  one_ride : count (rides_scooter r.scooter_id) db.rides ≤ 1
  one_ride = omega (
    arith,
    v.riding r.scooter_id,
    count_mono (riding_as r.scooter_id) (λ x. scooter_key x == r.scooter_id) (λ x. ground arith)
        db.scooters,
    v.scooters_keyed r.scooter_id,
  )

  -- The scooter is marked paused exactly when its ride is.
  pub paused_agrees : bit (is_paused r.status) ≡ bit s.paused
  paused_agrees =
      let j = r.scooter_id in
      let e = key-get scooter_key j db.scooters s at in
      ground (
        arith,
        e,
        ==_refl r.scooter_id,
        v.paused j,
        count-only (pauses_scooter j) (rides_scooter j) (λ x. ground arith) ride_key r db.rides
            v.rides_keyed own (rw unfinished (==_refl r.scooter_id)) one_ride,
        count-only (paused_as j) (λ x. scooter_key x == j) (λ x. ground arith) scooter_key s
            db.scooters v.scooters_keyed own_scooter (rw e (==_refl r.scooter_id))
            (v.scooters_keyed j),
      )

  module _ (r' : Ride) (s' : Scooter F) (same : SameRide r r') (same_scooter : s'.id ≡ s.id)
      (status : is_unfinished r'.status ≡ is_riding s'.status)
      (pausing : is_paused r'.status ≡ s'.paused) (not_reserved : is_reserved s'.status ≡ false)
      (sound : IsSound r') where
    abbrev updated : Db F
    updated = put_scooter s' (put_ride r' db)

    own' : get_ride_row (ride_key r') db ≡ some r
    own' = rw same.id own

    own_scooter' : get_scooter (scooter_key s') db ≡ some s
    own_scooter' = rw same_scooter own_scooter

    updated-reserved :
        (j : ℕ) → count (reserved_as j) updated.scooters ≡ count (reserved_as j) db.scooters
    updated-reserved j = ground (
      arith,
      count-put scooter_key (reserved_as j) s' s db.scooters v.scooters_keyed own_scooter',
    )

    updated-riding :
        (j : ℕ) → count (rides_scooter j) updated.rides ≡ count (riding_as j) updated.scooters
    updated-riding j = ground (
      arith,
      v.riding j,
      same.scooter_id,
      key-get scooter_key r.scooter_id db.scooters s at,
      count-put ride_key (rides_scooter j) r' r db.rides v.rides_keyed own',
      count-put scooter_key (riding_as j) s' s db.scooters v.scooters_keyed own_scooter',
    )

    updated-paused :
        (j : ℕ) → count (pauses_scooter j) updated.rides ≡ count (paused_as j) updated.scooters
    updated-paused j = ground (
      arith,
      v.paused j,
      same.scooter_id,
      paused_agrees,
      key-get scooter_key r.scooter_id db.scooters s at,
      count-put ride_key (pauses_scooter j) r' r db.rides v.rides_keyed own',
      count-put scooter_key (paused_as j) s' s db.scooters v.scooters_keyed own_scooter',
    )

    updated-one_hold :
        (u : ℕ) → count (holds_user u) db.bookings + count (rides_user u) updated.rides ≤ 1
    updated-one_hold u = ground (
      arith,
      v.one_hold u,
      same.user_id,
      count-put ride_key (rides_user u) r' r db.rides v.rides_keyed own',
    )

    updated-used : (j : ℕ) → count (of_booking j) updated.rides ≡ count (of_booking j) db.rides
    updated-used j =
        ground (
          arith,
          same.booking_id,
          count-put ride_key (of_booking j) r' r db.rides v.rides_keyed own',
        )

    updated-rides_fresh :
        (j : ℕ) → db.next_ride ≤ j → count (λ x. ride_key x == j) updated.rides ≡ 0
    updated-rides_fresh j h = ground (
      arith,
      v.rides_fresh j h,
      same.id,
      count-put ride_key (λ x. ride_key x == j) r' r db.rides v.rides_keyed own',
    )

    -- A transition that sets the statuses of the ride and of its scooter together keeps the rows
    -- valid.
    pub update-IsValid : IsValid updated
    update-IsValid = record {
      scooters_keyed = put-IsKeyed scooter_key s' s db.scooters v.scooters_keyed own_scooter';
      bookings_keyed = v.bookings_keyed;
      rides_keyed = put-IsKeyed ride_key r' r db.rides v.rides_keyed own';
      bookings_fresh = v.bookings_fresh;
      rides_fresh = updated-rides_fresh;
      reserved = λ j. omega (arith, v.reserved j, updated-reserved j);
      riding = updated-riding;
      paused = updated-paused;
      one_hold = updated-one_hold;
      used = λ j. omega (arith, v.used j, updated-used j);
      sound = All-put IsSound ride_key r' db.rides v.sound sound;
      mailed = v.mailed;
    }
