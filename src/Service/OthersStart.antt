-- ===== src/Service/OthersStart.antt =====
-- backend/app/services/rides.py, start_ride: the rows of the other users.
use mad_devs_transport_shari.Prelude.{
  ℕ, ◌≡◌, refl, not, ◌||◌, Option, none, some, ◌==◌, leb, ltb, Bool-cases, Option-cases, inl, inr,
  ==_iff, is_some,
}
use mad_devs_transport_shari.Table.{scalar}
use mad_devs_transport_shari.Models.{Db, Booking, Ride}
use mad_devs_transport_shari.Models.Status.{is_active, is_used, is_unfinished}
use mad_devs_transport_shari.Database.{
  ride_key, booking_key, get_booking, rides_user, rides_scooter, of_booking,
}
use mad_devs_transport_shari.Database.Invariant.{IsValid}
use mad_devs_transport_shari.Database.Held.{booking_scooter}
use mad_devs_transport_shari.Outcome.{or_raise}
use mad_devs_transport_shari.Rides.{
  Tariff, start_ride, start_unused, restart, locked_scooter, commit_ride,
}
use mad_devs_transport_shari.Rides.NewRide.{new_ride, use_up, started}
use mad_devs_transport_shari.Service.Others.{
  put-KeepsOthers, insert-KeepsOthers, ride_owner, booking_owner, LeavesOthers, Private,
  LeavesOthers-refl,
}

pub restart-Private :
    {F : Type 0} (u : ℕ) (db : Db F) (o : Option Ride) → Private u db (restart o db)
unfolding restart
restart-Private u db none = tt
restart-Private u db (some r) = elim (Bool-cases (is_unfinished r.status)) [
  | inl going ↦ rw going (LeavesOthers-refl u db)
  | inr over ↦ rw over tt
]

pub commit_ride-Private :
    {F : Type 0} (u : ℕ) (r : Ride) (before db : Db F)
    → LeavesOthers u before db
    → Private u before (commit_ride r before db)
unfolding commit_ride
commit_ride-Private u r before db h =
    elim (Bool-cases (
      is_some (scalar (of_booking r.booking_id) before.rides)
      || (is_some (scalar (rides_user r.user_id) before.rides)
          || is_some (scalar (rides_scooter r.scooter_id) before.rides)))) [
            | inl taken ↦ rw taken tt
            | inr free ↦ rw free h
          ]

module _ {F : Type 0} (db : Db F) (v : IsValid db) (u i : ℕ) (tariff : Tariff)
    (now threshold : ℕ) where
  pub start_unused-Private :
      (b : Booking)
      → get_booking i db ≡ some b
      → b.user_id ≡ u
      → Private u db (start_unused u b tariff now threshold db)
  unfolding start_unused locked_scooter
  start_unused-Private b found owner = elim (Bool-cases (is_active b.status)) [
    | inr over ↦ rw over tt
    | inl active ↦ elim (Bool-cases (leb b.expires_at now)) [
      | inl late ↦ rw (active, late) tt
      | inr in_time ↦ elim (Option-cases (scalar (rides_user u) db.rides)) [
        | inr (r, rides) ↦ rw (active, in_time, rides) tt
        | inl no_ride ↦
            let (s, at, reserved) = booking_scooter db v i b found active in
            elim (Bool-cases (ltb s.battery threshold)) [
              | inl low ↦ rw (active, in_time, no_ride, at) (rw (reserved, low) tt)
              | inr charged ↦
                  rw (active, in_time, no_ride, at)
                    (rw (reserved, charged)
                      (commit_ride-Private u (new_ride db u b s tariff now) db
                        (started db u i tariff now threshold b s)
                        (
                          insert-KeepsOthers ride_key ride_owner u (new_ride db u b s tariff now)
                              db.rides,
                          put-KeepsOthers booking_key booking_owner u i (use_up b) b db.bookings
                              found owner refl,
                        )))
            ]
      ]
    ]
  ]

  pub start_ride-Private : Private u db (start_ride u i tariff now threshold db)
  unfolding start_ride
  start_ride-Private = elim (Option-cases (get_booking i db)) [
    | inl missing ↦ rw (missing, or_raise) tt
    | inr (b, found) ↦ elim (Bool-cases (b.user_id == u)) [
      | inr stranger ↦ rw (found, or_raise) (rw (stranger, not) tt)
      | inl owner ↦ elim (Bool-cases (is_used b.status)) [
        | inr unused ↦
            rw (found, or_raise)
              (rw (owner, unused) (start_unused-Private b found ((==_iff b.user_id u).0 owner)))
        | inl used ↦
            rw (found, or_raise)
              (rw (owner, used) (restart-Private u db (scalar (of_booking i) db.rides)))
      ]
    ]
  ]
