-- ===== src/Rides/Start.antt =====
-- backend/app/services/rides.py, `start_ride`: the invariant on every branch.
use mad_devs_transport_shari.Prelude.{
  ℕ, ◌≡◌, not, ◌||◌, Option, none, some, ◌==◌, leb, ltb, Bool-cases, Option-cases, inl, inr, ==_iff,
  is_some,
}
use mad_devs_transport_shari.Table.{scalar}
use mad_devs_transport_shari.Models.{Db, Booking, Ride}
use mad_devs_transport_shari.Models.Status.{is_active, is_used, is_unfinished}
use mad_devs_transport_shari.Database.{get_booking, rides_user, rides_scooter, of_booking}
use mad_devs_transport_shari.Database.Invariant.{IsValid}
use mad_devs_transport_shari.Database.Sane.{Sane}
use mad_devs_transport_shari.Database.Held.{booking_scooter}
use mad_devs_transport_shari.Outcome.{or_raise}
use mad_devs_transport_shari.Rides.{
  Tariff, start_ride, start_unused, restart, locked_scooter, commit_ride,
}
use mad_devs_transport_shari.Rides.NewRide.{new_ride, started, started-IsValid}

restart-Sane : {F : Type 0} (db : Db F) → IsValid db → (o : Option Ride) → Sane (restart o db)
unfolding restart
restart-Sane db v none = tt
restart-Sane db v (some r) = elim (Bool-cases (is_unfinished r.status)) [
  | inl going ↦ rw going v
  | inr over ↦ rw over tt
]

commit_ride-Sane :
    {F : Type 0} (r : Ride) (before db : Db F) → IsValid db → Sane (commit_ride r before db)
unfolding commit_ride
commit_ride-Sane r before db v =
    elim (Bool-cases (
      is_some (scalar (of_booking r.booking_id) before.rides)
      || (is_some (scalar (rides_user r.user_id) before.rides)
          || is_some (scalar (rides_scooter r.scooter_id) before.rides)))) [
            | inl taken ↦ rw taken tt
            | inr free ↦ rw free v
          ]

module _ {F : Type 0} (db : Db F) (user_id booking_id : ℕ) (tariff : Tariff)
    (now threshold : ℕ) where
  start_unused-Sane :
      (v : IsValid db) (b : Booking)
      → get_booking booking_id db ≡ some b
      → b.user_id ≡ user_id
      → Sane (start_unused user_id b tariff now threshold db)
  unfolding start_unused locked_scooter
  start_unused-Sane v b found owner = elim (Bool-cases (is_active b.status)) [
    | inr over ↦ rw over tt
    | inl active ↦ elim (Bool-cases (leb b.expires_at now)) [
      | inl late ↦ rw (active, late) tt
      | inr in_time ↦ elim (Option-cases (scalar (rides_user user_id) db.rides)) [
        | inr (r, rides) ↦ rw (active, in_time, rides) tt
        | inl no_ride ↦
            let (s, at, reserved) = booking_scooter db v booking_id b found active in
            elim (Bool-cases (ltb s.battery threshold)) [
              | inl low ↦ rw (active, in_time, no_ride, at) (rw (reserved, low) tt)
              | inr charged ↦
                  rw (active, in_time, no_ride, at)
                    (rw (reserved, charged)
                      (commit_ride-Sane (new_ride db user_id b s tariff now) db
                        (started db user_id booking_id tariff now threshold b s)
                        (started-IsValid db user_id booking_id tariff now threshold v b s found
                          owner active no_ride at reserved)))
            ]
      ]
    ]
  ]

  -- On valid rows `start_ride` never ends in an uncaught exception, and it leaves valid rows.
  pub start_ride-Sane : IsValid db → Sane (start_ride user_id booking_id tariff now threshold db)
  unfolding start_ride
  start_ride-Sane v = elim (Option-cases (get_booking booking_id db)) [
    | inl missing ↦ rw (missing, or_raise) tt
    | inr (b, found) ↦ elim (Bool-cases (b.user_id == user_id)) [
      | inr stranger ↦ rw (found, or_raise) (rw (stranger, not) tt)
      | inl owner ↦ elim (Bool-cases (is_used b.status)) [
        | inr unused ↦
            rw (found, or_raise)
              (rw (owner, unused)
                (start_unused-Sane v b found ((==_iff b.user_id user_id).0 owner)))
        | inl again ↦
            rw (found, or_raise)
              (rw (owner, again) (restart-Sane db v (scalar (of_booking booking_id) db.rides)))
      ]
    ]
  ]
