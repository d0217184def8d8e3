-- ===== src/Sweeper/Lasting.antt =====
-- backend/app/services/booking_sweeper.py: what the rounds of the sweeper leave, whichever of them fail.
use mad_devs_transport_shari.Prelude.{
  ℕ, ◌≤◌, ◌≡◌, refl, sym, ◌∙◌, ap, Bool, true, false, List, [], ◌∷◌, ◌++◌, length, arith, filter_by,
}
use mad_devs_transport_shari.Table.{count, put}
use mad_devs_transport_shari.Models.{Db, Booking}
use mad_devs_transport_shari.Database.{booking_key}
use mad_devs_transport_shari.Database.Invariant.{IsValid}
use mad_devs_transport_shari.Sweeper.{
  is_overdue, expired_at, expire_one, expire_loop, expire_overdue, warn_row, warn_expiring,
  sweep_bookings,
}
use mad_devs_transport_shari.Sweeper.Keeps.{
  warn_count, expire_overdue-IsValid, sweep_bookings-IsValid,
}
use mad_devs_transport_shari.Sweeper.Once.{
  expire_one-bookings, count-length, length-zero, expire_overdue_all,
}
use mad_devs_transport_shari.Sweeper.Loop.{
  Failure, before_expiry, before_warning, while_sending, nowhere, Round, has_expired, sweep_until,
  sweep_round, run_booking_sweeper,
}

-- How many bookings are overdue at the instant `n`.
abbrev overdue : {F : Type 0} → ℕ → Db F → ℕ
overdue n db = count (is_overdue n) db.bookings

put-overdue :
    (n now : ℕ) (b : Booking) (bs : List Booking)
    → count (is_overdue n) (put booking_key (expired_at now b) bs) ≤ count (is_overdue n) bs
unfolding put count
put-overdue n now b [] = omega arith
put-overdue n now b (c ∷ bs) = ground (arith, put-overdue n now b bs)

module _ {F : Type 0} (n : ℕ) where
  expire_loop-overdue :
      (now threshold : ℕ) (bs : List Booking) (db : Db F)
      → overdue n (expire_loop now threshold bs db) ≤ overdue n db
  unfolding expire_loop
  expire_loop-overdue now threshold [] db = omega arith
  expire_loop-overdue now threshold (b ∷ rest) db =
      let next = expire_one now threshold b db in
      let same : overdue n next
          ≡ count (is_overdue n) (put booking_key (expired_at now b) db.bookings) =
        ap (count (is_overdue n)) (expire_one-bookings now threshold b db) in
      omega
        (arith, expire_loop-overdue now threshold rest next, same, put-overdue n now b db.bookings)

  expire_overdue-overdue :
      (locked : ℕ → Bool) (now threshold : ℕ) (db : Db F)
      → overdue n (expire_overdue locked now threshold db).1 ≤ overdue n db
  unfolding expire_overdue
  expire_overdue-overdue locked now threshold db = expire_loop-overdue now threshold _ db

  sweep_bookings-overdue :
      (locked : ℕ → Bool) (now warn_before threshold : ℕ) (db : Db F)
      → overdue n (sweep_bookings locked now warn_before threshold db).1
        ≡ overdue n (expire_overdue locked now threshold db).1
  unfolding sweep_bookings warn_expiring warn_row
  sweep_bookings-overdue locked now warn_before threshold db =
      warn_count now warn_before (is_overdue n) (λ b. ground arith)
        (expire_overdue locked now threshold db).1.bookings

module _ {F : Type 0} (warn_before threshold : ℕ) where
  sweep_until-IsValid :
      (failure : Failure) (locked : ℕ → Bool) (now : ℕ) (db : Db F)
      → IsValid db
      → IsValid (sweep_until warn_before threshold failure locked now db)
  unfolding sweep_until
  sweep_until-IsValid before_expiry locked now db v = v
  sweep_until-IsValid before_warning locked now db v =
      expire_overdue-IsValid db now locked threshold v
  sweep_until-IsValid while_sending locked now db v =
      sweep_bookings-IsValid locked now warn_before threshold db v
  sweep_until-IsValid nowhere locked now db v =
      sweep_bookings-IsValid locked now warn_before threshold db v

  sweep_until-overdue :
      (n : ℕ) (failure : Failure) (locked : ℕ → Bool) (now : ℕ) (db : Db F)
      → overdue n (sweep_until warn_before threshold failure locked now db) ≤ overdue n db
  unfolding sweep_until
  sweep_until-overdue n before_expiry locked now db = omega arith
  sweep_until-overdue n before_warning locked now db =
      expire_overdue-overdue n locked now threshold db
  sweep_until-overdue n while_sending locked now db = omega (
    arith,
    expire_overdue-overdue n locked now threshold db,
    sweep_bookings-overdue n locked now warn_before threshold db,
  )
  sweep_until-overdue n nowhere locked now db = omega (
    arith,
    expire_overdue-overdue n locked now threshold db,
    sweep_bookings-overdue n locked now warn_before threshold db,
  )

  -- The round that has committed the expiry, with no row locked.
  sweep_until-done :
      (failure : Failure) (locked : ℕ → Bool) (now : ℕ) (db : Db F)
      → has_expired failure ≡ true
      → overdue now (expire_overdue locked now threshold db).1 ≡ 0
      → overdue now (sweep_until warn_before threshold failure locked now db) ≡ 0
  unfolding sweep_until
  sweep_until-done before_expiry locked now db h gone = ground (arith, h)
  sweep_until-done before_warning locked now db h gone = gone
  sweep_until-done while_sending locked now db h gone =
      sweep_bookings-overdue now locked now warn_before threshold db ∙ gone
  sweep_until-done nowhere locked now db h gone =
      sweep_bookings-overdue now locked now warn_before threshold db ∙ gone

  expired_all :
      (locked : ℕ → Bool) (now : ℕ) (db : Db F)
      → IsValid db
      → ((i : ℕ) → locked i ≡ false)
      → overdue now (expire_overdue locked now threshold db).1 ≡ 0
  expired_all locked now db v free =
      sym (count-length (is_overdue now) (expire_overdue locked now threshold db).1.bookings)
      ∙ ap length (expire_overdue_all db locked now threshold v free)

  run_booking_sweeper-overdue :
      (n : ℕ) (rounds : List Round) (db : Db F)
      → overdue n (run_booking_sweeper warn_before threshold rounds db) ≤ overdue n db
  unfolding run_booking_sweeper
  run_booking_sweeper-overdue n [] db = omega arith
  run_booking_sweeper-overdue n (r ∷ rounds) db = omega (
    arith,
    run_booking_sweeper-overdue n rounds (sweep_round warn_before threshold r db),
    sweep_until-overdue n r.failure r.locked r.now db,
  )

  run_booking_sweeper-IsValid :
      (rounds : List Round) (db : Db F)
      → IsValid db
      → IsValid (run_booking_sweeper warn_before threshold rounds db)
  unfolding run_booking_sweeper
  run_booking_sweeper-IsValid [] db v = v
  run_booking_sweeper-IsValid (r ∷ rounds) db v =
      run_booking_sweeper-IsValid rounds (sweep_round warn_before threshold r db)
        (sweep_until-IsValid r.failure r.locked r.now db v)

  run-append :
      (rs qs : List Round) (db : Db F)
      → run_booking_sweeper warn_before threshold (rs ++ qs) db
        ≡ run_booking_sweeper warn_before threshold qs
            (run_booking_sweeper warn_before threshold rs db)
  unfolding run_booking_sweeper
  run-append [] qs db = refl
  run-append (r ∷ rs) qs db = run-append rs qs (sweep_round warn_before threshold r db)

  -- On valid rows that the sweeper alone changes, whichever of its rounds fail and wherever they do: once one
  -- round has committed its expiry while no other transaction held a row, no booking that was overdue at
  -- the instant of that round is active any more, at the end of any rounds that follow, and the rows are
  -- valid.
  pub run_booking_sweeper_expires :
      (rounds later : List Round) (r : Round) (db : Db F)
      → IsValid db
      → ((i : ℕ) → r.locked i ≡ false)
      → has_expired r.failure ≡ true
      → let db' = run_booking_sweeper warn_before threshold (rounds ++ r ∷ later) db in
        IsValid db' × (filter_by (is_overdue r.now) db'.bookings ≡ [])
  unfolding run_booking_sweeper
  run_booking_sweeper_expires rounds later r db v free committed =
      let start = run_booking_sweeper warn_before threshold rounds db in
      let next = sweep_round warn_before threshold r start in
      let stop = run_booking_sweeper warn_before threshold (rounds ++ r ∷ later) db in
      let same : stop ≡ run_booking_sweeper warn_before threshold later next =
        run-append rounds (r ∷ later) db in
      (
        run_booking_sweeper-IsValid (rounds ++ r ∷ later) db v,
        length-zero (filter_by (is_overdue r.now) stop.bookings) (
            omega (
              arith,
              count-length (is_overdue r.now) stop.bookings,
              ap (λ x. overdue r.now x) same,
              run_booking_sweeper-overdue r.now later next,
              sweep_until-done r.failure r.locked r.now start committed
                  (expired_all r.locked r.now start (run_booking_sweeper-IsValid rounds db v) free),
            )),
      )
