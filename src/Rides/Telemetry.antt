-- ===== src/Rides/Telemetry.antt =====
-- backend/app/services/scooters.py, `apply_telemetry`, and rides.py, `record_telemetry`: what a
-- report keeps.
use mad_devs_transport_shari.Prelude.{
  ℕ, ◌≡◌, refl, Bool, true, some, arith, ltb, Bool-cases, Option-cases, inl, inr, subst, ◌∙◌,
}
use mad_devs_transport_shari.Table.{scalar, count}
use mad_devs_transport_shari.Table.Laws.{count-put, put-IsKeyed, get-scalar, get-put_self, key-get}
use mad_devs_transport_shari.Models.{Db, Scooter, Ride, Email, DedupKey}
use mad_devs_transport_shari.Models.Status.{
  FinishReason, ScooterStatus, is_finished, is_riding, is_reserved,
}
use mad_devs_transport_shari.Scooters.{
  TelemetryIn, has_code, apply_telemetry, reported, status_after_telemetry,
}
use mad_devs_transport_shari.Mail.{
  store_receipt, send_receipt, send_email, receipt_dedup_key, caught,
}
use mad_devs_transport_shari.Timeline.Phases.{settled}
use mad_devs_transport_shari.Database.{
  scooter_key, get_ride_row, get_scooter, put_scooter, put_ride,
}
use mad_devs_transport_shari.Database.Invariant.{IsValid, reserved_as, riding_as, paused_as}
use mad_devs_transport_shari.Database.Held.{ride_scooter}
use mad_devs_transport_shari.Database.Sane.{Sane}
use mad_devs_transport_shari.Outcome.{ok, ◌>>=◌}
use mad_devs_transport_shari.Rides.{
  FinishResult, auto_finish_ride, record_telemetry, record_report, after_auto_finish, with_receipt,
  flush_settled, unfinished_ride_id,
}
use mad_devs_transport_shari.Rides.PauseSane.{ride-IsSound}
use mad_devs_transport_shari.Rides.Finish.{
  parked, drained, explained, auto_finish_ride-finished, auto_finish_ride-running,
}
use mad_devs_transport_shari.Rides.FinishSane.{
  running, is_unfinished-not, auto_finish_ride-Sane, auto_finish_missing,
}

-- The rule neither gives nor takes a hold.
status_after_telemetry-holds :
    (current : ScooterStatus) (battery threshold : ℕ)
    → let after = status_after_telemetry current battery threshold in
      (is_reserved after ≡ is_reserved current) × (is_riding after ≡ is_riding current)
unfolding status_after_telemetry
status_after_telemetry-holds ScooterStatus.available battery threshold =
    (ground arith, ground arith)
status_after_telemetry-holds _ battery threshold = (ground arith, ground arith)

module _ {F : Type 0} (db : Db F) (v : IsValid db) (t : TelemetryIn F) (threshold : ℕ) where
  module _ (s : Scooter F) (found : scalar (has_code t.code) db.scooters ≡ some s) where
    own : get_scooter (scooter_key s) db ≡ some s
    own = get-scalar scooter_key (has_code t.code) db.scooters s v.scooters_keyed found

    abbrev moved : Db F
    moved = put_scooter (reported t threshold s) db

    moved-counts :
        (i : ℕ)
        → (count (reserved_as i) moved.scooters ≡ count (reserved_as i) db.scooters)
          × (count (riding_as i) moved.scooters ≡ count (riding_as i) db.scooters)
          × (count (paused_as i) moved.scooters ≡ count (paused_as i) db.scooters)
    moved-counts i =
        let holds = status_after_telemetry-holds s.status t.battery threshold in
        (
          ground (
            arith,
            holds,
            count-put scooter_key (reserved_as i) (reported t threshold s) s db.scooters
                v.scooters_keyed own,
          ),
          ground (
            arith,
            holds,
            count-put scooter_key (riding_as i) (reported t threshold s) s db.scooters
                v.scooters_keyed own,
          ),
          ground (
            arith,
            count-put scooter_key (paused_as i) (reported t threshold s) s db.scooters
                v.scooters_keyed own,
          ),
        )

    moved-IsValid : IsValid moved
    moved-IsValid = record {
      scooters_keyed =
          put-IsKeyed scooter_key (reported t threshold s) s db.scooters v.scooters_keyed own;
      bookings_keyed = v.bookings_keyed;
      rides_keyed = v.rides_keyed;
      bookings_fresh = v.bookings_fresh;
      rides_fresh = v.rides_fresh;
      reserved = λ i. omega (arith, v.reserved i, moved-counts i);
      riding = λ i. omega (arith, v.riding i, moved-counts i);
      paused = λ i. omega (arith, v.paused i, moved-counts i);
      one_hold = v.one_hold;
      used = v.used;
      sound = v.sound;
      mailed = v.mailed;
    }

  -- A report keeps the rows valid.
  pub apply_telemetry-IsValid : IsValid (apply_telemetry t threshold db).1
  unfolding apply_telemetry
  apply_telemetry-IsValid = elim (Option-cases (scalar (has_code t.code) db.scooters)) [
    | inl unknown ↦ rw (unknown, apply_telemetry) v
    | inr (s, found) ↦ rw (found, apply_telemetry) (moved-IsValid s found)
  ]

  record_report-Sane : Sane (ok (record_report t threshold db))
  record_report-Sane = apply_telemetry-IsValid

caught-scooters :
    {F : Type 0} (accepts : Email → Bool) (user_id : ℕ) (key : DedupKey) (db : Db F)
    → (caught db (send_email accepts user_id key db)).1.scooters ≡ db.scooters
unfolding send_email
caught-scooters accepts user_id key db = ground arith

pub with_receipt-scooters :
    {F : Type 0} (accepts : Email → Bool) (r : Ride) (now : Bool) (db : Db F)
    → (with_receipt accepts r now db).1.scooters ≡ db.scooters
unfolding with_receipt store_receipt send_receipt
with_receipt-scooters accepts r now db = caught-scooters accepts r.user_id (receipt_dedup_key r) db

pub with_receipt-ride :
    {F : Type 0} (accepts : Email → Bool) (r : Ride) (now : Bool) (db : Db F)
    → (with_receipt accepts r now db).0.ride ≡ r
unfolding with_receipt
with_receipt-ride accepts r now db = refl

module _ {F : Type 0} (t : TelemetryIn F) (threshold : ℕ) where
  after_auto_finish-some :
      (finish : FinishResult) (db : Db F) (s : Scooter F)
      → IsValid db
      → get_scooter finish.ride.scooter_id db ≡ some s
      → Sane (after_auto_finish t threshold (some finish, db))
  unfolding after_auto_finish
  after_auto_finish-some finish db s v at = rw at v

module _ {F : Type 0} (db : Db F) (v : IsValid db) (accepts : Email → Bool) (t : TelemetryIn F)
    (low_battery_threshold auto_finish_threshold now : ℕ) where
  -- The scooter of the ride that was just ended is read back.
  ended_scooter :
      (r : Ride) (r' : Ride) (s s' : Scooter F)
      → get_scooter r.scooter_id db ≡ some s
      → s'.id ≡ s.id
      → get_scooter r.scooter_id (with_receipt accepts r' true (put_scooter s' (put_ride r' db))).1
        ≡ some s'
  ended_scooter r r' s s' at same =
      let e : scooter_key s' ≡ r.scooter_id =
        same ∙ key-get scooter_key r.scooter_id db.scooters s at in
      rw (with_receipt-scooters accepts r' true (put_scooter s' (put_ride r' db))) (
        subst (λ j. get_scooter j (put_scooter s' db) ≡ some s') e
          (get-put_self scooter_key s' s db.scooters (rw e at)))

  finishing-Sane :
      (ride_id : ℕ)
      → Sane (
          auto_finish_ride accepts ride_id t.lat t.lon t.battery auto_finish_threshold now db
          >>= after_auto_finish t low_battery_threshold)
  unfolding after_auto_finish
  finishing-Sane ride_id = elim (Option-cases (get_ride_row ride_id db)) [
    | inl missing ↦
        rw
          (auto_finish_missing db v accepts ride_id t.lat t.lon t.battery auto_finish_threshold now
            missing)
          (record_report-Sane db v t low_battery_threshold)
    | inr (r, found) ↦ elim (Bool-cases (is_finished r.status)) [
      | inl done ↦
          rw
            (auto_finish_ride-finished db accepts ride_id r found t.lat t.lon t.battery
              auto_finish_threshold now done)
            (record_report-Sane db v t low_battery_threshold)
      | inr going ↦
          let (s, at, held) =
            ride_scooter db v ride_id r found (is_unfinished-not r.status going) in
          let (k, run) = running r (ride-IsSound db 0 ride_id now v r found) going in
          let r' : Ride =
            settled (explained r t.battery auto_finish_threshold) run.0 run.1 now
              FinishReason.battery in
          let s' : Scooter F = parked (drained s t.lat t.lon t.battery) ScooterStatus.unavailable in
          let e =
            auto_finish_ride-running db accepts ride_id r found t.lat t.lon t.battery
              auto_finish_threshold now going s at k run in
          rw e (
            after_auto_finish-some t low_battery_threshold (flush_settled accepts (r', s') db).0
              (flush_settled accepts (r', s') db).1 s'
              (rw e at (
                auto_finish_ride-Sane db v accepts ride_id t.lat t.lon t.battery
                  auto_finish_threshold now))
              (rw (with_receipt-ride accepts r' true (put_scooter s' (put_ride r' db)))
                (ended_scooter r r' s s' at refl)))
    ]
  ]

  -- On valid rows `record_telemetry` never ends in an uncaught exception, and it leaves valid rows.
  pub record_telemetry-Sane :
      Sane (record_telemetry accepts t low_battery_threshold auto_finish_threshold now db)
  unfolding record_telemetry
  record_telemetry-Sane = elim (Bool-cases (ltb t.battery auto_finish_threshold)) [
    | inr charged ↦ rw charged (record_report-Sane db v t low_battery_threshold)
    | inl flat ↦ elim (Option-cases (unfinished_ride_id t.code db)) [
      | inl no_ride ↦
          rw (flat, no_ride, record_telemetry) (record_report-Sane db v t low_battery_threshold)
      | inr (ride_id, rides) ↦ rw (flat, rides, record_telemetry) (finishing-Sane ride_id)
    ]
  ]
