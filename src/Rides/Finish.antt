-- ===== src/Rides/Finish.antt =====
-- backend/app/services/rides.py, `finish_ride` and `auto_finish_ride`: what they answer.
use mad_devs_transport_shari.Prelude.{ℕ, ◌≤◌, ◌≡◌, Bool, true, false, none, some, List, arith}
use mad_devs_transport_shari.Table.{count}
use mad_devs_transport_shari.Models.{Db, Scooter, Ride, Email, ride_receipt}
use mad_devs_transport_shari.Models.Status.{SegmentKind, FinishReason, ScooterStatus, is_finished}
use mad_devs_transport_shari.Geo.{FloatOps, Point, in_any_zone}
use mad_devs_transport_shari.Scooters.{release_status}
use mad_devs_transport_shari.Mail.{has_key}
use mad_devs_transport_shari.Timeline.Phases.{IsRunning, settled, settle-running}
use mad_devs_transport_shari.Database.{get_ride_row, get_scooter}
use mad_devs_transport_shari.Database.Invariant.{IsValid}
use mad_devs_transport_shari.Outcome.{ok, raise, conflict, Code}
use mad_devs_transport_shari.Rides.{
  finish_ride, auto_finish_ride, with_receipt, flush_settled, locked_scooter,
}
use mad_devs_transport_shari.Rides.Pause.{locked_ride-owner}

abbrev pub position : {F : Type 0} → Scooter F → Point F
position s = record { lat = s.lat; lon = s.lon }

-- The scooter after a finish.
abbrev pub parked : {F : Type 0} → Scooter F → ScooterStatus → Scooter F
parked s status = record s { status = status; paused = false }

-- The scooter and the ride of a flat battery before they are settled.
abbrev pub drained : {F : Type 0} → Scooter F → F → F → ℕ → Scooter F
drained s lat lon battery = record s { lat = lat; lon = lon; battery = battery }

abbrev pub explained : Ride → ℕ → ℕ → Ride
explained r battery threshold = record r {
  finish_battery = some battery;
  finish_battery_threshold = some threshold;
}

module _ {F : Type 0} (db : Db F) (accepts : Email → Bool) (i : ℕ) (r : Ride)
    (found : get_ride_row i db ≡ some r) where
  module _ (fl : FloatOps F) (user_id : ℕ) (zones : List (List (Point F))) (threshold now : ℕ)
      (owner : r.user_id ≡ user_id) where
    pub finish_ride-finished :
        is_finished r.status ≡ true
        → finish_ride fl accepts user_id i zones threshold now db
          ≡ ok (with_receipt accepts r false db)
    unfolding finish_ride
    finish_ride-finished done = ground (arith, locked_ride-owner db user_id i r found owner)

    module _ (going : is_finished r.status ≡ false) (s : Scooter F)
        (at : get_scooter r.scooter_id db ≡ some s) where
      pub finish_ride-outside :
          in_any_zone fl (position s) zones ≡ false
          → finish_ride fl accepts user_id i zones threshold now db
            ≡ raise (conflict Code.outside_service_zone)
      unfolding finish_ride locked_scooter
      finish_ride-outside outside = ground (arith, locked_ride-owner db user_id i r found owner)

      pub finish_ride-inside :
          in_any_zone fl (position s) zones ≡ true
          → (k : SegmentKind) (run : IsRunning r k)
          → finish_ride fl accepts user_id i zones threshold now db
            ≡ ok (
                flush_settled accepts
                  (
                    settled r run.0 run.1 now FinishReason.user,
                    parked s (release_status s.battery threshold),
                  )
                  db)
      unfolding finish_ride locked_scooter
      finish_ride-inside inside k run = ground (
        arith,
        locked_ride-owner db user_id i r found owner,
        settle-running r k now run s FinishReason.user (release_status s.battery threshold),
      )

  module _ (lat lon : F) (battery threshold now : ℕ) where
    pub auto_finish_ride-finished :
        is_finished r.status ≡ true
        → auto_finish_ride accepts i lat lon battery threshold now db ≡ ok (none, db)
    unfolding auto_finish_ride
    auto_finish_ride-finished done = ground arith

    pub auto_finish_ride-running :
        is_finished r.status ≡ false
        → (s : Scooter F) → get_scooter r.scooter_id db ≡ some s
        → (k : SegmentKind) (run : IsRunning (explained r battery threshold) k)
        → let (result, db') =
            flush_settled accepts
              (
                settled (explained r battery threshold) run.0 run.1 now FinishReason.battery,
                parked (drained s lat lon battery) ScooterStatus.unavailable,
              )
              db in
          auto_finish_ride accepts i lat lon battery threshold now db ≡ ok (some result, db')
    unfolding auto_finish_ride locked_scooter
    auto_finish_ride-running going s at k run = ground (
      arith,
      settle-running (explained r battery threshold) k now run (drained s lat lon battery)
          FinishReason.battery ScooterStatus.unavailable,
    )

module _ {F : Type 0} (db : Db F) (v : IsValid db) where
  -- Of the e-mails the invariant reads the dedup keys alone.
  pub emails-IsValid :
      (emails : List Email) (next : ℕ)
      → ((j : ℕ) → count (has_key (ride_receipt j)) emails ≤ 1)
      → IsValid (record db { emails = emails; next_email = next })
  emails-IsValid emails next once = record {
    scooters_keyed = v.scooters_keyed;
    bookings_keyed = v.bookings_keyed;
    rides_keyed = v.rides_keyed;
    bookings_fresh = v.bookings_fresh;
    rides_fresh = v.rides_fresh;
    reserved = v.reserved;
    riding = v.riding;
    paused = v.paused;
    one_hold = v.one_hold;
    used = v.used;
    sound = v.sound;
    mailed = once;
  }
