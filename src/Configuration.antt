-- ===== src/Configuration.antt =====
-- backend/app/core/config.py, `auto_finish_below_low_battery`: the validator of the two battery thresholds.
use mad_devs_transport_shari.Prelude.{ℕ, ◌≡◌, true, ltb, arith, if◌then◌else◌}
use mad_devs_transport_shari.Models.Status.{ScooterStatus}
use mad_devs_transport_shari.Outcome.{Outcome, ok, raise, fault, value_error}
use mad_devs_transport_shari.Scooters.{status_after_telemetry}

pub record Thresholds : Type 0 where
  pub low_battery_threshold : ℕ
  pub ride_auto_finish_battery : ℕ

unfoldable pub auto_finish_below_low_battery : Thresholds → Outcome Thresholds
auto_finish_below_low_battery t =
    if ltb t.low_battery_threshold t.ride_auto_finish_battery
    then raise (fault value_error)
    else ok t

-- With thresholds that the validator lets through, a scooter that is unavailable, as one is whose ride
-- a flat battery has ended, stays so at every report of a charge at which a ride would be ended.
pub flat_scooter_stays :
    (t : Thresholds) (battery : ℕ)
    → auto_finish_below_low_battery t ≡ ok t
    → ltb battery t.ride_auto_finish_battery ≡ true
    → status_after_telemetry ScooterStatus.unavailable battery t.low_battery_threshold
      ≡ ScooterStatus.unavailable
unfolding auto_finish_below_low_battery status_after_telemetry
flat_scooter_stays t battery valid flat = ground (arith, valid, flat)
