-- ===== src/Scooters/Rules.antt =====
-- backend/app/services/scooters.py, `status_after_telemetry` and `release_status`.
use mad_devs_transport_shari.Prelude.{ℕ, ◌≡◌, if◌then◌else◌, arith}
use mad_devs_transport_shari.Models.Status.{ScooterStatus}
use mad_devs_transport_shari.Scooters.{release_status, status_after_telemetry, is_held}

-- The telemetry rule on every branch: a held scooter keeps its status; any other is unavailable
-- exactly when the battery is below the threshold, and available otherwise, which is what
-- releasing it would give.
status_after_telemetry_rule :
    (current : ScooterStatus) (battery threshold : ℕ)
    → status_after_telemetry current battery threshold
      ≡ (if is_held current then current else release_status battery threshold)
unfolding status_after_telemetry release_status
status_after_telemetry_rule ScooterStatus.available battery threshold = ground arith
status_after_telemetry_rule _ battery threshold = ground arith

-- Reporting the same battery twice gives what reporting it once gives.
status_after_telemetry_twice :
    (current : ScooterStatus) (battery threshold : ℕ)
    → status_after_telemetry (status_after_telemetry current battery threshold) battery threshold
      ≡ status_after_telemetry current battery threshold
unfolding status_after_telemetry
status_after_telemetry_twice ScooterStatus.available battery threshold = ground arith
status_after_telemetry_twice _ battery threshold = ground arith
