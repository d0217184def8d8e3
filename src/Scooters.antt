-- ===== src/Scooters.antt =====
-- backend/app/services/scooters.py: the status of a scooter, and its telemetry.
pub mod Rules
use mad_devs_transport_shari.Prelude.{
  ℕ, Bool, true, false, Option, none, some, List, [], ◌∷◌, ltb, if◌then◌else◌,
}
use mad_devs_transport_shari.Text.{String, text_eq}
use mad_devs_transport_shari.Table.{scalar}
use mad_devs_transport_shari.Models.{Db, Scooter}
use mad_devs_transport_shari.Models.Status.{ScooterStatus}
use mad_devs_transport_shari.Database.{put_scooter}

-- schemas/scooter.py
pub record TelemetryIn (F : Type 0) : Type 0 where
  pub code : String
  pub lat : F
  pub lon : F
  pub battery : ℕ

unfoldable pub release_status : ℕ → ℕ → ScooterStatus
release_status battery threshold =
    if ltb battery threshold then ScooterStatus.unavailable else ScooterStatus.available

-- `status in HELD`
abbrev pub is_held : ScooterStatus → Bool
is_held ScooterStatus.reserved = true
is_held ScooterStatus.riding = true
is_held _ = false

-- `current is ScooterStatus.UNAVAILABLE`
abbrev pub is_unavailable : ScooterStatus → Bool
is_unavailable ScooterStatus.unavailable = true
is_unavailable _ = false

unfoldable pub status_after_telemetry : ScooterStatus → ℕ → ℕ → ScooterStatus
status_after_telemetry current battery threshold =
    if is_held current
    then current
    else if ltb battery threshold
    then ScooterStatus.unavailable
    else if is_unavailable current
    then ScooterStatus.available
    else current

module _ {F : Type 0} where
  abbrev pub has_code : String → Scooter F → Bool
  has_code code s = text_eq s.code code

  -- The scooter row that the report writes.
  abbrev pub reported : TelemetryIn F → ℕ → Scooter F → Scooter F
  reported telemetry threshold s = record s {
    lat = telemetry.lat;
    lon = telemetry.lon;
    battery = telemetry.battery;
    status = status_after_telemetry s.status telemetry.battery threshold;
  }

  unfoldable pub apply_telemetry : TelemetryIn F → ℕ → Db F → Option (Scooter F) × Db F
  apply_telemetry telemetry threshold db = elim (scalar (has_code telemetry.code) db.scooters) [
    | none ↦ (none, db)
    | some s ↦ let s' = reported telemetry threshold s in (some s', put_scooter s' db)
  ]
