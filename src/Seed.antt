-- ===== src/Seed.antt =====
-- backend/app/seed.py, `seed_scooters`: the demo fleet, inserted into an empty table. The rows of
-- SEED_SCOOTERS are an argument; the sequence of a new table begins at 1.
use mad_devs_transport_shari.Prelude.{ℕ, suc, false, List, [], ◌∷◌, length}
use mad_devs_transport_shari.Text.{String}
use mad_devs_transport_shari.Models.{Db, Scooter}
use mad_devs_transport_shari.Models.Status.{ScooterStatus}
use mad_devs_transport_shari.Scooters.{status_after_telemetry}

pub record SeedRow (F : Type 0) : Type 0 where
  pub code : String
  pub lat : F
  pub lon : F
  pub battery : ℕ

module _ {F : Type 0} where
  unfoldable pub seeded : ℕ → ℕ → List (SeedRow F) → List (Scooter F)
  seeded threshold next [] = []
  seeded threshold next (row ∷ rows) =
      record {
        id = next;
        code = row.code;
        lat = row.lat;
        lon = row.lon;
        battery = row.battery;
        status = status_after_telemetry ScooterStatus.available row.battery threshold;
        paused = false;
      }
      ∷ seeded threshold (suc next) rows

  -- The number of rows inserted: none into a table that has rows.
  unfoldable pub seed_scooters : ℕ → List (SeedRow F) → Db F → ℕ × Db F
  seed_scooters threshold rows db = elim db.scooters [
    | [] ↦ (length rows, record db { scooters = seeded threshold 1 rows })
    | s ∷ rest ↦ (0, db)
  ]
