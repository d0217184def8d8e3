-- ===== src/Tests/Sample.antt =====
-- A sample system: whole numbers, in 1/10000 degree, stand for the floats of the coordinates.
use mad_devs_transport_shari.Prelude.{ℕ, ◌+◌, ◌/◌, Bool, true, false, List, [], ◌∷◌, if◌then◌else◌}
use mad_devs_transport_shari.Prelude.Int.{
  ℤ, pos, ◌+ℤ◌, ◌-ℤ◌, ◌*ℤ◌, ltb_ℤ, leb_ℤ, pos_part, neg_part, sub_ℕ,
}
use mad_devs_transport_shari.Models.{Db}
use mad_devs_transport_shari.Geo.{FloatOps, Point}
use mad_devs_transport_shari.Seed.{SeedRow, seed_scooters}
use mad_devs_transport_shari.Service.{Settings}
use mad_devs_transport_shari.Service.Runs.{empty_db}

abbrev pub div_ℤ : ℤ → ℤ → ℤ
div_ℤ a b =
    sub_ℕ (pos_part a / pos_part b + neg_part a / neg_part b)
      (pos_part a / neg_part b + neg_part a / pos_part b)

abbrev pub abs_ℤ : ℤ → ℤ
abs_ℤ a = pos (pos_part a + neg_part a)

abbrev pub eq_ℤ : ℤ → ℤ → Bool
eq_ℤ a b = if leb_ℤ a b then leb_ℤ b a else false

abbrev pub whole_numbers : FloatOps ℤ
whole_numbers = record {
  add = ◌+ℤ◌;
  sub = ◌-ℤ◌;
  mul = ◌*ℤ◌;
  div = div_ℤ;
  magnitude = abs_ℤ;
  lt = ltb_ℤ;
  le = leb_ℤ;
  eq = eq_ℤ;
  boundary_eps = pos 0;
}

abbrev pub at_point : ℕ → ℕ → Point ℤ
at_point lat lon = record { lat = pos lat; lon = pos lon }

-- BISHKEK_CENTER_ZONE of backend/app/zones.py
abbrev pub center_first : Point ℤ
center_first = at_point 428880 745900

abbrev pub center_rest : List (Point ℤ)
center_rest =
    at_point 428885 746060
    ∷ at_point 428860 746200
    ∷ at_point 428790 746225
    ∷ at_point 428700 746215
    ∷ at_point 428630 746120
    ∷ at_point 428615 745950
    ∷ at_point 428640 745800
    ∷ at_point 428730 745775
    ∷ at_point 428830 745790
    ∷ []

-- the first three rows of SEED_SCOOTERS, and one with a low battery
abbrev pub fleet_rows : List (SeedRow ℤ)
fleet_rows =
    record { code = "KG-001"; lat = pos 428756; lon = pos 746036; battery = 92 }
    ∷ record { code = "KG-002"; lat = pos 428747; lon = pos 745731; battery = 67 }
    ∷ record { code = "KG-006"; lat = pos 428746; lon = pos 745900; battery = 12 }
    ∷ []

abbrev pub sample_db : Db ℤ
sample_db = (seed_scooters 15 fleet_rows empty_db).1

-- the defaults of core/config.py, in microseconds and kopecks
abbrev pub settings : Settings ℤ
settings = record {
  low_battery_threshold = 15;
  ride_auto_finish_battery = 10;
  booking_ttl = 900000000;
  booking_warn_before = 180000000;
  tariff = record { ride_rate_per_minute = 500; pause_rate_per_minute = 150 };
  zones = (center_first ∷ center_rest) ∷ [];
  floats = whole_numbers;
  accepts = λ e. true;
}
