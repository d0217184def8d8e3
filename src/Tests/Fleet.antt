-- ===== src/Tests/Fleet.antt =====
-- The theorems on the simulator, at a fleet of two scooters in the zone of the centre of Bishkek.
-- Distances are in 1/10000 degree and the generator always gives the lower bound.
use mad_devs_transport_shari.Prelude.{
  ℕ, zero, suc, ◌≡◌, refl, true, false, List, [], ◌∷◌, none, some, All, arith,
}
use mad_devs_transport_shari.Prelude.Int.{ℤ, pos, ◌+ℤ◌, ◌-ℤ◌, ◌*ℤ◌}
use mad_devs_transport_shari.Geo.{on_segment, crosses, point_in_polygon}
use mad_devs_transport_shari.Geo.Edges.{edges, on_boundary}
use mad_devs_transport_shari.Simulator.{
  MathOps, Ring, vertices, cast_ray, point_in_polygon as sim_point_in_polygon,
}
use mad_devs_transport_shari.Simulator.Border.{point_in_polygon-agrees}
use mad_devs_transport_shari.Simulator.Fleet.{
  StatusItem, Phase, SimScooter, Config, ServerItem, zone_of, from_server,
}
use mad_devs_transport_shari.Simulator.Moves.{tick_scooter}
use mad_devs_transport_shari.Simulator.Ready.{FleetLaws, TickReady}
use mad_devs_transport_shari.Simulator.Beats.{Beat, refreshes, ticks, play, fleet_never_fails}
use mad_devs_transport_shari.Simulator.Runner.{
  answered, failing, unreachable, unknown_scooter, Round, run_rounds, started_runner,
}
use mad_devs_transport_shari.Simulator.NeverExits.{GoesOn, runner_never_exits}
use mad_devs_transport_shari.Simulator.Stays.{EndsIn, tick_scooter_stays}
use mad_devs_transport_shari.Tests.Sample.{whole_numbers, at_point, center_first, center_rest}

abbrev take_first : ℕ → List ℕ → List ℕ
take_first zero xs = []
take_first (suc n) [] = []
take_first (suc n) (x ∷ xs) = x ∷ take_first n xs

abbrev math : MathOps ℤ ℕ
math = record {
  floats = whole_numbers;
  number = λ n. pos n;
  square = λ x. x *ℤ x;
  sqrt = λ x. x;
  sin = λ x. x;
  cos = λ x. pos 1;
  asin = λ x. x;
  radians = λ x. x;
  earth_radius_km = pos 1;
  uniform = λ a b rng. (a, suc rng);
  sample = λ xs k rng. (take_first k xs, suc rng);
}

abbrev config : Config ℤ
config = record {
  active_scooters = 1;
  speed_kmh = pos 3600;
  drain_per_km = pos 1;
  user_ride_drain_per_minute = pos 1;
  recharge_seconds = pos 180;
  min_ride_battery = pos 20;
  heartbeat_ticks = 20;
  held_heartbeat_ticks = 2;
  bishkek_bbox = record {
    min_lat = pos 428550;
    max_lat = pos 428950;
    min_lon = pos 745650;
    max_lon = pos 746350;
  };
  fallback_share = pos 0;
}

All-take_first : (P : ℕ → Type 0) (k : ℕ) (xs : List ℕ) → All P xs → All P (take_first k xs)
All-take_first P zero xs h = tt
All-take_first P (suc n) [] h = tt
All-take_first P (suc n) (x ∷ xs) (hx, h) = (hx, All-take_first P n xs h)

config_laws : FleetLaws math config
config_laws = record {
  positive = λ a h. ground arith;
  enough = λ a h. ground arith;
  members = λ P xs k rng h. All-take_first P k xs h;
}

abbrev center : Ring ℤ
center = record { first = center_first; rest = center_rest }

point_in_polygon-agrees_example :
    sim_point_in_polygon math (at_point 428756 746036) center
    ≡ point_in_polygon whole_numbers (at_point 428756 746036) (vertices center)
unfolding on_boundary edges on_segment ◌-ℤ◌ ◌*ℤ◌
point_in_polygon-agrees_example =
    point_in_polygon-agrees math (at_point 428756 746036) center refl refl

abbrev answers : List (ServerItem ℤ)
answers =
    record {
      lat = pos 428756;
      lon = pos 746036;
      battery = pos 92;
      item = record { code = "KG-001"; status = "riding"; paused = false };
    }
    ∷ record {
      lat = pos 428746;
      lon = pos 745900;
      battery = pos 12;
      item = record { code = "KG-006"; status = "unavailable"; paused = false };
    }
    ∷ []

abbrev beats : List (Beat ℤ)
beats =
    ticks (pos 1) (pos 1)
    ∷ refreshes (record { code = "KG-001"; status = "available"; paused = false } ∷ []) (pos 2)
    ∷ ticks (pos 1) (pos 200)
    ∷ []

fleet_never_fails_example : TickReady math (
    play math config beats
      ([], from_server math config answers 0 (pos 0) ((center_first ∷ center_rest) ∷ [])))
fleet_never_fails_example =
    fleet_never_fails math config config_laws answers 0 (pos 0) ((center_first ∷ center_rest) ∷ [])
      beats

abbrev ridden : SimScooter ℤ
ridden = record {
  code = "KG-001";
  lat = pos 428756;
  lon = pos 746036;
  battery = pos 92;
  phase = Phase.riding;
  target = some (at_point 428747 745731);
  charging_until = none;
  idle_ticks = 0;
  parked = false;
  user_ride = true;
  user_ride_started = true;
}

tick_scooter_stays_example :
    EndsIn math config center [] center
      (tick_scooter math config center [] (pos 1000) (pos 1) ridden 0)
unfolding zone_of sim_point_in_polygon cast_ray crosses ◌+ℤ◌ ◌-ℤ◌ ◌*ℤ◌
tick_scooter_stays_example =
    tick_scooter_stays math config center [] (pos 1000) (pos 1) ridden 0 center refl refl refl

-- The backend is down, comes up, and then does not know a scooter any more.
abbrev status_ok : StatusItem
status_ok = record { code = "KG-001"; status = "riding"; paused = false }

abbrev rounds : List (Round ℤ)
rounds =
    record {
      now = pos 0;
      scooters = failing unreachable;
      zones = failing unreachable;
      reply = λ n. failing unreachable;
    }
    ∷ record {
      now = pos 2;
      scooters = answered answers;
      zones = answered ((center_first ∷ center_rest) ∷ []);
      reply = λ n. answered status_ok;
    }
    ∷ record {
      now = pos 4;
      scooters = answered answers;
      zones = answered [];
      reply = λ n. failing unknown_scooter;
    }
    ∷ []

runner_never_exits_example :
    GoesOn math (run_rounds math config (pos 1) 2 (started_runner 0) rounds)
runner_never_exits_example =
    runner_never_exits math config config_laws (pos 1) 2 0 rounds
      ((tt, tt, λ n. tt), ((tt, tt, λ n. tt), ((tt, tt, λ n. tt), tt)))
