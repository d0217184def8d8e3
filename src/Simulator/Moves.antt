-- ===== src/Simulator/Moves.antt =====
-- simulator/scootersim/fleet.py, `tick`, `_ride` and `_dispatch_rides`: the scooters on the move.
use mad_devs_transport_shari.Prelude.{
  ℕ, zero, suc, ◌+◌, ◌-◌, Bool, true, false, not, ◌&&◌, none, some, List, [], ◌∷◌, length, map, min,
  leb, if◌then◌else◌, ◌==◌, filter_by,
}
use mad_devs_transport_shari.Outcome.{Outcome, ok, fault, assertion_error, or_raise, ◌>>=◌}
use mad_devs_transport_shari.Geo.{Point}
use mad_devs_transport_shari.Simulator.{MathOps, Ring, haversine_km, step_towards, random_point}
use mad_devs_transport_shari.Simulator.Fleet.{
  Phase, is_riding, is_idle, SimScooter, Config, Fleet, spot, start_ride, stop, next_user_target,
  leaves_zone,
}

module _ {F G : Type 0} (m : MathOps F G) where
  module _ (c : Config F) (first_zone : Ring F) (more_zones : List (Ring F)) where
    -- The scooter at its new position, with the charge that is left.
    abbrev pub moved : F → SimScooter F → Point F → SimScooter F
    moved dt s position =
        let fl = m.floats in
        let way = fl.mul (haversine_km m (spot s) position) c.drain_per_km in
        let drain =
          if s.user_ride
          then fl.add way (fl.div (fl.mul c.user_ride_drain_per_minute dt) (m.number 60))
          else way in
        let left = fl.sub s.battery drain in
        record s {
          lat = position.lat;
          lon = position.lon;
          battery = if fl.lt (m.number 0) left then left else m.number 0;
        }

    -- The end of a step: an empty scooter stops, and one at its target stops or gets the next.
    unfoldable pub arrive : Bool → SimScooter F → G → SimScooter F × G
    arrive reached s rng =
        let (target, rng') = next_user_target m c first_zone more_zones s rng in
        if m.floats.le s.battery (m.number 0)
        then (stop s, rng)
        else if reached
        then (if s.user_ride then (record s { target = some target }, rng') else (stop s, rng))
        else (s, rng)

    -- A step; a user's ride turns around at the border of its zone.
    unfoldable pub advance : F → Point F → SimScooter F → G → SimScooter F × G
    advance dt target s rng =
        let step_km = m.floats.div (m.floats.mul c.speed_kmh dt) (m.number 3600) in
        let (position, reached) = step_towards m (spot s) target step_km in
        let (target', rng') = next_user_target m c first_zone more_zones s rng in
        if s.user_ride && leaves_zone m c first_zone more_zones s position
        then (record s { target = some target' }, rng')
        else arrive reached (moved dt s position) rng

    -- `_ride`
    unfoldable pub ride : F → SimScooter F → G → Outcome (SimScooter F × G)
    ride dt s rng =
        or_raise s.target (fault assertion_error) >>= λ target. ok (advance dt target s rng)

    -- The battery is charged and the scooter may ride again.
    abbrev pub recharged : SimScooter F → F → SimScooter F
    recharged s battery = record s {
      battery = battery;
      phase = Phase.idle;
      charging_until = none;
      idle_ticks = 0;
    }

    -- One round of the loop of `tick`: the scooter, and whether it must report.
    unfoldable pub tick_scooter : F → F → SimScooter F → G → Outcome ((SimScooter F × Bool) × G)
    tick_scooter dt now s rng = elim s.phase [
      | Phase.riding ↦ ride dt s rng >>= λ (s', rng'). ok ((s', true), rng')
      | Phase.charging ↦ elim s.charging_until [
        | none ↦ ok ((s, false), rng)
        | some until ↦
            let (battery, rng') = m.uniform (m.number 85) (m.number 100) rng in
            if m.floats.le until now
            then ok ((recharged s battery, true), rng')
            else ok ((s, false), rng)
      ]
      | Phase.idle ↦
          let ticks = s.idle_ticks + 1 in
          if leb (if s.parked then c.held_heartbeat_ticks else c.heartbeat_ticks) ticks
          then ok ((record s { idle_ticks = 0 }, true), rng)
          else ok ((record s { idle_ticks = ticks }, false), rng)
    ]

    -- The scooters, and those that must report.
    unfoldable pub tick_loop :
        F → F → List (SimScooter F) → G → Outcome ((List (SimScooter F) × List (SimScooter F)) × G)
    tick_loop dt now [] rng = ok (([], []), rng)
    tick_loop dt now (s ∷ rest) rng = do
      ((s', due), rng1) ← tick_scooter dt now s rng
      ((rest', reports), rng2) ← tick_loop dt now rest rng1
      ok ((s' ∷ rest', if due then s' ∷ reports else reports), rng2)

    abbrev pub is_candidate : SimScooter F → Bool
    is_candidate s =
        is_idle s.phase
        && (not s.parked && (not s.user_ride && m.floats.le c.min_ride_battery s.battery))

    -- The positions of the candidates.
    unfoldable pub candidates : List (SimScooter F) → List ℕ
    candidates [] = []
    candidates (s ∷ rest) =
        let later = map suc (candidates rest) in if is_candidate s then 0 ∷ later else later

    unfoldable pub start_at : ℕ → Point F → List (SimScooter F) → List (SimScooter F)
    start_at i target [] = []
    start_at zero target (s ∷ rest) = start_ride s target ∷ rest
    start_at (suc i) target (s ∷ rest) = s ∷ start_at i target rest

    unfoldable pub start_all : List ℕ → List (SimScooter F) → G → List (SimScooter F) × G
    start_all [] scooters rng = (scooters, rng)
    start_all (i ∷ chosen) scooters rng =
        let (target, rng') = random_point m c.bishkek_bbox rng in
        start_all chosen (start_at i target scooters) rng'

    unfoldable pub dispatch_rides : List (SimScooter F) → G → List (SimScooter F) × G
    dispatch_rides scooters rng =
        let driving = length (filter_by (λ s. is_riding s.phase && not s.user_ride) scooters) in
        let needed = c.active_scooters - driving in
        let population = candidates scooters in
        let (chosen, rng') = m.sample population (min needed (length population)) rng in
        if needed == 0 then (scooters, rng) else start_all chosen scooters rng'

  module _ (c : Config F) where
    -- The reports are copies; a ride that `_dispatch_rides` starts changes no field that is sent.
    unfoldable pub tick : F → F → Fleet F G → Outcome (List (SimScooter F) × Fleet F G)
    tick dt now fleet = do
      ((scooters, due), rng) ←
          tick_loop c fleet.first_zone fleet.more_zones dt now fleet.scooters fleet.rng
      let (scooters', rng') = dispatch_rides c fleet.first_zone fleet.more_zones scooters rng
      ok (due, record fleet { scooters = scooters'; rng = rng' })
