-- ===== src/Simulator/Stays.antt =====
-- simulator/scootersim/fleet.py, `_ride` and `tick`: where a tick moves a scooter.
use mad_devs_transport_shari.Prelude.{
  ◌+◌, ◌≡◌, refl, Bool, true, not, ◌&&◌, some, List, [], ◌∷◌, arith, Bool-cases, Option-cases, inl,
  inr, subst, if◌then◌else◌, leb,
}
use mad_devs_transport_shari.Outcome.{Outcome, ok, raise}
use mad_devs_transport_shari.Geo.{Point}
use mad_devs_transport_shari.Simulator.{MathOps, Ring, point_in_polygon, step_towards}
use mad_devs_transport_shari.Simulator.Fleet.{SimScooter, Config, spot, stop, zone_of, leaves_zone}
use mad_devs_transport_shari.Simulator.Moves.{moved, arrive, advance, tick_scooter}
use mad_devs_transport_shari.Simulator.Ready.{Phase-cases, IsReady, tick_scooter_rides}

module _ {F G : Type 0} (m : MathOps F G) where
  zone_of-inside :
      (p : Point F) (zones : List (Ring F)) (zone : Ring F)
      → zone_of m p zones ≡ some zone
      → point_in_polygon m p zone ≡ true
  unfolding zone_of
  zone_of-inside p [] zone h = cc
  zone_of-inside p (z ∷ zones) zone h = elim (Bool-cases (point_in_polygon m p z)) [
    | inl inside ↦
        let same : z ≡ zone = ground (arith, h, inside) in
        subst (λ w. point_in_polygon m p w ≡ true) same inside
    | inr outside ↦ zone_of-inside p zones zone (ground (arith, h, outside))
  ]

  module _ (c : Config F) (z : Ring F) (zs : List (Ring F)) where
    spot-arrive :
        (reached : Bool) (s : SimScooter F) (rng : G)
        → spot (arrive m c z zs reached s rng).0 ≡ spot s
    unfolding arrive stop
    spot-arrive reached s rng = ground arith

    leaves_zone-inside :
        (s : SimScooter F) (p : Point F) (zone : Ring F)
        → zone_of m (spot s) (z ∷ zs) ≡ some zone
        → leaves_zone m c z zs s p ≡ not (point_in_polygon m p zone)
    unfolding leaves_zone
    leaves_zone-inside s p zone found = rw (leaves_zone, found) refl

    advance_stays :
        (dt : F) (target : Point F) (s : SimScooter F) (rng : G) (zone : Ring F)
        → s.user_ride ≡ true
        → zone_of m (spot s) (z ∷ zs) ≡ some zone
        → point_in_polygon m (spot (advance m c z zs dt target s rng).0) zone ≡ true
    unfolding advance
    advance_stays dt target s rng zone user found =
        let new =
          step_towards m (spot s) target
            (m.floats.div (m.floats.mul c.speed_kmh dt) (m.number 3600)) in
        let leaves = leaves_zone-inside s new.0 zone found in
        elim (Bool-cases (s.user_ride && leaves_zone m c z zs s new.0)) [
          | inl turns ↦ rw turns (zone_of-inside (spot s) (z ∷ zs) zone found)
          | inr goes ↦ rw goes (
              rw (spot-arrive new.1 (moved m c z zs dt s new.0) rng)
                (ground (arith, goes, user, leaves)))
        ]

    -- The tick of a scooter has answered, with the scooter in the zone.
    abbrev pub EndsIn : Ring F → Outcome ((SimScooter F × Bool) × G) → Type 0
    EndsIn zone (ok ((s, due), rng)) = point_in_polygon m (spot s) zone ≡ true
    EndsIn zone (raise e) = ⊥

    -- After the tick of a scooter that a user rides inside a zone, it is inside the same zone: a step
    -- that would leave the zone is not taken, and an idle or a charging scooter does not move. The
    -- scooter, if it is on the move, has a target.
    pub tick_scooter_stays :
        (dt now : F) (s : SimScooter F) (rng : G) (zone : Ring F)
        → IsReady m s
        → s.user_ride ≡ true
        → zone_of m (spot s) (z ∷ zs) ≡ some zone
        → EndsIn zone (tick_scooter m c z zs dt now s rng)
    unfolding tick_scooter
    tick_scooter_stays dt now s rng zone ready user found =
        let here = zone_of-inside (spot s) (z ∷ zs) zone found in
        elim (Phase-cases s.phase) [
          | inl riding ↦ elim (Option-cases s.target) [
            | inl lost ↦ absurd (ground (arith, ready, riding, lost))
            | inr (target, e) ↦
                rw (tick_scooter_rides m c z zs dt now target s rng riding e)
                  (advance_stays dt target s rng zone user found)
          ]
          | inr (inl charging) ↦ elim (Option-cases s.charging_until) [
            | inl never ↦ rw (charging, never) here
            | inr (until, e) ↦ elim (Bool-cases (m.floats.le until now)) [
              | inl over ↦ rw (charging, e) (rw over here)
              | inr waits ↦ rw (charging, e) (rw waits here)
            ]
          ]
          | inr (inr idle) ↦
              elim (Bool-cases (
                leb (if s.parked then c.held_heartbeat_ticks else c.heartbeat_ticks)
                  (s.idle_ticks + 1))) [
                    | inl report ↦ rw idle (rw report here)
                    | inr quiet ↦ rw idle (rw quiet here)
                  ]
        ]
