-- ===== src/Simulator/Beats.antt =====
-- simulator/scootersim/fleet.py under the main loop of runner.py: a fleet loaded from the backend, then
-- statuses and ticks in any order.
use mad_devs_transport_shari.Prelude.{refl, List, [], ◌∷◌, map, All, subst, inl, inr}
use mad_devs_transport_shari.Outcome.{Outcome, ok, ◌>>=◌}
use mad_devs_transport_shari.Geo.{Point}
use mad_devs_transport_shari.Simulator.{MathOps, Ring}
use mad_devs_transport_shari.Simulator.Fleet.{
  SimScooter, Config, Fleet, StatusItem, ServerItem, refresh_statuses, build, rings, new_scooter,
  from_server,
}
use mad_devs_transport_shari.Simulator.Moves.{tick}
use mad_devs_transport_shari.Simulator.Ready.{
  FleetLaws, IsReady, AreReady, TickReady, Outcome-cases,
}
use mad_devs_transport_shari.Simulator.Dispatch.{refresh_statuses-AreReady, tick-AreReady}

-- What the main loop does to the fleet.
pub data Beat (F : Type 0) : Type 0 where
  refreshes : (payload : List StatusItem) (now : F) → Beat F
  ticks : (dt now : F) → Beat F

module _ {F G : Type 0} (m : MathOps F G) (c : Config F) where
  -- The reports of the last tick, and the fleet.
  unfoldable pub play :
      List (Beat F) → List (SimScooter F) × Fleet F G → Outcome (List (SimScooter F) × Fleet F G)
  play [] (due, fleet) = ok (due, fleet)
  play (refreshes payload now ∷ beats) (due, fleet) =
      play beats (due, refresh_statuses m c payload now fleet)
  play (ticks dt now ∷ beats) (due, fleet) = tick m c dt now fleet >>= λ r. play beats r

  new_fleet-AreReady : (payload : List (ServerItem F)) → All (IsReady m) (map new_scooter payload)
  new_fleet-AreReady [] = tt
  new_fleet-AreReady (i ∷ payload) = (refl, new_fleet-AreReady payload)

  build-AreReady :
      (ss : List (SimScooter F)) (rng : G) (zones : List (Ring F))
      → All (IsReady m) ss
      → AreReady m (build m c ss rng zones)
  unfolding build
  build-AreReady ss rng [] h = h
  build-AreReady ss rng (zone ∷ zones) h = h

  module _ (laws : FleetLaws m c) where
    play-AreReady :
        (beats : List (Beat F)) (due : List (SimScooter F)) (fleet : Fleet F G)
        → AreReady m fleet
        → TickReady m (play beats (due, fleet))
    unfolding play
    play-AreReady [] due fleet h = h
    play-AreReady (refreshes payload now ∷ beats) due fleet h =
        play-AreReady beats due (refresh_statuses m c payload now fleet)
          (refresh_statuses-AreReady m c laws payload now fleet h)
    play-AreReady (ticks dt now ∷ beats) due fleet h =
        let kept = tick-AreReady m c laws dt now fleet h in
        elim (Outcome-cases (tick m c dt now fleet)) [
          | inr (e, failed) ↦ absurd (subst (TickReady m) failed kept)
          | inl ((due', fleet'), went) ↦
              rw went (play-AreReady beats due' fleet' (subst (TickReady m) went kept))
        ]

    pub from_server-AreReady :
        (payload : List (ServerItem F)) (rng : G) (now : F) (zones : List (List (Point F)))
        → AreReady m (from_server m c payload rng now zones)
    unfolding from_server
    from_server-AreReady payload rng now zones =
        refresh_statuses-AreReady m c laws (map (λ i. i.item) payload) now
          (build m c (map new_scooter payload) rng (rings zones))
          (build-AreReady (map new_scooter payload) rng (rings zones) (new_fleet-AreReady payload))

    -- A fleet loaded from the backend never fails: if charges are not NaN, SIM_MIN_RIDE_BATTERY is
    -- above 0 and a sample holds members of the population, then after any reports and ticks, whatever the
    -- reports say, the tick has answered, no `assert` has failed, and every scooter on the move
    -- has a target and some charge.
    pub fleet_never_fails :
        (payload : List (ServerItem F)) (rng : G) (now : F) (zones : List (List (Point F)))
        (beats : List (Beat F))
        → TickReady m (play beats ([], from_server m c payload rng now zones))
    fleet_never_fails payload rng now zones beats =
        play-AreReady beats [] (from_server m c payload rng now zones)
          (from_server-AreReady payload rng now zones)
