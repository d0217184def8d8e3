-- ===== src/Simulator/Dispatch.antt =====
-- simulator/scootersim/fleet.py, `_dispatch_rides` and `tick`: the charge of the scooters sent on a ride.
use mad_devs_transport_shari.Prelude.{
  ℕ, zero, suc, ◌≡◌, true, List, [], ◌∷◌, map, arith, All, Bool-cases, Option-cases, inl, inr, min,
  length, ◌-◌, filter_by, ◌==◌, subst, not, ◌&&◌,
}
use mad_devs_transport_shari.Geo.{Point}
use mad_devs_transport_shari.Simulator.{MathOps, Ring, random_point}
use mad_devs_transport_shari.Simulator.Fleet.{
  SimScooter, Config, Fleet, StatusItem, is_riding, apply_by_code, apply_server_status,
  refresh_statuses,
}
use mad_devs_transport_shari.Simulator.Moves.{
  candidates, is_candidate, start_at, start_all, dispatch_rides, tick_loop, tick,
}
use mad_devs_transport_shari.Simulator.Ready.{
  FleetLaws, IsReady, AreReady, TickReady, LoopReady, FoundReady, Outcome-cases, tick_loop-IsReady,
  apply_by_code-IsReady,
}

All-map-suc : (P : ℕ → Type 0) (xs : List ℕ) → All (λ i. P (suc i)) xs → All P (map suc xs)
All-map-suc P [] h = tt
All-map-suc P (x ∷ xs) (hx, h) = (hx, All-map-suc P xs h)

module _ {F G : Type 0} (m : MathOps F G) where
  -- The scooter at a position, if there is one, has some charge.
  abbrev Charged : List (SimScooter F) → ℕ → Type 0
  Charged [] i = Unit
  Charged (s ∷ rest) zero = m.floats.lt (m.number 0) s.battery ≡ true
  Charged (s ∷ rest) (suc i) = Charged rest i

  module _ (c : Config F) (z : Ring F) (zs : List (Ring F)) where
    start_at-IsReady :
        (i : ℕ) (target : Point F) (ss : List (SimScooter F))
        → Charged ss i
        → All (IsReady m) ss
        → All (IsReady m) (start_at m c z zs i target ss)
    unfolding start_at
    start_at-IsReady i target [] hi h = tt
    start_at-IsReady zero target (s ∷ rest) hi (hs, h) = (hi, h)
    start_at-IsReady (suc i) target (s ∷ rest) hi (hs, h) =
        (hs, start_at-IsReady i target rest hi h)

    start_at-Charged :
        (i : ℕ) (target : Point F) (ss : List (SimScooter F)) (j : ℕ)
        → Charged ss j
        → Charged (start_at m c z zs i target ss) j
    unfolding start_at
    start_at-Charged i target [] j h = tt
    start_at-Charged zero target (s ∷ rest) zero h = h
    start_at-Charged zero target (s ∷ rest) (suc j) h = h
    start_at-Charged (suc i) target (s ∷ rest) zero h = h
    start_at-Charged (suc i) target (s ∷ rest) (suc j) h = start_at-Charged i target rest j h

    start_at-All :
        (i : ℕ) (target : Point F) (ss : List (SimScooter F)) (xs : List ℕ)
        → All (Charged ss) xs
        → All (Charged (start_at m c z zs i target ss)) xs
    start_at-All i target ss [] h = tt
    start_at-All i target ss (x ∷ xs) (hx, h) =
        (start_at-Charged i target ss x hx, start_at-All i target ss xs h)

    start_all-IsReady :
        (chosen : List ℕ) (ss : List (SimScooter F)) (rng : G)
        → All (Charged ss) chosen
        → All (IsReady m) ss
        → All (IsReady m) (start_all m c z zs chosen ss rng).0
    unfolding start_all
    start_all-IsReady [] ss rng hc h = h
    start_all-IsReady (i ∷ chosen) ss rng (hi, hc) h =
        let (target, rng') = random_point m c.bishkek_bbox rng in
        start_all-IsReady chosen (start_at m c z zs i target ss) rng'
          (start_at-All i target ss chosen hc) (start_at-IsReady i target ss hi h)

    module _ (laws : FleetLaws m c) where
      candidates-Charged : (ss : List (SimScooter F)) → All (Charged ss) (candidates m c z zs ss)
      unfolding candidates
      candidates-Charged [] = tt
      candidates-Charged (s ∷ rest) =
          let later =
            All-map-suc (Charged (s ∷ rest)) (candidates m c z zs rest) (candidates-Charged rest) in
          elim (Bool-cases (is_candidate m c z zs s)) [
            | inl fit ↦ rw fit (laws.enough s.battery (ground (arith, fit)), later)
            | inr unfit ↦ rw unfit later
          ]

      dispatch_rides-IsReady :
          (ss : List (SimScooter F)) (rng : G)
          → All (IsReady m) ss
          → All (IsReady m) (dispatch_rides m c z zs ss rng).0
      unfolding dispatch_rides
      dispatch_rides-IsReady ss rng h =
          let driving = length (filter_by (λ s. is_riding s.phase && not s.user_ride) ss) in
          let population = candidates m c z zs ss in
          let needed = c.active_scooters - driving in
          let k = min needed (length population) in
          elim (Bool-cases (needed == 0)) [
            | inl enough ↦ rw enough h
            | inr more ↦ rw more (
                start_all-IsReady (m.sample population k rng).0 ss (m.sample population k rng).1
                  (laws.members (Charged ss) population k rng (candidates-Charged ss)) h)
          ]

  module _ (c : Config F) (laws : FleetLaws m c) where
    pub apply_server_status-AreReady :
        (item : StatusItem) (now : F) (fleet : Fleet F G)
        → AreReady m fleet
        → AreReady m (apply_server_status m c item now fleet)
    unfolding apply_server_status
    apply_server_status-AreReady item now fleet h =
        let z = fleet.first_zone in
        let zs = fleet.more_zones in
        let kept = apply_by_code-IsReady m c z zs item now fleet.scooters fleet.rng h in
        elim (Option-cases
          (apply_by_code m c z zs item.status now item.paused item.code fleet.scooters fleet.rng)) [
            | inl missing ↦ rw (apply_server_status, missing) h
            | inr ((ss, rng), found) ↦
                rw (apply_server_status, found) (subst (FoundReady m) found kept)
          ]

    pub refresh_statuses-AreReady :
        (payload : List StatusItem) (now : F) (fleet : Fleet F G)
        → AreReady m fleet
        → AreReady m (refresh_statuses m c payload now fleet)
    unfolding refresh_statuses
    refresh_statuses-AreReady [] now fleet h = h
    refresh_statuses-AreReady (item ∷ payload) now fleet h =
        refresh_statuses-AreReady payload now (apply_server_status m c item now fleet)
          (apply_server_status-AreReady item now fleet h)

    pub tick-AreReady :
        (dt now : F) (fleet : Fleet F G) → AreReady m fleet → TickReady m (tick m c dt now fleet)
    unfolding tick
    tick-AreReady dt now fleet h =
        let z = fleet.first_zone in
        let zs = fleet.more_zones in
        let kept = tick_loop-IsReady m c z zs laws dt now fleet.scooters fleet.rng h in
        elim (Outcome-cases (tick_loop m c z zs dt now fleet.scooters fleet.rng)) [
          | inr (e, failed) ↦ absurd (subst (LoopReady m) failed kept)
          | inl (((ss, due), rng), went) ↦
              rw went (dispatch_rides-IsReady c z zs laws ss rng (subst (LoopReady m) went kept))
        ]
