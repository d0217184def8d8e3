-- ===== src/Simulator/NeverExits.antt =====
-- simulator/scootersim/runner.py, `run`: the loop under every behaviour of the backend that the loop is made for.
use mad_devs_transport_shari.Prelude.{
  All, ℕ, suc, ◌+◌, ◌%◌, ◌≤◌, ◌≡◌, refl, ◌&&◌, Option, none, some, List, [], ◌∷◌, map, ltb, ◌==◌,
  arith, subst, inl, inr, ◌⊎◌, Bool-cases, Option-cases,
}
use mad_devs_transport_shari.Outcome.{Outcome, ok, raise}
use mad_devs_transport_shari.Simulator.{MathOps}
use mad_devs_transport_shari.Simulator.Fleet.{
  SimScooter, Config, Fleet, StatusItem, apply_server_status, refresh_statuses, from_server,
}
use mad_devs_transport_shari.Simulator.Moves.{tick}
use mad_devs_transport_shari.Simulator.Ready.{FleetLaws, AreReady, TickReady, Outcome-cases}
use mad_devs_transport_shari.Simulator.Dispatch.{
  apply_server_status-AreReady, refresh_statuses-AreReady, tick-AreReady,
}
use mad_devs_transport_shari.Simulator.Beats.{from_server-AreReady}
use mad_devs_transport_shari.Simulator.Runner.{
  Failure, unknown_scooter, refused, unreachable, Call, answered, failing, undecodable, malformed,
  Round, Runner, backed_off, end_round, send_all, serve_fleet, load_fleet, refresh_fleet, run_round,
  run_rounds, started_runner,
}

-- The loop can read it, or catches the failure.
abbrev pub IsReadable : {A : Type 0} → Call A → Type 0
IsReadable (answered a) = Unit
IsReadable (failing f) = Unit
IsReadable undecodable = ⊥
IsReadable (malformed e) = ⊥

abbrev pub RoundIsReadable : {F : Type 0} → Round F → Type 0
RoundIsReadable round =
    IsReadable round.scooters × IsReadable round.zones × ((n : ℕ) → IsReadable (round.reply n))

Call-cases :
    {A : Type 0} (call : Call A)
    → IsReadable call
    → ((a : A) × (call ≡ answered a)) ⊎ ((f : Failure) × (call ≡ failing f))
Call-cases (answered a) h = inl (a, refl)
Call-cases (failing f) h = inr (f, refl)
Call-cases undecodable h = absurd h
Call-cases (malformed e) h = absurd h

module _ {F G : Type 0} (m : MathOps F G) where
  abbrev pub IsLoaded : Option (Fleet F G) → Type 0
  IsLoaded none = Unit
  IsLoaded (some fleet) = AreReady m fleet

  -- The backoff is between 1 and 30 seconds, and the fleet, if there is one, is ready.
  abbrev pub IsGoing : Runner F G → Type 0
  IsGoing r = (1 ≤ r.backoff) × (r.backoff ≤ 30) × IsLoaded r.fleet

  -- The reports of a round have come to their end, or to a failure that is caught.
  abbrev HasSent : Outcome (Fleet F G × Option Failure) → Type 0
  HasSent (ok (fleet, f)) = AreReady m fleet
  HasSent (raise e) = ⊥

  -- The loop has come to the end of its rounds.
  abbrev pub GoesOn : Outcome (Runner F G) → Type 0
  GoesOn (ok r) = IsGoing r
  GoesOn (raise e) = ⊥

  backed_off-IsGoing : (r : Runner F G) → IsGoing r → IsGoing (backed_off r)
  backed_off-IsGoing r (low, high, loaded) = (omega arith, omega arith, loaded)

  end_round-IsGoing :
      (r : Runner F G) (fleet : Fleet F G) (f : Option Failure)
      → IsGoing r
      → AreReady m fleet
      → IsGoing (end_round r (fleet, f))
  unfolding end_round
  end_round-IsGoing r fleet none h ready = (omega arith, omega arith, ready)
  end_round-IsGoing r fleet (some unknown_scooter) (low, high, loaded) ready =
      (omega arith, omega arith, tt)
  end_round-IsGoing r fleet (some refused) (low, high, loaded) ready =
      (omega arith, omega arith, ready)
  end_round-IsGoing r fleet (some unreachable) (low, high, loaded) ready =
      (omega arith, omega arith, ready)

  module _ (c : Config F) (laws : FleetLaws m c) (interval : F) (every : ℕ) where
    send_all-AreReady :
        (reply : ℕ → Call StatusItem) (n : ℕ) (due : List (SimScooter F)) (now : F)
        (fleet : Fleet F G)
        → ((n : ℕ) → IsReadable (reply n))
        → AreReady m fleet
        → HasSent (send_all m c interval every reply n due now fleet)
    unfolding send_all
    send_all-AreReady reply n [] now fleet readable h = h
    send_all-AreReady reply n (s ∷ due) now fleet readable h =
        elim (Call-cases (reply n) (readable n)) [
          | inr (f, failed) ↦ rw (send_all, failed) h
          | inl (state, got) ↦
              rw (send_all, got)
                (send_all-AreReady reply (suc n) due now
                  (apply_server_status m c (record state { code = s.code }) now fleet) readable
                  (apply_server_status-AreReady m c laws (record state { code = s.code }) now fleet
                    h))
        ]

    serve_fleet-GoesOn :
        (r : Runner F G) (round : Round F) (fleet : Fleet F G)
        → IsGoing r
        → RoundIsReadable round
        → AreReady m fleet
        → GoesOn (serve_fleet m c interval every r round fleet)
    unfolding serve_fleet
    serve_fleet-GoesOn r round fleet h readable ready =
        let kept = tick-AreReady m c laws interval round.now fleet ready in
        elim (Outcome-cases (tick m c interval round.now fleet)) [
          | inr (e, failed) ↦ absurd (subst (TickReady m) failed kept)
          | inl ((due, fleet'), went) ↦
              let all_sent = send_all m c interval every round.reply 0 due round.now fleet' in
              let reached : HasSent all_sent =
                send_all-AreReady round.reply 0 due round.now fleet' readable.2
                  (subst (TickReady m) went kept) in
              elim (Outcome-cases all_sent) [
                | inr (e, failed) ↦ absurd (subst HasSent failed reached)
                | inl ((fleet'', f), sent) ↦
                    rw went (rw sent (end_round-IsGoing r fleet'' f h (subst HasSent sent reached)))
              ]
        ]

    load_fleet-GoesOn :
        (r : Runner F G) (round : Round F)
        → RoundIsReadable round
        → IsGoing r
        → GoesOn (load_fleet m c interval every r round)
    unfolding load_fleet
    load_fleet-GoesOn r round readable h = elim (Call-cases round.scooters readable.0) [
      | inr (f, failed) ↦ rw (load_fleet, failed) (backed_off-IsGoing r h)
      | inl ([], got) ↦ rw (load_fleet, got) h
      | inl (item ∷ payload, got) ↦ elim (Call-cases round.zones readable.1) [
        | inr (f, failed) ↦ rw (load_fleet, got, failed) (backed_off-IsGoing r h)
        | inl (zones, zoned) ↦
            rw (load_fleet, got, zoned)
              (serve_fleet-GoesOn r round (from_server m c (item ∷ payload) r.rng round.now zones) h
                readable (from_server-AreReady m c laws (item ∷ payload) r.rng round.now zones))
      ]
    ]

    refresh_fleet-GoesOn :
        (r : Runner F G) (round : Round F) (fleet : Fleet F G)
        → IsGoing r
        → RoundIsReadable round
        → AreReady m fleet
        → GoesOn (refresh_fleet m c interval every r round fleet)
    unfolding refresh_fleet
    refresh_fleet-GoesOn r round fleet h readable ready =
        elim (Bool-cases (ltb 0 every && (r.ticks % every == 0))) [
          | inr other ↦ rw other (serve_fleet-GoesOn r round fleet h readable ready)
          | inl again ↦ elim (Call-cases round.scooters readable.0) [
            | inr (f, failed) ↦ rw again (rw failed (end_round-IsGoing r fleet (some f) h ready))
            | inl (payload, got) ↦ rw again (
                rw got (
                  serve_fleet-GoesOn r round
                    (refresh_statuses m c (map (λ i. i.item) payload) round.now fleet) h readable
                    (refresh_statuses-AreReady m c laws (map (λ i. i.item) payload) round.now fleet
                      ready)))
          ]
        ]

    run_round-GoesOn :
        (r : Runner F G) (round : Round F)
        → RoundIsReadable round
        → IsGoing r
        → GoesOn (run_round m c interval every r round)
    unfolding run_round
    run_round-GoesOn r round readable (low, high, loaded) =
        let next : Runner F G = record r { ticks = r.ticks + 1 } in
        elim (Option-cases r.fleet) [
          | inl missing ↦
              rw missing
                (load_fleet-GoesOn (record next { fleet = none }) round readable (low, high, tt))
          | inr (fleet, got) ↦ rw got (
              refresh_fleet-GoesOn (record next { fleet = some fleet }) round fleet
                (low, high, subst IsLoaded got loaded) readable (subst IsLoaded got loaded))
        ]

    run_rounds-GoesOn :
        (rounds : List (Round F)) (r : Runner F G)
        → All RoundIsReadable rounds
        → IsGoing r
        → GoesOn (run_rounds m c interval every r rounds)
    unfolding run_rounds run_round
    run_rounds-GoesOn [] r readable h = h
    run_rounds-GoesOn (round ∷ rounds) r (readable, later) h =
        let went = run_round-GoesOn r round readable h in
        elim (Outcome-cases (run_round m c interval every r round)) [
          | inr (e, failed) ↦ absurd (subst GoesOn failed went)
          | inl (r', got) ↦ rw got (run_rounds-GoesOn rounds r' later (subst GoesOn got went))
        ]

    -- The main loop does not exit while every request to the backend is answered with a body that the loop
    -- can read or fails with an HTTPError or an OSError: after any number of such rounds no `assert` has
    -- failed, the backoff is between 1 and 30 seconds, and every scooter on the move has a target and some
    -- charge; if charges are not NaN, SIM_MIN_RIDE_BATTERY is above 0 and a sample holds members of
    -- the population.
    pub runner_never_exits :
        (rng : G) (rounds : List (Round F))
        → All RoundIsReadable rounds
        → GoesOn (run_rounds m c interval every (started_runner rng) rounds)
    runner_never_exits rng rounds readable =
        run_rounds-GoesOn rounds (started_runner rng) readable (omega arith, omega arith, tt)
