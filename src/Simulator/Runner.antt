-- ===== src/Simulator/Runner.antt =====
-- simulator/scootersim/runner.py, `run`: the main loop. What the clock and the backend give in one round is
-- an argument; the waiting and the log are left out. The generator is shared with the fleet. Backoffs are
-- whole seconds; `refresh_every_ticks` is not negative, and 0 means never.
use mad_devs_transport_shari.Prelude.{
  ℕ, suc, ◌+◌, ◌*◌, ◌%◌, ◌&&◌, Option, none, some, List, [], ◌∷◌, map, min, ltb, ◌==◌,
  if◌then◌else◌,
}
use mad_devs_transport_shari.Outcome.{Outcome, ok, raise, Fault, fault, value_error, ◌>>=◌}
use mad_devs_transport_shari.Geo.{Point}
use mad_devs_transport_shari.Simulator.{MathOps}
use mad_devs_transport_shari.Simulator.Fleet.{
  SimScooter, Config, Fleet, StatusItem, ServerItem, apply_server_status, refresh_statuses,
  from_server,
}
use mad_devs_transport_shari.Simulator.Moves.{tick}

-- An HTTPStatusError with the code 404 or with another, and an HTTPError or OSError.
pub data Failure : Type 0 where
  unknown_scooter refused unreachable : Failure

-- What a request to the backend comes to: a value; an exception that the loop catches; a body that is no JSON,
-- on which `response.json()` raises a ValueError; or a value that is not as expected, with the
-- exception that the code raises where it reads it (a KeyError, say). A value that counts as empty is `answered []`.
pub data Call (A : Type 0) : Type 0 where
  answered : A → Call A
  failing : Failure → Call A
  undecodable : Call A
  malformed : Fault → Call A

pub record Round (F : Type 0) : Type 0 where
  pub now : F
  pub scooters : Call (List (ServerItem F))
  pub zones : Call (List (List (Point F)))
  -- the answer to each telemetry of the round, in their order
  pub reply : ℕ → Call StatusItem

pub record Runner (F G : Type 0) : Type 0 where
  pub fleet : Option (Fleet F G)
  pub rng : G
  pub backoff : ℕ
  pub ticks : ℕ

-- MAX_BACKOFF_SECONDS
abbrev pub max_backoff_seconds : ℕ
max_backoff_seconds = 30

module _ {F G : Type 0} where
  -- `backoff = min(backoff * 2, MAX_BACKOFF_SECONDS)`
  abbrev pub backed_off : Runner F G → Runner F G
  backed_off r = record r { backoff = min (r.backoff * 2) max_backoff_seconds }

  -- The fleet and the failure, if any, that a round ends with: a 404 drops the fleet.
  unfoldable pub end_round : Runner F G → Fleet F G × Option Failure → Runner F G
  end_round r (fleet, none) = record r { fleet = some fleet; rng = fleet.rng; backoff = 1 }
  end_round r (fleet, some unknown_scooter) =
      backed_off (record r { fleet = none; rng = fleet.rng })
  end_round r (fleet, some refused) = backed_off (record r { fleet = some fleet; rng = fleet.rng })
  end_round r (fleet, some unreachable) =
      backed_off (record r { fleet = some fleet; rng = fleet.rng })

module _ {F G : Type 0} (m : MathOps F G) (c : Config F) (interval : F) (refresh_every : ℕ) where
  -- The loop over the reports; a caught failure ends it, and what was applied stays.
  unfoldable pub send_all :
      (ℕ → Call StatusItem)
      → ℕ
      → List (SimScooter F)
      → F
      → Fleet F G
      → Outcome (Fleet F G × Option Failure)
  send_all reply n [] now fleet = ok (fleet, none)
  send_all reply n (s ∷ due) now fleet = elim (reply n) [
    | failing f ↦ ok (fleet, some f)
    | undecodable ↦ raise (fault value_error)
    | malformed e ↦ raise (fault e)
    | answered state ↦
        send_all reply (suc n) due now
          (apply_server_status m c (record state { code = s.code }) now fleet)
  ]

  unfoldable pub serve_fleet : Runner F G → Round F → Fleet F G → Outcome (Runner F G)
  serve_fleet r round fleet = tick m c interval round.now fleet >>= λ (due, fleet').
      send_all round.reply 0 due round.now fleet' >>= λ sent. ok (end_round r sent)

  -- Without a fleet: load it; an empty payload only waits.
  unfoldable pub load_fleet : Runner F G → Round F → Outcome (Runner F G)
  load_fleet r round = elim round.scooters [
    | failing f ↦ ok (backed_off r)
    | undecodable ↦ raise (fault value_error)
    | malformed e ↦ elim round.zones [
      | failing f ↦ ok (backed_off r)
      | undecodable ↦ raise (fault value_error)
      | malformed e' ↦ raise (fault e)
      | answered zones ↦ raise (fault e)
    ]
    | answered [] ↦ ok r
    | answered (item ∷ payload) ↦ elim round.zones [
      | failing f ↦ ok (backed_off r)
      | undecodable ↦ raise (fault value_error)
      | malformed e ↦ raise (fault e)
      | answered zones ↦
          serve_fleet r round (from_server m c (item ∷ payload) r.rng round.now zones)
    ]
  ]

  -- With a fleet: read the statuses again, every few rounds.
  unfoldable pub refresh_fleet : Runner F G → Round F → Fleet F G → Outcome (Runner F G)
  refresh_fleet r round fleet =
      if ltb 0 refresh_every && (r.ticks % refresh_every == 0)
      then elim round.scooters [
        | failing f ↦ ok (end_round r (fleet, some f))
        | undecodable ↦ raise (fault value_error)
        | malformed e ↦ raise (fault e)
        | answered payload ↦
            serve_fleet r round (refresh_statuses m c (map (λ i. i.item) payload) round.now fleet)
      ]
      else serve_fleet r round fleet

  unfoldable pub run_round : Runner F G → Round F → Outcome (Runner F G)
  run_round before round =
      let r : Runner F G = record before { ticks = before.ticks + 1 } in
      elim r.fleet [ none ↦ load_fleet r round | some fleet ↦ refresh_fleet r round fleet ]

  unfoldable pub run_rounds : Runner F G → List (Round F) → Outcome (Runner F G)
  run_rounds r [] = ok r
  run_rounds r (round ∷ rounds) = run_round r round >>= λ r'. run_rounds r' rounds

-- The loop begins without a fleet, with a backoff of a second.
abbrev pub started_runner : {F G : Type 0} → G → Runner F G
started_runner rng = record { fleet = none; rng = rng; backoff = 1; ticks = 0 }
