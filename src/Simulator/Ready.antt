-- ===== src/Simulator/Ready.antt =====
-- simulator/scootersim/fleet.py: the scooters on the move, under the reports of the backend and the
-- steps of `tick`; the `assert` of `_ride`.
use mad_devs_transport_shari.Prelude.{
  ℕ, ◌+◌, ◌≡◌, refl, Bool, true, false, not, ◌&&◌, ◌||◌, Option, none, some, List, [], ◌∷◌, arith,
  is_some, All, subst, ◌⊎◌, leb, Bool-cases, Option-cases, inl, inr, if◌then◌else◌,
}
use mad_devs_transport_shari.Text.{String, text_eq}
use mad_devs_transport_shari.Outcome.{Outcome, Error, ok, raise}
use mad_devs_transport_shari.Geo.{Point}
use mad_devs_transport_shari.Simulator.{MathOps, Ring, step_towards}
use mad_devs_transport_shari.Simulator.Fleet.{
  SimScooter, Config, Fleet, StatusItem, Phase, is_riding, stop, drive, taken, apply_status,
  apply_by_code, leaves_zone, spot,
}
use mad_devs_transport_shari.Simulator.Moves.{ride, tick_scooter, tick_loop, advance, arrive, moved}

-- What is relied on: `not a <= 0` gives `0 < a` (no charge is NaN), a scooter charged enough to be
-- sent on a ride is not empty (SIM_MIN_RIDE_BATTERY is above 0), and a sample holds members of the
-- population.
pub record FleetLaws {F G : Type 0} (m : MathOps F G) (c : Config F) : Type 1 where
  pub positive : (a : F) → m.floats.le a (m.number 0) ≡ false → m.floats.lt (m.number 0) a ≡ true
  pub enough : (a : F) → m.floats.le c.min_ride_battery a ≡ true → m.floats.lt (m.number 0) a ≡ true
  pub members :
      (P : ℕ → Type 0) (xs : List ℕ) (k : ℕ) (rng : G) → All P xs → All P (m.sample xs k rng).0

pub Phase-cases : (p : Phase) → (p ≡ Phase.riding) ⊎ (p ≡ Phase.charging) ⊎ (p ≡ Phase.idle)
Phase-cases Phase.riding = inl refl
Phase-cases Phase.charging = inr (inl refl)
Phase-cases Phase.idle = inr (inr refl)

pub Outcome-cases {ℓ} :
    {A : Type ℓ} (o : Outcome A) → ((a : A) × (o ≡ ok a)) ⊎ ((e : Error) × (o ≡ raise e))
Outcome-cases (ok a) = inl (a, refl)
Outcome-cases (raise e) = inr (e, refl)

module _ {F G : Type 0} (m : MathOps F G) where
  -- A scooter on the move has a target and some charge.
  abbrev pub ready : SimScooter F → Bool
  ready s = not (is_riding s.phase) || (is_some s.target && m.floats.lt (m.number 0) s.battery)

  abbrev pub IsReady : SimScooter F → Type 0
  IsReady s = ready s ≡ true

  abbrev pub AreReady : Fleet F G → Type 0
  AreReady fleet = All IsReady fleet.scooters

  -- What a change of one scooter, and of the list, is asked for.
  abbrev pub FoundReady : Option (List (SimScooter F) × G) → Type 0
  FoundReady none = Unit
  FoundReady (some (ss, rng)) = All IsReady ss

  abbrev RodeReady : Outcome ((SimScooter F × Bool) × G) → Type 0
  RodeReady (ok ((s, due), rng)) = IsReady s
  RodeReady (raise e) = ⊥

  abbrev pub LoopReady : Outcome ((List (SimScooter F) × List (SimScooter F)) × G) → Type 0
  LoopReady (ok ((ss, due), rng)) = All IsReady ss
  LoopReady (raise e) = ⊥

  -- A tick that answers, with its fleet ready.
  abbrev pub TickReady : Outcome (List (SimScooter F) × Fleet F G) → Type 0
  TickReady (ok (due, fleet)) = AreReady fleet
  TickReady (raise e) = ⊥

  stop-IsReady : (s : SimScooter F) → IsReady (stop s)
  unfolding stop
  stop-IsReady s = ground arith

  module _ (c : Config F) (z : Ring F) (zs : List (Ring F)) where
    drive-IsReady :
        (paused : Bool) (s : SimScooter F) (rng : G)
        → IsReady s
        → IsReady (drive m c z zs paused s rng).0
    unfolding drive
    drive-IsReady paused s rng h = ground arith

    apply_status-IsReady :
        (status : String) (now : F) (paused : Bool) (s : SimScooter F) (rng : G)
        → IsReady s
        → IsReady (apply_status m c z zs status now paused s rng).0
    unfolding apply_status stop
    apply_status-IsReady status now paused s rng h =
        elim (Bool-cases (text_eq status "unavailable")) [
          | inl flat ↦ rw flat (ground arith)
          | inr other ↦ elim (Bool-cases (text_eq status "reserved")) [
            | inl held ↦ rw (other, held) (ground arith)
            | inr free ↦ elim (Bool-cases (text_eq status "riding")) [
              | inl taken ↦ rw (other, free, taken) (drive-IsReady paused s rng h)
              | inr left ↦ elim (Bool-cases (text_eq status "available")) [
                | inl back ↦ rw (other, free, left, back) (ground arith)
                | inr unknown ↦ rw (other, free, left, unknown) h
              ]
            ]
          ]
        ]

    pub apply_by_code-IsReady :
        (item : StatusItem) (now : F) (ss : List (SimScooter F)) (rng : G)
        → All IsReady ss
        → FoundReady (apply_by_code m c z zs item.status now item.paused item.code ss rng)
    unfolding apply_by_code
    apply_by_code-IsReady item now [] rng h = tt
    apply_by_code-IsReady item now (s ∷ rest) rng (hs, h) =
        let later = apply_by_code m c z zs item.status now item.paused item.code rest rng in
        let ih = apply_by_code-IsReady item now rest rng h in
        elim (Option-cases later) [
          | inr ((ss, rng'), found) ↦ rw found (hs, subst FoundReady found ih)
          | inl missing ↦ elim (Bool-cases (text_eq s.code item.code)) [
            | inl hit ↦
                rw (missing, hit) (apply_status-IsReady item.status now item.paused s rng hs, h)
            | inr miss ↦ rw (missing, miss) tt
          ]
        ]

    pub tick_scooter_rides :
        (dt now : F) (target : Point F) (s : SimScooter F) (rng : G)
        → s.phase ≡ Phase.riding
        → s.target ≡ some target
        → tick_scooter m c z zs dt now s rng
          ≡ ok (((advance m c z zs dt target s rng).0, true), (advance m c z zs dt target s rng).1)
    unfolding tick_scooter ride
    tick_scooter_rides dt now target s rng riding e = ground arith

    module _ (laws : FleetLaws m c) where
      arrive-IsReady :
          (reached : Bool) (s : SimScooter F) (rng : G)
          → is_some s.target ≡ true
          → IsReady (arrive m c z zs reached s rng).0
      unfolding arrive stop
      arrive-IsReady reached s rng h = ground (arith, laws.positive s.battery)

      advance-IsReady :
          (dt : F) (target : Point F) (s : SimScooter F) (rng : G)
          → IsReady s
          → s.target ≡ some target
          → is_riding s.phase ≡ true
          → IsReady (advance m c z zs dt target s rng).0
      unfolding advance
      advance-IsReady dt target s rng h e riding =
          let new =
            step_towards m (spot s) target
              (m.floats.div (m.floats.mul c.speed_kmh dt) (m.number 3600)) in
          elim (Bool-cases (s.user_ride && leaves_zone m c z zs s new.0)) [
            | inl turns ↦ rw turns (ground (arith, e, riding))
            | inr goes ↦ rw goes (arrive-IsReady new.1 (moved m c z zs dt s new.0) rng (rw e refl))
          ]

      tick_scooter-IsReady :
          (dt now : F) (s : SimScooter F) (rng : G)
          → IsReady s
          → RodeReady (tick_scooter m c z zs dt now s rng)
      unfolding tick_scooter
      tick_scooter-IsReady dt now s rng h = elim (Phase-cases s.phase) [
        | inl riding ↦ elim (Option-cases s.target) [
          | inl lost ↦ absurd (ground (arith, h, riding, lost))
          | inr (target, e) ↦
              rw (tick_scooter_rides dt now target s rng riding e)
                (advance-IsReady dt target s rng h e (rw riding refl))
        ]
        | inr (inl charging) ↦ elim (Option-cases s.charging_until) [
          | inl never ↦ rw (charging, never) refl
          | inr (until, e) ↦ elim (Bool-cases (m.floats.le until now)) [
            | inl over ↦ rw (charging, e) (rw over refl)
            | inr waits ↦ rw (charging, e) (rw waits refl)
          ]
        ]
        | inr (inr idle) ↦
            elim (Bool-cases (
              leb (if s.parked then c.held_heartbeat_ticks else c.heartbeat_ticks)
                (s.idle_ticks + 1))) [
                  | inl due ↦ rw idle (rw due refl)
                  | inr quiet ↦ rw idle (rw quiet refl)
                ]
      ]

      pub tick_loop-IsReady :
          (dt now : F) (ss : List (SimScooter F)) (rng : G)
          → All IsReady ss
          → LoopReady (tick_loop m c z zs dt now ss rng)
      unfolding tick_loop
      tick_loop-IsReady dt now [] rng h = tt
      tick_loop-IsReady dt now (s ∷ rest) rng (hs, h) =
          elim (Outcome-cases (tick_scooter m c z zs dt now s rng)) [
            | inr (e, failed) ↦
                absurd (subst RodeReady failed (tick_scooter-IsReady dt now s rng hs))
            | inl (((s', due), rng1), went) ↦
                let first = subst RodeReady went (tick_scooter-IsReady dt now s rng hs) in
                elim (Outcome-cases (tick_loop m c z zs dt now rest rng1)) [
                  | inr (e, failed) ↦
                      absurd (subst LoopReady failed (tick_loop-IsReady dt now rest rng1 h))
                  | inl (((rest', reports), rng2), later) ↦
                      rw (went, later)
                        (first, subst LoopReady later (tick_loop-IsReady dt now rest rng1 h))
                ]
          ]
