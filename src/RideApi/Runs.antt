-- ===== src/RideApi/Runs.antt =====
-- backend/app/api: histories of calls of the whole API, against histories of requests of the services.
use mad_devs_transport_shari.Prelude.{
  ℕ, ◌≡◌, refl, sym, ◌∙◌, ap, false, some, List, [], ◌∷◌, ◌++◌, ◌==◌, All, All-append, inl, inr,
  subst, ◌⊎◌,
}
use mad_devs_transport_shari.Models.{Db, Booking, Ride, User}
use mad_devs_transport_shari.Database.{after, get_ride_row, get_booking}
use mad_devs_transport_shari.Database.Invariant.{IsValid}
use mad_devs_transport_shari.Service.{Settings, Request, sweeps, serve, run}
use mad_devs_transport_shari.Service.Owners.{rider, IsForeign, others_change_nothing}
use mad_devs_transport_shari.Accounts.{AccountDb}
use mad_devs_transport_shari.Http.{Http, done, refused, crashed, Handler, ◌>>=◌, user_required}
use mad_devs_transport_shari.Http.Ends.{bind-done, bind-refused}
use mad_devs_transport_shari.AccountApi.{Site, Carrier, Answer, get_current_user}
use mad_devs_transport_shari.AccountApi.Endpoints.{serve_account}
use mad_devs_transport_shari.AccountApi.Sessions.{HasSession, get_current_user_rule}
use mad_devs_transport_shari.RideApi.Handlers.{
  System, Call, accounts, acts, telemetry, sweep, Action, Response, respond, Shown, act, on_fleet,
  on_accounts, answer_call, run_calls,
}
use mad_devs_transport_shari.RideApi.Calls.{
  asked, asked_report, asked-rider, comes_to_none, act-ComesTo, post_telemetry-ComesTo,
  sweep_pass-ComesTo,
}

module _ {F : Type 0} (c : Settings F) (site : Site) where
  -- The transactions of one call: for a rider's call those of the user of a live session that it
  -- carries, and none without one.
  abbrev pub Backed : Call F → System F → List (Request F) → Type 0
  Backed (accounts q) s rs = rs ≡ []
  Backed (acts carrier at action) s rs =
      ((u : User) × HasSession site carrier at s.accounts u × (rs ≡ asked u.id action))
      ⊎ (((u : User) → ¬ HasSession site carrier at s.accounts u) × (rs ≡ []))
  Backed (telemetry report now) s rs = rs ≡ asked_report report now
  Backed (sweep locked now) s rs = rs ≡ sweeps locked now ∷ []

  -- A history of calls, and the requests of the services that it comes down to.
  pub data Trace : List (Call F) → System F → List (Request F) → Type 0 where
    ends : {s : System F} → Trace [] s []
    step :
        {q : Call F} {calls : List (Call F)} {s : System F} (rs : List (Request F))
        {qs : List (Request F)}
        → Backed q s rs
        → Trace calls (answer_call c site q s).1 qs
        → Trace (q ∷ calls) s (rs ++ qs)

  run-append : (rs qs : List (Request F)) (db : Db F) → run c (rs ++ qs) db ≡ run c qs (run c rs db)
  unfolding run
  run-append [] qs db = refl
  run-append (r ∷ rs) qs db = run-append rs qs (after db (serve c r db))

  All-map {κ} :
      (P Q : Request F → Type κ)
      → ((r : Request F) → P r → Q r)
      → (rs : List (Request F)) → All P rs
      → All Q rs
  All-map P Q f [] h = tt
  All-map P Q f (r ∷ rs) (p, h) = (f r p, All-map P Q f rs h)

  abbrev ComesTo : Call F → System F → Type 0
  ComesTo q s =
      (rs : List (Request F)) × Backed q s rs
      × ((answer_call c site q s).1.fleet ≡ run c rs s.fleet)

  signed_in :
      (carrier : Carrier) (at : ℕ) (action : Action) (s : System F)
      → ComesTo (acts carrier at action) s
  unfolding answer_call
  signed_in carrier at action s =
      let who = get_current_user site carrier at in
      let go : User → Handler (System F) (Response F) = λ user. on_fleet (act c user.id action) in
      elim (get_current_user_rule site carrier at s.accounts) [
        | inl (u, session, e) ↦
            let found : on_accounts who s ≡ (done u, s) =
              ap (λ r. (r.0, record s { accounts = r.1 })) e in
            (
              asked u.id action,
              inl (u, session, refl),
              ap (λ r. r.1.fleet) (bind-done (on_accounts who) go s s u found)
                  ∙ act-ComesTo c u.id action s.fleet,
            )
        | inr (nobody, e) ↦
            let s' : System F = record s { accounts = (who s.accounts).1 } in
            let out : on_accounts who s ≡ (refused 401 user_required, s') = ap (λ x. (x, s')) e in
            (
              [],
              inr (nobody, refl),
              comes_to_none c s.fleet ((on_accounts who >>= go) s).1.fleet (
                  ap (λ r. r.1.fleet)
                    (bind-refused (on_accounts who) go s s' 401 user_required out)),
            )
      ]

  -- An answer about the accounts leaves the fleet as it is.
  answered_beside :
      (r : Http Answer × AccountDb) (s : System F)
      → let t : System F = record s { accounts = r.1 } in
        let r' : Http (Response F) × System F = elim r.0 [
          | done a ↦ (done (respond a.status (Shown.account a) []), t)
          | refused status detail ↦ (refused status detail, t)
          | crashed e ↦ (crashed e, t)
        ] in
        r'.1.fleet ≡ s.fleet
  answered_beside (done a, db) s = refl
  answered_beside (refused status detail, db) s = refl
  answered_beside (crashed e, db) s = refl

  call-ComesTo : (q : Call F) (s : System F) → ComesTo q s
  unfolding answer_call
  call-ComesTo (accounts q) s = (
    [],
    refl,
    comes_to_none c s.fleet (answer_call c site (accounts q) s).1.fleet
        (answered_beside (serve_account site q s.accounts) s),
  )
  call-ComesTo (acts carrier at action) s = signed_in carrier at action s
  call-ComesTo (telemetry report now) s =
      (asked_report report now, refl, post_telemetry-ComesTo c report now s.fleet)
  call-ComesTo (sweep locked now) s =
      (sweeps locked now ∷ [], refl, sweep_pass-ComesTo c locked now s.fleet)

  -- Every history of calls of the API does to the scooters, bookings, rides and e-mails exactly what the
  -- transactions of the services do that its calls ask for, one after the other: a rider's call with a
  -- live session asks for the one of its kind in the name of the user of that session, with the ids
  -- and instants of the call, a report for its recording and a pass of the sweeper for its sweep. A call without
  -- a live session, a body that the schema refuses, a query and an account request ask for none.
  pub run_calls_refines :
      (calls : List (Call F)) (s : System F)
      → (qs : List (Request F)) × Trace calls s qs
        × ((run_calls c site calls s).fleet ≡ run c qs s.fleet)
  unfolding run_calls run
  run_calls_refines [] s = ([], Trace.ends, refl)
  run_calls_refines (q ∷ calls) s =
      let s' = (answer_call c site q s).1 in
      let (rs, backed, ran) = call-ComesTo q s in
      let (qs, trace, later) = run_calls_refines calls s' in
      (
        rs ++ qs,
        Trace.step rs backed trace,
        later ∙ ap (run c qs) ran ∙ sym (run-append rs qs s.fleet),
      )

  -- No call of the history is a report or a pass of the sweeper, or carries a live session of user `w`.
  abbrev pub Quiet : ℕ → List (Call F) → System F → Type 0
  Quiet w [] s = Unit
  Quiet w (accounts q ∷ calls) s = Quiet w calls (answer_call c site (accounts q) s).1
  Quiet w (acts carrier at action ∷ calls) s =
      ((u : User) → HasSession site carrier at s.accounts u → (w == u.id) ≡ false)
      × Quiet w calls (answer_call c site (acts carrier at action) s).1
  Quiet w (telemetry report now ∷ calls) s = ⊥
  Quiet w (sweep locked now ∷ calls) s = ⊥

  asks-IsForeign :
      (w : ℕ) (carrier : Carrier) (at : ℕ) (action : Action) (s : System F) (rs : List (Request F))
      → Backed (acts carrier at action) s rs
      → ((u : User) → HasSession site carrier at s.accounts u → (w == u.id) ≡ false)
      → All (IsForeign c w) rs
  asks-IsForeign w carrier at action s rs (inl (u, session, e)) quiet =
      subst (All (IsForeign c w)) (sym e) (
        All-map (λ q. rider q ≡ some u.id) (IsForeign c w)
          (λ q whose. (u.id, whose, quiet u session)) (asked u.id action)
          (asked-rider F u.id action))
  asks-IsForeign w carrier at action s rs (inr (nobody, e)) quiet =
      subst (All (IsForeign c w)) (sym e) tt

  Trace-IsForeign :
      (w : ℕ) (calls : List (Call F)) (s : System F) (qs : List (Request F))
      → Trace calls s qs
      → Quiet w calls s
      → All (IsForeign c w) qs
  Trace-IsForeign w [] s _ Trace.ends quiet = tt
  Trace-IsForeign w (accounts q ∷ calls) s _ (Trace.step rs {qs} backed trace) quiet =
      All-append (IsForeign c w) rs qs (subst (All (IsForeign c w)) (sym backed) tt)
        (Trace-IsForeign w calls (answer_call c site (accounts q) s).1 qs trace quiet)
  Trace-IsForeign w (acts carrier at action ∷ calls) s _ (Trace.step rs {qs} backed trace) quiet =
      All-append (IsForeign c w) rs qs (asks-IsForeign w carrier at action s rs backed quiet.0)
        (Trace-IsForeign w calls (answer_call c site (acts carrier at action) s).1 qs trace quiet.1)
  Trace-IsForeign w (telemetry report now ∷ calls) s _ (Trace.step rs backed trace) quiet =
      absurd quiet
  Trace-IsForeign w (sweep locked now ∷ calls) s _ (Trace.step rs backed trace) quiet = absurd quiet

  -- Whatever calls arrive, on valid rows: if none of them carries a live session of user `w` and none is
  -- a scooter's report or a pass of the sweeper, each ride and each booking of `w` is as it was, in every
  -- column.
  pub strangers_change_nothing :
      (w : ℕ) (calls : List (Call F)) (s : System F)
      → IsValid s.fleet
      → Quiet w calls s
      → ((i : ℕ) (r : Ride)
          → get_ride_row i s.fleet ≡ some r
          → r.user_id ≡ w
          → get_ride_row i (run_calls c site calls s).fleet ≡ some r)
        × ((i : ℕ) (b : Booking)
            → get_booking i s.fleet ≡ some b
            → b.user_id ≡ w
            → get_booking i (run_calls c site calls s).fleet ≡ some b)
  strangers_change_nothing w calls s v quiet =
      let (qs, trace, ran) = run_calls_refines calls s in
      rw ran (others_change_nothing c w qs s.fleet v (Trace-IsForeign w calls s qs trace quiet))
