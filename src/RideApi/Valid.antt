-- ===== src/RideApi/Valid.antt =====
-- backend/app: the rows of the whole system after a history of calls of its API.
use mad_devs_transport_shari.Prelude.{◌≡◌, refl, sym, subst, List, [], ◌∷◌}
use mad_devs_transport_shari.Models.{User}
use mad_devs_transport_shari.Database.Invariant.{IsValid}
use mad_devs_transport_shari.Service.{Settings}
use mad_devs_transport_shari.Service.Runs.{run-IsValid}
use mad_devs_transport_shari.Accounts.{AccountDb}
use mad_devs_transport_shari.Accounts.Sound.{IsSound}
use mad_devs_transport_shari.Http.{Http, done, refused, crashed, Handler}
use mad_devs_transport_shari.Http.Ends.{keeps_inv}
use mad_devs_transport_shari.AccountApi.{Site, Answer, get_current_user}
use mad_devs_transport_shari.AccountApi.Checks.{get_current_user-Ends}
use mad_devs_transport_shari.AccountApi.Endpoints.{serve_account}
use mad_devs_transport_shari.AccountApi.Runs.{serve_account-IsSound}
use mad_devs_transport_shari.Accounts.Tokens.{IsAccount}
use mad_devs_transport_shari.RideApi.Handlers.{
  System, Call, accounts, acts, telemetry, sweep, Response, respond, Shown, act, on_fleet,
  answer_call, run_calls,
}
use mad_devs_transport_shari.RideApi.Runs.{run_calls_refines}

module _ {F : Type 0} (c : Settings F) (site : Site) where
  account_part :
      (r : Http Answer × AccountDb) (s : System F)
      → let t : System F = record s { accounts = r.1 } in
        let r' : Http (Response F) × System F = elim r.0 [
          | done a ↦ (done (respond a.status (Shown.account a) []), t)
          | refused status detail ↦ (refused status detail, t)
          | crashed e ↦ (crashed e, t)
        ] in
        r'.1.accounts ≡ r.1
  account_part (done a, db) s = refl
  account_part (refused status detail, db) s = refl
  account_part (crashed e, db) s = refl

  rider_part :
      (r : Http User × AccountDb) (f : User → Handler (System F) (Response F)) (s : System F)
      → ((u : User) (t : System F) → (f u t).1.accounts ≡ t.accounts)
      → let t : System F = record s { accounts = r.1 } in
        let r' : Http (Response F) × System F = elim r.0 [
          | done a ↦ f a t
          | refused status detail ↦ (refused status detail, t)
          | crashed e ↦ (crashed e, t)
        ] in
        r'.1.accounts ≡ r.1
  rider_part (done u, db) f s same = same u (record s { accounts = db })
  rider_part (refused status detail, db) f s same = refl
  rider_part (crashed e, db) f s same = refl

  answer_call-IsSound :
      (q : Call F) (s : System F)
      → IsSound site.secrets s.accounts
      → IsSound site.secrets (answer_call c site q s).1.accounts
  unfolding answer_call
  answer_call-IsSound (accounts q) s v =
      subst (IsSound site.secrets) (sym (account_part (serve_account site q s.accounts) s))
        (serve_account-IsSound site q s.accounts v)
  answer_call-IsSound (acts carrier at action) s v =
      let who = get_current_user site carrier at s.accounts in
      subst (IsSound site.secrets)
        (sym (rider_part who (λ u. on_fleet (act c u.id action)) s (λ u t. refl)))
        (keeps_inv (IsSound site.secrets) (Unit {0}) (IsAccount site.secrets) (λ u db h. h.0) who
          (get_current_user-Ends site (Unit {0}) carrier at s.accounts v))
  answer_call-IsSound (telemetry report now) s v = v
  answer_call-IsSound (sweep locked now) s v = v

  accounts-IsSound :
      (calls : List (Call F)) (s : System F)
      → IsSound site.secrets s.accounts
      → IsSound site.secrets (run_calls c site calls s).accounts
  unfolding run_calls
  accounts-IsSound [] s v = v
  accounts-IsSound (q ∷ calls) s v =
      accounts-IsSound calls (answer_call c site q s).1 (answer_call-IsSound q s v)

  -- After every history of calls of the API, whoever makes them and however each of them ends, the rows
  -- of the whole system are in order if they were before: the scooters, bookings, rides and receipts as
  -- the transactions of the services keep them, and the accounts and sessions as their indexes ask.
  pub run_calls-IsValid :
      (calls : List (Call F)) (s : System F)
      → IsValid s.fleet
      → IsSound site.secrets s.accounts
      → IsValid (run_calls c site calls s).fleet
        × IsSound site.secrets (run_calls c site calls s).accounts
  run_calls-IsValid calls s v sound =
      let (qs, trace, ran) = run_calls_refines c site calls s in
      (subst IsValid (sym ran) (run-IsValid c qs s.fleet v), accounts-IsSound calls s sound)
