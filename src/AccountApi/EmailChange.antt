-- ===== src/AccountApi/EmailChange.antt =====
-- backend/app/api/users.py, `update_email`: what an accepted change leaves.
use mad_devs_transport_shari.Prelude.{
  ℕ, ◌≡◌, refl, sym, ◌∙◌, Bool, true, Option, none, some, List, [], ◌∷◌, ◌==◌, arith, ap,
  Option-cases, inl, inr, is_some,
}
use mad_devs_transport_shari.Text.{String}
use mad_devs_transport_shari.Table.{scalar, get, put}
use mad_devs_transport_shari.Table.Laws.{get_self}
use mad_devs_transport_shari.Models.{User}
use mad_devs_transport_shari.Outcome.{ok}
use mad_devs_transport_shari.AddressFormat.{codes}
use mad_devs_transport_shari.AddressFormat.Rule.{IsAddress, email_problem_rule}
use mad_devs_transport_shari.Accounts.{AccountDb, user_key, registered_as, registered_user_by_email}
use mad_devs_transport_shari.Accounts.Rows.{scalar-put}
use mad_devs_transport_shari.Accounts.Sound.{IsSound}
use mad_devs_transport_shari.Accounts.Tokens.{user_from_token-IsAccount}
use mad_devs_transport_shari.Http.{Detail, done, refused, Handler, ◌>>◌}
use mad_devs_transport_shari.Http.Ends.{bind-done, bind-refused}
use mad_devs_transport_shari.AccountApi.{
  Site, Carrier, Answer, address_problem, checked_address, get_current_user,
}
use mad_devs_transport_shari.AccountApi.Endpoints.{
  update_email, store_email, commit_email, text_or_empty, profile,
}
use mad_devs_transport_shari.AccountApi.Checks.{checked_address_total}
use mad_devs_transport_shari.AccountApi.Sessions.{
  user_from_token_live, HasSession, get_current_user_live,
}
use text.Mathlib.TextPositions.{eq_refl}

-- The row that a query finds, written back with a change that the query still accepts.
scalar-put_found :
    (test : User → Bool) (row old : User) (us : List User)
    → test row ≡ true
    → scalar test us ≡ some old
    → (old.id == row.id) ≡ true
    → scalar test (put user_key row us) ≡ some row
unfolding scalar put
scalar-put_found test row old [] hit found same = cc
scalar-put_found test row old (u ∷ us) hit found same =
    ground (arith, hit, found, same, scalar-put_found test row old us)

module _ (site : Site) where
  checked_address_accepted :
      (email : String) → checked_address site email ≡ ok none → IsAddress (codes (site.strip email))
  unfolding checked_address
  checked_address_accepted email h =
      let stripped = codes (site.strip email) in
      let (problem, answers, accepted) = email_problem_rule stripped in
      elim (Option-cases problem) [
        | inl fine ↦ accepted.0 fine
        | inr (rule, found) ↦ absurd (ground (arith, h, answers, found))
      ]

  -- An address that passes leaves the rows and goes on; no other goes on.
  address_problem_done :
      (email : String) (f : Handler AccountDb Answer) (db db' : AccountDb) (answer : Answer)
      → (address_problem site email >> f) db ≡ (done answer, db')
      → (checked_address site email ≡ ok none) × (f db ≡ (done answer, db'))
  unfolding address_problem
  address_problem_done email f db db' answer h =
      let (problem, e) = checked_address_total site email in
      elim (Option-cases problem) [
        | inl fine ↦
            let passed : checked_address site email ≡ ok none = e ∙ ap ok fine in
            let gave : address_problem site email db ≡ (done tt, db) =
              rw (address_problem, passed) refl in
            (passed, sym (bind-done (address_problem site email) (λ _. f) db db tt gave) ∙ h)
        | inr (p, found) ↦
            let refuses : address_problem site email db
                ≡ (refused 422 (Detail.invalid_email p), db) =
              rw (address_problem, e ∙ ap ok found) refl in
            absurd (
              ground (
                arith,
                h,
                bind-refused (address_problem site email) (λ _. f) db db 422
                    (Detail.invalid_email p) refuses,
              ))
      ]

  store_email_done :
      (user : User) (email : String) (db db' : AccountDb) (answer : Answer)
      → IsSound site.secrets db
      → get user_key user.id db.users ≡ some user
      → is_some user.password_hash ≡ true
      → site.secrets.sql_lower email ≡ email
      → store_email site user email db ≡ (done answer, db')
      → (answer ≡ profile site (record user { email = some email }))
        × (registered_user_by_email site.secrets email db'
            ≡ some (record user { email = some email }))
  unfolding store_email commit_email registered_user_by_email
  store_email_done user email db db' answer v at kept lower h =
      let row : User = record user { email = some email } in
      let test = registered_as site.secrets email in
      let hit : test row ≡ true = ground (arith, kept, lower, eq_refl email) in
      let stored : (answer ≡ profile site row) × (db'.users ≡ put user_key row db.users) =
        (ground (arith, h), ground (arith, h)) in
      elim (Option-cases (scalar test db.users)) [
        | inl free ↦ (stored.0, rw stored.1 (scalar-put test row hit user db.users free at))
        | inr (owner, found) ↦
            let same : (owner.id == row.id) ≡ true = ground (arith, h, found) in
            (stored.0, rw stored.1 (scalar-put_found test row owner db.users hit found same))
      ]

  -- A change of the address that the endpoint answers with 200 was of a well-formed address, and leaves the
  -- signed-in user as the one account under the new address, trimmed and lower-cased, and the answer
  -- names it. Conditions: the request has a live session, the rows are sound, and `lower` changes no
  -- normalized address.
  pub update_email_stores :
      (payload : Option String) (carrier : Carrier) (now : ℕ) (db db' : AccountDb) (u : User)
      (answer : Answer)
      → IsSound site.secrets db
      → HasSession site carrier now db u
      → let raw = text_or_empty payload in
        let email = site.secrets.normalize_email raw in
        let row : User = record u { email = some email } in
        site.secrets.sql_lower email ≡ email
        → update_email site payload carrier now db ≡ (done answer, db')
        → IsAddress (codes (site.strip raw))
          × (answer ≡ profile site row)
          × (registered_user_by_email site.secrets email db' ≡ some row)
  unfolding update_email
  update_email_stores payload carrier now db db' u answer v h lower done_it =
      let raw = text_or_empty payload in
      let email = site.secrets.normalize_email raw in
      let rest : (address_problem site raw >> store_email site u email) db ≡ (done answer, db') =
        sym (
          bind-done (get_current_user site carrier now)
            (λ user. address_problem site raw >> store_email site user email) db db u
            (get_current_user_live site carrier now db u h))
        ∙ done_it in
      let (passed, stores) =
        address_problem_done raw (store_email site u email) db db' answer rest in
      let (token, s, carried, (found, live, at)) = h in
      let kept =
        (user_from_token-IsAccount site.secrets db v token now u (
          ap (λ r. r.0)
            (user_from_token_live site.secrets token now db u s (found, live, at)))).2 in
      let (shown, registered) =
        store_email_done u email db db' answer v (get_self user_key s.user_id db.users u at) kept
          lower stores in
      (checked_address_accepted raw passed, shown, registered)
