-- ===== src/AccountApi/Profile.antt =====
-- backend/app/api/users.py, and `logout` of auth.py: how the endpoints of a signed-in user end on sound rows.
use mad_devs_transport_shari.Prelude.{
  ℕ, ◌≤◌, ◌≡◌, refl, Bool, true, false, not, ◌&&◌, ◌||◌, Option, none, some, ◌==◌, ltb, bit, arith,
  Bool-cases, Option-cases, inl, inr, subst, is_some,
}
use mad_devs_transport_shari.Text.{String, is_column_text}
use mad_devs_transport_shari.Table.{scalar, get, put, count}
use mad_devs_transport_shari.Table.Laws.{count-put, count-scalar-none, get_self}
use mad_devs_transport_shari.Table.Only.{count-only, count-split}
use text.Mathlib.TextEquality.{eq_iff}
use mad_devs_transport_shari.Models.{User}
use mad_devs_transport_shari.Accounts.{
  AccountDb, change_password, Secrets, user_key, has_token, revoke_session, registered_as,
  registered_user_by_email,
}
use mad_devs_transport_shari.Accounts.Sound.{IsSound, filter_by-IsSound, put-IsSound}
use mad_devs_transport_shari.Accounts.Tokens.{IsAccount}
use mad_devs_transport_shari.Accounts.Keeps.{change_password-Answers}
use mad_devs_transport_shari.Http.{Detail, Handler, refuse_if, call, ◌>>=◌, ◌>>◌}
use mad_devs_transport_shari.Http.Ends.{Ends, bind-Ends, call-Ends, refuse_if-Ends}
use mad_devs_transport_shari.AccountApi.{
  len, Site, Carrier, get_current_user, current_token, address_problem, refuse_problem,
  password_problem,
}
use mad_devs_transport_shari.AccountApi.Endpoints.{
  logout, get_me, update_email, update_password, commit_email, store_email, sign_out, give_profile,
  fits_email, text_or_empty, replace_password, is_other_owner, is_somebody_else,
}
use mad_devs_transport_shari.AccountApi.Checks.{
  Sound, refuse_problem-Ends, address_problem-Ends, get_current_user-Ends, current_token-Ends, Kept,
}

-- A new address that no other account has, in the row of the account.
pub put_email-one_owner :
    (sec : Secrets) (db : AccountDb)
    → IsSound sec db
    → (user row : User) (email : String) → row.id ≡ user.id
    → row.email ≡ some email
    → is_some row.password_hash ≡ true
    → get user_key row.id db.users ≡ some user
    → scalar (λ u. registered_as sec (sec.sql_lower email) u && not (u.id == row.id)) db.users
      ≡ none
    → (address : String) → count (registered_as sec address) (put user_key row db.users) ≤ 1
put_email-one_owner sec db v user row email same spelled kept at free address =
    let test = registered_as sec address in
    let mine : User → Bool = λ u. test u && u.id == row.id in
    let others : User → Bool = λ u. test u && not (u.id == row.id) in
    elim (Bool-cases (test row)) [
      | inr other ↦ ground (
        arith,
        other,
        v.one_owner address,
        count-put user_key test row user db.users v.numbered.keyed at,
      )
      | inl hit ↦
          let e = (eq_iff (sec.sql_lower email) address).0 (ground (arith, hit, spelled)) in
          let alone : count others db.users ≡ 0 =
            subst (λ a. count (λ u. registered_as sec a u && not (u.id == row.id)) db.users ≡ 0) e
              (count-scalar-none
                (λ u. registered_as sec (sec.sql_lower email) u && not (u.id == row.id)) db.users
                free) in
          let own : count mine db.users ≡ bit (mine user) =
            count-only mine (λ u. u.id == row.id) (λ u. ground arith) user_key user db.users
              v.numbered.keyed (get_self user_key row.id db.users user at) (ground (arith, same))
              (v.numbered.keyed row.id) in
          ground (
            arith,
            hit,
            alone,
            own,
            same,
            count-split test (λ u. u.id == row.id) db.users,
            count-put user_key test row user db.users v.numbered.keyed at,
          )
    ]

-- The column takes the address.
abbrev pub takes_email : String → Bool
takes_email email = is_column_text email && fits_email email

module _ (site : Site) (ouch : Type 0) where
  pub get_me-Ends :
      (carrier : Carrier) (now : ℕ) (db : AccountDb)
      → (Sound site) db
      → Ends (Sound site) ouch (Kept site) (get_me site carrier now db)
  unfolding get_me
  get_me-Ends carrier now db v =
      bind-Ends (Sound site) ouch (IsAccount site.secrets) (Kept site)
        (get_current_user site carrier now) (give_profile site) db
        (get_current_user-Ends site ouch carrier now db v) (λ u s h. h.0)

  pub logout-Ends :
      (carrier : Carrier) (now : ℕ) (db : AccountDb)
      → (Sound site) db
      → Ends (Sound site) ouch (Kept site) (logout site carrier now db)
  unfolding logout revoke_session
  logout-Ends carrier now db v =
      bind-Ends (Sound site) ouch (IsAccount site.secrets) (Kept site)
        (get_current_user site carrier now) (λ user. current_token site carrier >>= sign_out site)
        db (get_current_user-Ends site ouch carrier now db v)
        (λ u s h.
          bind-Ends (Sound site) ouch (Kept site) (Kept site) (current_token site carrier)
            (sign_out site) s (current_token-Ends site ouch carrier (Sound site) s h.0 h.0)
            (λ token s' v'.
              filter_by-IsSound site.secrets s' v'
                (λ x. not (has_token (site.secrets.token_hash token) x))))

  store_email-Ends :
      (user : User) (email : String) (db : AccountDb)
      → (takes_email email ≡ false → ouch)
      → IsAccount site.secrets user db
      → Ends (Sound site) ouch (Kept site) (store_email site user email db)
  unfolding store_email commit_email
  store_email-Ends user email db crash (v, at, kept) =
      let row : User = record user { email = some email } in
      let sec = site.secrets in
      elim (Bool-cases (is_column_text email)) [
        | inr odd ↦ rw (Ends, store_email, odd) (v, crash (ground (arith, odd)))
        | inl plain ↦
            elim (Bool-cases (is_somebody_else user (registered_user_by_email sec email db))) [
              | inl taken ↦ rw (Ends, store_email, plain, taken) v
              | inr open_address ↦ elim (Bool-cases (fits_email email)) [
                | inr long ↦
                    rw (Ends, store_email, plain, open_address, commit_email, long)
                      (v, crash (ground (arith, plain, long)))
                | inl short ↦ elim (Option-cases (scalar (is_other_owner sec row) db.users)) [
                  | inr (other, taken) ↦
                      rw (Ends, store_email, plain, open_address, commit_email, short, kept, taken)
                        v
                  | inl free ↦
                      rw (Ends, store_email, plain, open_address, commit_email, short, kept, free)
                        (put-IsSound sec db v row user at kept
                          (put_email-one_owner sec db v user row email refl refl kept at free))
                ]
              ]
            ]
      ]

  pub update_email-Ends :
      (payload : Option String) (carrier : Carrier) (now : ℕ) (db : AccountDb)
      → (takes_email (site.secrets.normalize_email (text_or_empty payload)) ≡ false → ouch)
      → (Sound site) db
      → Ends (Sound site) ouch (Kept site) (update_email site payload carrier now db)
  unfolding update_email
  update_email-Ends payload carrier now db crash v =
      let raw = text_or_empty payload in
      let email = site.secrets.normalize_email raw in
      bind-Ends (Sound site) ouch (IsAccount site.secrets) (Kept site)
        (get_current_user site carrier now)
        (λ user. address_problem site raw >> store_email site user email) db
        (get_current_user-Ends site ouch carrier now db v)
        (λ user s h.
          bind-Ends (Sound site) ouch (λ _. IsAccount site.secrets user) (Kept site)
            (address_problem site raw) (λ _. store_email site user email) s
            (address_problem-Ends site ouch (IsAccount site.secrets user) raw s h.0 h)
            (λ _ s' h'. store_email-Ends user email s' crash h'))

  pub replace_password-Ends :
      (current new salt : String) (user : User) (token : String) (db : AccountDb)
      → IsAccount site.secrets user db
      → Ends (Sound site) ouch (Kept site) (replace_password site current new salt user token db)
  replace_password-Ends current new salt user token db h =
      let check : Handler AccountDb (Unit {0}) =
        refuse_problem Detail.invalid_password (password_problem site.password_min_length new) in
      let change : Handler AccountDb (Unit {0}) =
        call 403 (change_password site.secrets user current new salt token) in
      bind-Ends (Sound site) ouch (λ _. IsAccount site.secrets user) (Kept site) check
        (λ _. change >> give_profile site user) db
        (refuse_problem-Ends site ouch (IsAccount site.secrets user) Detail.invalid_password
          (password_problem site.password_min_length new) db h.0 h)
        (λ _ s own.
          bind-Ends (Sound site) ouch (Kept site) (Kept site) change (λ _. give_profile site user) s
            (call-Ends (Sound site) ouch (Kept site) 403
              (change_password site.secrets user current new salt token) s own.0
              (change_password-Answers site.secrets s own.0 ouch user current new salt token own))
            (λ _ t w. w))

  pub update_password-Ends :
      (current new salt : String) (carrier : Carrier) (now : ℕ) (db : AccountDb)
      → (Sound site) db
      → Ends (Sound site) ouch (Kept site) (update_password site current new salt carrier now db)
  unfolding update_password
  update_password-Ends current new salt carrier now db v =
      let check : Handler AccountDb (Unit {0}) =
        refuse_if (ltb 1000 (len current) || ltb 1000 (len new)) 422 Detail.bad_request in
      let last = replace_password site current new salt in
      bind-Ends (Sound site) ouch (IsAccount site.secrets) (Kept site)
        (get_current_user site carrier now)
        (λ user. current_token site carrier >>= λ token. check >> last user token) db
        (get_current_user-Ends site ouch carrier now db v)
        (λ user s h.
          bind-Ends (Sound site) ouch (λ _. IsAccount site.secrets user) (Kept site)
            (current_token site carrier) (λ token. check >> last user token) s
            (current_token-Ends site ouch carrier (IsAccount site.secrets user) s h.0 h)
            (λ token s' h'.
              bind-Ends (Sound site) ouch (λ _. IsAccount site.secrets user) (Kept site) check
                (λ _. last user token) s'
                (refuse_if-Ends (Sound site) ouch (IsAccount site.secrets user)
                  (ltb 1000 (len current) || ltb 1000 (len new)) 422 Detail.bad_request s' h'.0 h')
                (λ _ t w. replace_password-Ends current new salt user token t w)))
