-- ===== src/AccountApi/Signing.antt =====
-- backend/app/api/auth.py: how a registration and a sign-in end on sound rows.
use mad_devs_transport_shari.Prelude.{
  ℕ, Bool, false, ◌+◌, ◌≡◌, refl, sym, true, ◌||◌, ◌&&◌, ◌==◌, ltb, subst, is_some, inl, inr, ◌⊎◌,
  arith,
}
use mad_devs_transport_shari.Text.{String, is_column_text}
use mad_devs_transport_shari.Table.{scalar}
use mad_devs_transport_shari.Models.{User}
use mad_devs_transport_shari.Outcome.{Outcome, if_encoded}
use mad_devs_transport_shari.AddressFormat.{codes, is_empty}
use mad_devs_transport_shari.Accounts.{AccountDb, register, authenticate, has_token}
use mad_devs_transport_shari.Accounts.Sound.{IsSound}
use mad_devs_transport_shari.Accounts.Tokens.{SignsIn, authenticate-Answers}
use mad_devs_transport_shari.Accounts.Keeps.{register-Answers}
use mad_devs_transport_shari.Http.{Detail, Handler, refuse_if, call, give, ◌>>=◌, ◌>>◌}
use mad_devs_transport_shari.Http.Ends.{
  encoded-Answers, Answers-wider, Ends, bind-Ends, call-Ends, refuse_if-Ends,
}
use mad_devs_transport_shari.AccountApi.{
  len, Site, Answer, address_problem, refuse_problem, session_ttl, password_problem,
}
use mad_devs_transport_shari.AccountApi.Endpoints.{
  register_in, register_account, login, open_account, signed, takes_registration, fits_email,
}
use mad_devs_transport_shari.AccountApi.Checks.{
  Sound, refuse_problem-Ends, address_problem-Ends, Kept,
}

module _ (site : Site) where
  -- The answer of a sign-in: whom it names, and the session that it opens.
  abbrev pub Signed : ℕ → ℕ → Answer → AccountDb → Type 0
  Signed status expires answer db =
      (opened : User × String) × (answer ≡ signed site status opened)
      × SignsIn site.secrets expires opened db

  pub Signed-Kept :
      (status expires : ℕ) (answer : Answer) (db : AccountDb)
      → Signed status expires answer db
      → (Sound site) db
  Signed-Kept status expires answer db h = h.2.0.0

-- The columns take the name and the normalized address.
abbrev pub takes_account : Site → String → String → Bool
takes_account site name email =
    is_column_text (site.secrets.normalize_email email)
    && (is_column_text name && fits_email (site.secrets.normalize_email email))

module _ (site : Site) (ouch : Type 0) where
  -- The name that the account gets, stripped.
  abbrev Named : String → String → AccountDb → Type 0
  Named name stripped db = (stripped ≡ site.strip name) × Sound site db

  register_in-Ends :
      (name email password : String) (db : AccountDb)
      → (Sound site) db
      → Ends (Sound site) ouch (Named name) (register_in site name email password db)
  unfolding register_in
  register_in-Ends name email password db v =
      let bad =
        len name == 0
        || ltb 64 (len name)
        || ltb 1000 (len email)
        || ltb 1000 (len password)
        || is_empty (codes (site.strip name)) in
      bind-Ends (Sound site) ouch (Kept site) (Named name) (refuse_if bad 422 Detail.bad_request)
        (λ _. give (site.strip name)) db
        (refuse_if-Ends (Sound site) ouch (Sound site) bad 422 Detail.bad_request db v v)
        (λ _ s v'. (refl, v'))

  open_account-Ends :
      (email password salt token : String) (clock now : ℕ) (name : String) (db : AccountDb)
      → (takes_account site name email ≡ false → ouch)
      → (Sound site) db
      → Ends
          (Sound site)
          ouch
          (Signed site 201 (now + session_ttl site))
          (open_account site email password salt token clock now name db)
  open_account-Ends email password salt token clock now name db crash v =
      let sec = site.secrets in
      let address = sec.normalize_email email in
      let expires = now + session_ttl site in
      let enter : AccountDb → Outcome ((User × String) × AccountDb) =
        register sec name email password salt token clock now (session_ttl site) in
      let fits : AccountDb → Bool = takes_registration site name address in
      bind-Ends (Sound site) ouch (SignsIn sec expires) (Signed site 201 expires)
        (call 409 (λ rows. if_encoded (fits rows) (enter rows)))
        (λ opened. give (signed site 201 opened)) db
        (call-Ends (Sound site) ouch (SignsIn sec expires) 409
          (λ rows. if_encoded (fits rows) (enter rows)) db v
          (encoded-Answers (Sound site) ouch (SignsIn sec expires) (fits db) (enter db)
            (λ h. crash (ground (arith, h)))
            (register-Answers sec db v ouch name email password salt token clock now
              (session_ttl site))))
        (λ opened s h. (opened, refl, h))

  pub register_account-Ends :
      (name email password salt token : String) (clock now : ℕ) (db : AccountDb)
      → (takes_account site (site.strip name) email ≡ false → ouch)
      → (Sound site) db
      → Ends
          (Sound site)
          ouch
          (Signed site 201 (now + session_ttl site))
          (register_account site name email password salt token clock now db)
  unfolding register_account
  register_account-Ends name email password salt token clock now db crash v =
      let post = Signed site 201 (now + session_ttl site) in
      let last = open_account site email password salt token clock now in
      let check : Handler AccountDb (Unit {0}) =
        refuse_problem Detail.invalid_password
          (password_problem site.password_min_length password) in
      bind-Ends (Sound site) ouch (Named name) post (register_in site name email password)
        (λ name'. check >> (address_problem site email >> last name')) db
        (register_in-Ends name email password db v)
        (λ name' s (same, v').
          bind-Ends (Sound site) ouch (Kept site) post check
            (λ _. address_problem site email >> last name') s
            (refuse_problem-Ends site ouch (Sound site) Detail.invalid_password
              (password_problem site.password_min_length password) s v' v')
            (λ _ s' v''.
              bind-Ends (Sound site) ouch (Kept site) post (address_problem site email)
                (λ _. last name') s' (address_problem-Ends site ouch (Sound site) email s' v'' v'')
                (λ _ t w.
                  open_account-Ends email password salt token clock now name' t
                    (subst (λ n. takes_account site n email ≡ false → ouch) (sym same) crash) w)))

module _ (site : Site) where
  -- The token has been drawn before.
  abbrev pub IsTaken : String → AccountDb → Type 0
  IsTaken token db = is_some (scalar (has_token (site.secrets.token_hash token)) db.sessions) ≡ true

  -- A sign-in fails by the random token, or by an address that no column can hold.
  abbrev pub CanFail : String → String → AccountDb → Type 0
  CanFail email token db =
      IsTaken token db ⊎ (is_column_text (site.secrets.normalize_email email) ≡ false)

  pub login-Ends :
      (email password token : String) (now : ℕ) (db : AccountDb)
      → IsSound site.secrets db
      → Ends
          (IsSound site.secrets)
          (CanFail email token db)
          (Signed site 200 (now + session_ttl site))
          (login site email password token now db)
  unfolding login
  login-Ends email password token now db v =
      let ouch = CanFail email token db in
      let fits = is_column_text (site.secrets.normalize_email email) in
      let sec = site.secrets in
      let ttl = session_ttl site in
      let check : Handler AccountDb (Unit {0}) =
        refuse_if (ltb 1000 (len email) || ltb 1000 (len password)) 422 Detail.bad_request in
      let enter : Handler AccountDb (User × String) =
        call 401 (λ rows. if_encoded fits (authenticate sec email password token now ttl rows)) in
      bind-Ends (IsSound sec) ouch (λ _ s. db ≡ s) (Signed site 200 (now + ttl)) check
        (λ _. enter >>= λ opened. give (signed site 200 opened)) db
        (refuse_if-Ends (IsSound sec) ouch (λ s. db ≡ s)
          (ltb 1000 (len email) || ltb 1000 (len password)) 422 Detail.bad_request db v refl)
        (λ _ s same.
          subst
            (λ t.
              Ends (IsSound sec) ouch (Signed site 200 (now + ttl))
                ((enter >>= λ opened. give (signed site 200 opened)) t))
            same
            (bind-Ends (IsSound sec) ouch (SignsIn sec (now + ttl)) (Signed site 200 (now + ttl))
              enter (λ opened. give (signed site 200 opened)) db
              (call-Ends (IsSound sec) ouch (SignsIn sec (now + ttl)) 401
                (λ rows. if_encoded fits (authenticate sec email password token now ttl rows)) db v
                (encoded-Answers (IsSound sec) ouch (SignsIn sec (now + ttl)) fits
                  (authenticate sec email password token now ttl db) (λ h. inr h)
                  (Answers-wider (IsSound sec) (IsTaken token db) ouch (SignsIn sec (now + ttl))
                    (λ h. inl h) (authenticate sec email password token now ttl db)
                    (authenticate-Answers sec db v email password token now ttl))))
              (λ opened s' h. (opened, refl, h))))
