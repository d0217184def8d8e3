-- ===== src/AccountApi/Runs.antt =====
-- backend/app/api/auth.py and users.py: histories of account requests.
use mad_devs_transport_shari.Prelude.{true, false, inl, inr, ◌+◌, ◌≡◌, none, List, [], ◌∷◌, arith}
use mad_devs_transport_shari.Text.{is_column_text}
use mad_devs_transport_shari.Table.{scalar}
use mad_devs_transport_shari.Accounts.{AccountDb, has_token}
use mad_devs_transport_shari.Accounts.Sound.{IsSound}
use mad_devs_transport_shari.Http.{Http, done, refused, crashed}
use mad_devs_transport_shari.Http.Ends.{Ends, keeps_inv}
use mad_devs_transport_shari.AccountApi.{Site, session_ttl}
use mad_devs_transport_shari.AccountApi.Endpoints.{
  AccountRequest, registers, logs_in, logs_out, asks_profile, changes_email, changes_password,
  serve_account, run_accounts, text_or_empty,
}
use mad_devs_transport_shari.AccountApi.Profile.{
  logout-Ends, get_me-Ends, update_email-Ends, update_password-Ends, takes_email,
}
use mad_devs_transport_shari.AccountApi.Signing.{
  Signed, Signed-Kept, CanFail, takes_account, register_account-Ends, login-Ends,
}

-- Only a text that a column does not take, or a random token that has been drawn before, makes a crash.
abbrev CanCrash : Site → AccountRequest → AccountDb → Type 0
CanCrash site (registers name email password salt token clock now) db =
    takes_account site (site.strip name) email ≡ false
CanCrash site (logs_in email password token now) db = CanFail site email token db
CanCrash site (logs_out carrier now) db = ⊥
CanCrash site (asks_profile carrier now) db = ⊥
CanCrash site (changes_email email carrier now) db =
    takes_email (site.secrets.normalize_email (text_or_empty email)) ≡ false
CanCrash site (changes_password current new salt carrier now) db = ⊥

-- The columns take the name and the normalized address of the request, and a sign-in draws a token that
-- is not in use.
abbrev pub IsStorable : Site → AccountRequest → AccountDb → Type 0
IsStorable site (registers name email password salt token clock now) db =
    takes_account site (site.strip name) email ≡ true
IsStorable site (logs_in email password token now) db =
    (scalar (has_token (site.secrets.token_hash token)) db.sessions ≡ none)
    × (is_column_text (site.secrets.normalize_email email) ≡ true)
IsStorable site (logs_out carrier now) db = Unit
IsStorable site (asks_profile carrier now) db = Unit
IsStorable site (changes_email email carrier now) db =
    takes_email (site.secrets.normalize_email (text_or_empty email)) ≡ true
IsStorable site (changes_password current new salt carrier now) db = Unit

-- No exception that becomes a 500.
abbrev pub IsAnswered : {A : Type 0} → Http A → Type 0
IsAnswered (done a) = Unit
IsAnswered (refused status detail) = Unit
IsAnswered (crashed e) = ⊥

Ends-weaken :
    {A S : Type 0} (inv : S → Type 0) (ouch : Type 0) (post : A → S → Type 0)
    → ((a : A) (s : S) → post a s → inv s)
    → (r : Http A × S) → Ends inv ouch post r
    → Ends inv ouch (λ _. inv) r
Ends-weaken inv ouch post f (done a, s) h = f a s h
Ends-weaken inv ouch post f (refused status detail, s) h = h
Ends-weaken inv ouch post f (crashed e, s) h = h

Ends-answers :
    {A S : Type 0} (inv : S → Type 0) (ouch : Type 0) (r : Http A × S)
    → (ouch → ⊥)
    → Ends inv ouch (λ _. inv) r
    → IsAnswered r.0
Ends-answers inv ouch (done a, s) never h = tt
Ends-answers inv ouch (refused status detail, s) never h = tt
Ends-answers inv ouch (crashed e, s) never h = never h.1

IsStorable-safe :
    (site : Site) (q : AccountRequest) (db : AccountDb)
    → IsStorable site q db
    → CanCrash site q db
    → ⊥
IsStorable-safe site (registers name email password salt token clock now) db fits crash =
    ground (arith, fits, crash)
IsStorable-safe site (logs_in email password token now) db (fresh, fits) (inl taken) =
    ground (arith, fresh, taken)
IsStorable-safe site (logs_in email password token now) db (fresh, fits) (inr odd) =
    ground (arith, fits, odd)
IsStorable-safe site (logs_out carrier now) db fits crash = crash
IsStorable-safe site (asks_profile carrier now) db fits crash = crash
IsStorable-safe site (changes_email email carrier now) db fits crash = ground (arith, fits, crash)
IsStorable-safe site (changes_password current new salt carrier now) db fits crash = crash

module _ (site : Site) where
  serve_account-Ends :
      (q : AccountRequest) (db : AccountDb)
      → IsSound site.secrets db
      → Ends
          (IsSound site.secrets)
          (CanCrash site q db)
          (λ _. IsSound site.secrets)
          (serve_account site q db)
  unfolding serve_account
  serve_account-Ends (registers name email password salt token clock now) db v =
      let expires = now + session_ttl site in
      let ouch = takes_account site (site.strip name) email ≡ false in
      Ends-weaken (IsSound site.secrets) ouch (Signed site 201 expires)
        (Signed-Kept site 201 expires)
        (serve_account site (registers name email password salt token clock now) db)
        (register_account-Ends site ouch name email password salt token clock now db (λ h. h) v)
  serve_account-Ends (logs_in email password token now) db v =
      let expires = now + session_ttl site in
      let ouch = CanFail site email token db in
      Ends-weaken (IsSound site.secrets) ouch (Signed site 200 expires)
        (Signed-Kept site 200 expires) (serve_account site (logs_in email password token now) db)
        (login-Ends site email password token now db v)
  serve_account-Ends (logs_out carrier now) db v = logout-Ends site ⊥ carrier now db v
  serve_account-Ends (asks_profile carrier now) db v = get_me-Ends site ⊥ carrier now db v
  serve_account-Ends (changes_email email carrier now) db v =
      update_email-Ends site
        (takes_email (site.secrets.normalize_email (text_or_empty email)) ≡ false) email carrier now
        db (λ h. h) v
  serve_account-Ends (changes_password current new salt carrier now) db v =
      update_password-Ends site ⊥ current new salt carrier now db v

  pub serve_account-IsSound :
      (q : AccountRequest) (db : AccountDb)
      → IsSound site.secrets db
      → IsSound site.secrets (serve_account site q db).1
  serve_account-IsSound q db v =
      keeps_inv (IsSound site.secrets) (CanCrash site q db) (λ _. IsSound site.secrets) (λ a s h. h)
        (serve_account site q db) (serve_account-Ends q db v)

  -- Whatever account requests arrive in whatever order, and whether they are answered, refused or fail: of
  -- the rows that they leave, the ids of the users and of the sessions are unique, no two accounts have one
  -- address, no two sessions one token, and each session belongs to a user with a password, if this
  -- was so before.
  pub run_accounts-IsSound :
      (qs : List AccountRequest) (db : AccountDb)
      → IsSound site.secrets db
      → IsSound site.secrets (run_accounts site qs db)
  unfolding run_accounts
  run_accounts-IsSound [] db v = v
  run_accounts-IsSound (q ∷ qs) db v =
      run_accounts-IsSound qs (serve_account site q db).1 (serve_account-IsSound q db v)

  -- After any history of account requests on sound rows, an account request is answered or refused with
  -- a status: it never ends in an exception that nothing catches. Conditions: the name and the
  -- normalized address of the request have no character U+0000, this address has at most 254 characters if
  -- it is to be stored, and a sign-in draws a token that is not in use.
  pub serve_account_answers :
      (qs : List AccountRequest) (q : AccountRequest) (db : AccountDb)
      → IsSound site.secrets db
      → IsStorable site q (run_accounts site qs db)
      → IsAnswered (serve_account site q (run_accounts site qs db)).0
  serve_account_answers qs q db v fits =
      let db' = run_accounts site qs db in
      Ends-answers (IsSound site.secrets) (CanCrash site q db') (serve_account site q db')
        (IsStorable-safe site q db' fits) (serve_account-Ends q db' (run_accounts-IsSound qs db v))
