-- ===== src/AccountApi/Endpoints.antt =====
-- backend/app/api/auth.py and users.py: the endpoints, and a request to one of them.
use mad_devs_transport_shari.Prelude.{
  ℕ, Bool, true, false, leb, not, ◌&&◌, ◌||◌, Option, none, some, List, [], ◌∷◌, ◌==◌, is_some, ltb,
  if◌then◌else◌,
}
use mad_devs_transport_shari.Text.{String, is_column_text}
use mad_devs_transport_shari.Table.{scalar, put}
use mad_devs_transport_shari.Models.{User}
use mad_devs_transport_shari.Outcome.{Code, if_encoded, database_error}
use mad_devs_transport_shari.AddressFormat.{codes, is_empty}
use mad_devs_transport_shari.Accounts.{
  Secrets, AccountDb, user_key, registered_as, registered_user_by_email, register, authenticate,
  change_password, revoke_session,
}
use mad_devs_transport_shari.Http.{
  bad_request, invalid_password, service, done, refused, crashed, Handler, give, ◌>>=◌, ◌>>◌,
  refuse_if, call,
}
use mad_devs_transport_shari.AccountApi.{
  Site, Carrier, delete_cookie, user_out, auth_out, no_content, Answer, len, get_current_user,
  current_token, as_user_out, session_cookie, session_ttl, address_problem, password_problem,
  refuse_problem,
}

-- `payload.email or ""`
abbrev pub text_or_empty : Option String → String
text_or_empty none = String.[]
text_or_empty (some text) = text

-- `owner is not None and owner.id != user.id`
abbrev pub is_somebody_else : User → Option User → Bool
is_somebody_else user none = false
is_somebody_else user (some owner) = not (owner.id == user.id)

-- Another account under the address of the row, as the index compares them.
abbrev pub is_other_owner : Secrets → User → User → Bool
is_other_owner sec row u = elim row.email [
  | none ↦ false
  | some email ↦ registered_as sec (sec.sql_lower email) u && not (u.id == row.id)
]

-- The width of the column `users.email`, VARCHAR(254).
abbrev pub fits_email : String → Bool
fits_email email = leb (len email) 254

abbrev pub fits_column : Option String → Bool
fits_column none = true
fits_column (some email) = fits_email email

module _ (site : Site) where
  -- The schema RegisterIn: the limits, then the name is stripped and must not be blank.
  unfoldable pub register_in : String → String → String → Handler AccountDb String
  register_in name email password = do
    refuse_if
        (len name == 0
          || ltb 64 (len name)
          || ltb 1000 (len email)
          || ltb 1000 (len password)
          || is_empty (codes (site.strip name)))
        422 bad_request
    give (site.strip name)

  -- The signed-in user with the token, in the body and in the cookie.
  abbrev pub signed : ℕ → User × String → Answer
  signed status (user, token) = record {
    status = status;
    body = auth_out (as_user_out site user) token;
    cookie = some (session_cookie site token);
  }

  -- What `register` sends to the database: the address in its first query and, unless it is taken, the name
  -- and the address in the row of the account.
  abbrev pub takes_registration : String → String → AccountDb → Bool
  takes_registration name email db =
      is_column_text email
      && (is_some (registered_user_by_email site.secrets email db)
          || (is_column_text name && fits_email email))

  -- `salt`, `token` and `clock` are what the random source and the database give.
  abbrev pub open_account :
      String → String → String → String → ℕ → ℕ → String → Handler AccountDb Answer
  open_account email password salt token clock now name = do
    opened ← call 409 (λ db.
        if_encoded (takes_registration name (site.secrets.normalize_email email) db)
          (register site.secrets name email password salt token clock now (session_ttl site) db))
    give (signed 201 opened)

  unfoldable pub register_account :
      String → String → String → String → String → ℕ → ℕ → Handler AccountDb Answer
  register_account name email password salt token clock now = do
    stripped ← register_in name email password
    refuse_problem invalid_password (password_problem site.password_min_length password)
    address_problem site email
    open_account email password salt token clock now stripped

  unfoldable pub login : String → String → String → ℕ → Handler AccountDb Answer
  login email password token now = do
    refuse_if (ltb 1000 (len email) || ltb 1000 (len password)) 422 bad_request
    opened ← call 401 (λ db.
        if_encoded (is_column_text (site.secrets.normalize_email email))
          (authenticate site.secrets email password token now (session_ttl site) db))
    give (signed 200 opened)

  abbrev pub sign_out : String → Handler AccountDb Answer
  sign_out token db = (
    done (record { status = 204; body = no_content; cookie = some delete_cookie }),
    revoke_session site.secrets token db,
  )

  unfoldable pub logout : Carrier → ℕ → Handler AccountDb Answer
  logout carrier now = do
    user ← get_current_user site carrier now
    token ← current_token site carrier
    sign_out token

  abbrev pub profile : User → Answer
  profile user = record { status = 200; body = user_out (as_user_out site user); cookie = none }

  abbrev pub give_profile : User → Handler AccountDb Answer
  give_profile user db = (done (profile user), db)

  unfoldable pub get_me : Carrier → ℕ → Handler AccountDb Answer
  get_me carrier now = do user ← get_current_user site carrier now; give_profile user

  -- The commit: the width of the column, whose DataError is not the caught IntegrityError, then the partial
  -- unique index on `lower(email)` of the accounts with a password.
  unfoldable pub commit_email : User → Handler AccountDb Answer
  commit_email row db =
      if not (fits_column row.email)
      then (crashed database_error, db)
      else if is_some row.password_hash
          && is_some (scalar (is_other_owner site.secrets row) db.users)
      then (refused 409 (service Code.email_taken), db)
      else (done (profile row), record db { users = put user_key row db.users })

  unfoldable pub store_email : User → String → Handler AccountDb Answer
  store_email user email db =
      if not (is_column_text email)
      then (crashed database_error, db)
      else if is_somebody_else user (registered_user_by_email site.secrets email db)
      then (refused 409 (service Code.email_taken), db)
      else commit_email (record user { email = some email }) db

  unfoldable pub update_email : Option String → Carrier → ℕ → Handler AccountDb Answer
  update_email payload carrier now = do
    user ← get_current_user site carrier now
    let raw = text_or_empty payload
    address_problem site raw
    store_email user (site.secrets.normalize_email raw)

  abbrev pub replace_password : String → String → String → User → String → Handler AccountDb Answer
  replace_password current new salt user token = do
    refuse_problem invalid_password (password_problem site.password_min_length new)
    call 403 (change_password site.secrets user current new salt token)
    give_profile user

  unfoldable pub update_password : String → String → String → Carrier → ℕ → Handler AccountDb Answer
  update_password current new salt carrier now = do
    user ← get_current_user site carrier now
    token ← current_token site carrier
    refuse_if (ltb 1000 (len current) || ltb 1000 (len new)) 422 bad_request
    replace_password current new salt user token

pub data AccountRequest : Type 0 where
  registers : (name email password salt token : String) (clock now : ℕ) → AccountRequest
  logs_in : (email password token : String) (now : ℕ) → AccountRequest
  logs_out : (carrier : Carrier) (now : ℕ) → AccountRequest
  asks_profile : (carrier : Carrier) (now : ℕ) → AccountRequest
  changes_email : (email : Option String) (carrier : Carrier) (now : ℕ) → AccountRequest
  changes_password : (current new salt : String) (carrier : Carrier) (now : ℕ) → AccountRequest

module _ (site : Site) where
  unfoldable pub serve_account : AccountRequest → Handler AccountDb Answer
  serve_account (registers name email password salt token clock now) =
      register_account site name email password salt token clock now
  serve_account (logs_in email password token now) = login site email password token now
  serve_account (logs_out carrier now) = logout site carrier now
  serve_account (asks_profile carrier now) = get_me site carrier now
  serve_account (changes_email email carrier now) = update_email site email carrier now
  serve_account (changes_password current new salt carrier now) =
      update_password site current new salt carrier now

  -- The rows after a history of requests.
  unfoldable pub run_accounts : List AccountRequest → AccountDb → AccountDb
  run_accounts [] db = db
  run_accounts (q ∷ rest) db = run_accounts rest (serve_account q db).1
