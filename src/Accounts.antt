-- ===== src/Accounts.antt =====
-- backend/app/services/auth.py: accounts, sign-in and sessions. Hashes are parameters, and so are the
-- random salt and token of a call; `ttl` is the lifetime of a session, `clock` the database's clock.
pub mod SignIn
pub mod SignOut
pub mod Rows
pub mod Sound
pub mod Tokens
pub mod Keeps
use mad_devs_transport_shari.Prelude.{
  ℕ, ◌+◌, Bool, true, false, not, ◌&&◌, ◌||◌, Option, none, some, List, [], ◌∷◌, ◌++◌, ◌==◌,
  is_some, leb, ltb, if◌then◌else◌, filter_by,
}
use mad_devs_transport_shari.Text.{String, text_eq}
use mad_devs_transport_shari.Table.{scalar, get, put}
use mad_devs_transport_shari.Models.{User}
use mad_devs_transport_shari.Outcome.{
  Outcome, ok, raise, auth, Code, fault, Fault, assertion_error, database_error, raise_if, or_raise,
  ◌>>=◌, ◌>>◌,
}

pub record Secrets : Type 0 where
  -- `value.strip().lower()`, and PostgreSQL's `lower`
  pub normalize_email : String → String
  pub sql_lower : String → String
  -- SHA-256, and argon2id with its salt
  pub token_hash : String → String
  pub hash_password : String → String → String
  -- of a hash and a password; a hash that cannot be read verifies nothing
  pub verify_password : String → String → Bool

-- models/session.py
pub record UserSession : Type 0 where
  pub id : ℕ
  pub user_id : ℕ
  pub token_hash : String
  pub expires_at : ℕ

pub record AccountDb : Type 0 where
  pub users : List User
  pub sessions : List UserSession
  pub next_user : ℕ
  pub next_session : ℕ

abbrev pub user_key : User → ℕ
user_key u = u.id

abbrev pub has_token : String → UserSession → Bool
has_token hash s = text_eq s.token_hash hash

-- `latest` of two rows in the order `created_at DESC, id DESC`
abbrev pub newer : User → User → Bool
newer u v = ltb v.created_at u.created_at || (u.created_at == v.created_at && ltb v.id u.id)

-- The first row in that order.
unfoldable pub latest : List User → Option User
latest [] = none
latest (u ∷ rest) = elim (latest rest) [
  | none ↦ some u
  | some v ↦ if newer v u then some v else some u
]

-- `rows[0] if len(rows) == 1 else None`
unfoldable pub only : List User → Option User
only [] = none
only (u ∷ []) = some u
only (u ∷ v ∷ rest) = none

-- The row of a new account, or of a claimed one.
abbrev pub account_row : Option User → String → String → String → ℕ → AccountDb → User
account_row none name email hash clock db = record {
  id = db.next_user;
  name = name;
  email = some email;
  password_hash = some hash;
  created_at = clock;
}
account_row (some u) name email hash clock db = record u {
  name = name;
  email = some email;
  password_hash = some hash;
}

abbrev pub store_account : Option User → User → AccountDb → AccountDb
store_account none row db = record db { users = db.users ++ row ∷ []; next_user = db.next_user + 1 }
store_account (some u) row db = record db { users = put user_key row db.users }

module _ (sec : Secrets) where
  -- `lower(email) = :email`, never so for a missing address
  abbrev pub has_email : String → User → Bool
  has_email email u = elim u.email [
    | none ↦ false
    | some address ↦ text_eq (sec.sql_lower address) email
  ]

  abbrev pub registered_as : String → User → Bool
  registered_as email u = has_email email u && is_some u.password_hash

  abbrev pub legacy_as : String → User → Bool
  legacy_as email u = has_email email u && not (is_some u.password_hash)

  abbrev pub legacy_named : String → User → Bool
  legacy_named name u =
      text_eq u.name name && (not (is_some u.email) && not (is_some u.password_hash))

  unfoldable pub registered_user_by_email : String → AccountDb → Option User
  registered_user_by_email email db = scalar (registered_as email) db.users

  unfoldable pub legacy_account : String → String → AccountDb → Option User
  legacy_account email name db = elim (latest (filter_by (legacy_as email) db.users)) [
    | some u ↦ some u
    | none ↦ only (filter_by (legacy_named name) db.users)
  ]

  abbrev pub new_session : ℕ → ℕ → String → ℕ → AccountDb → UserSession
  new_session user_id now token ttl db = record {
    id = db.next_session;
    user_id = user_id;
    token_hash = sec.token_hash token;
    expires_at = now + ttl;
  }

  abbrev pub add_session : UserSession → AccountDb → AccountDb
  add_session s db = record db {
    sessions = db.sessions ++ s ∷ [];
    next_session = db.next_session + 1;
  }

  -- A token whose hash is stored already violates the unique index.
  unfoldable pub create_session : ℕ → ℕ → String → ℕ → AccountDb → Outcome AccountDb
  create_session user_id now token ttl db = do
    raise_if (is_some (scalar (has_token (sec.token_hash token)) db.sessions))
        (fault database_error)
    ok (add_session (new_session user_id now token ttl db) db)

  -- An expired session is deleted on the way.
  unfoldable pub user_from_token : String → ℕ → AccountDb → Option User × AccountDb
  user_from_token token now db = elim (scalar (has_token (sec.token_hash token)) db.sessions) [
    | none ↦ (none, db)
    | some stored ↦
        if leb stored.expires_at now
        then (none, record db { sessions = filter_by (λ s. not (s.id == stored.id)) db.sessions })
        else (get user_key stored.user_id db.users, db)
  ]

  unfoldable pub revoke_session : String → AccountDb → AccountDb
  revoke_session token db = record db {
    sessions = filter_by (λ s. not (has_token (sec.token_hash token) s)) db.sessions;
  }

  unfoldable pub revoke_other_sessions : ℕ → String → AccountDb → AccountDb
  revoke_other_sessions user_id keep_token db = record db {
    sessions =
        filter_by (λ s. not (s.user_id == user_id && not (has_token (sec.token_hash keep_token) s)))
          db.sessions;
  }

  -- The two flushes and the commit: a violated index is an IntegrityError.
  unfoldable pub commit_account :
      Option User
      → User
      → String
      → ℕ
      → String
      → ℕ
      → AccountDb
      → Outcome ((User × String) × AccountDb)
  commit_account legacy row email now token ttl db =
      if is_some (scalar (registered_as (sec.sql_lower email)) db.users)
        || is_some (scalar (has_token (sec.token_hash token)) db.sessions)
      then raise (auth Code.email_taken)
      else (let db' = store_account legacy row db in
          ok ((row, token), add_session (new_session row.id now token ttl db') db'))

  unfoldable pub register :
      String
      → String
      → String
      → String
      → String
      → ℕ
      → ℕ
      → ℕ
      → AccountDb
      → Outcome ((User × String) × AccountDb)
  register name address password salt token clock now ttl db = do
    let email = sec.normalize_email address
    raise_if (is_some (registered_user_by_email email db)) (auth Code.email_taken)
    let hash = sec.hash_password salt password
    let legacy = legacy_account email name db
    let row = account_row legacy name email hash clock db
    commit_account legacy row email now token ttl db

  unfoldable pub authenticate :
      String → String → String → ℕ → ℕ → AccountDb → Outcome ((User × String) × AccountDb)
  authenticate address password token now ttl db =
      let email = sec.normalize_email address in
      elim (registered_user_by_email email db) [
        | none ↦
            if is_some (scalar (legacy_as email) db.users)
            then raise (auth Code.password_not_set)
            else raise (auth Code.invalid_credentials)
        | some u ↦ do
          hash ← or_raise u.password_hash (fault assertion_error)
          raise_if (not (sec.verify_password hash password)) (auth Code.invalid_credentials)
          db' ← create_session u.id now token ttl db
          ok ((u, token), db')
      ]

  -- `user` is the row of the caller.
  unfoldable pub change_password :
      User → String → String → String → String → AccountDb → Outcome (Unit {0} × AccountDb)
  change_password u current new salt keep_token db = do
    raise_if
        (elim u.password_hash [ none ↦ true | some hash ↦ not (sec.verify_password hash current) ])
        (auth Code.wrong_password)
    let row : User = record u { password_hash = some (sec.hash_password salt new) }
    ok (tt, revoke_other_sessions u.id keep_token (record db { users = put user_key row db.users }))
