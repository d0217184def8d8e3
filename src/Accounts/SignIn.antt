-- ===== src/Accounts/SignIn.antt =====
-- backend/app/services/auth.py: registration, sign-in and the sessions they open.
use mad_devs_transport_shari.Prelude.{
  ℕ, ◌+◌, ◌≡◌, refl, true, false, Option, none, some, arith, leb,
}
use mad_devs_transport_shari.Text.{String, text_eq}
use mad_devs_transport_shari.Table.{scalar, get}
use mad_devs_transport_shari.Table.Laws.{scalar-insert}
use mad_devs_transport_shari.Models.{User}
use mad_devs_transport_shari.Outcome.{ok}
use mad_devs_transport_shari.Accounts.{
  Secrets, AccountDb, user_key, has_token, registered_as, registered_user_by_email, legacy_account,
  account_row, store_account, new_session, add_session, create_session, commit_account, register,
  authenticate, user_from_token,
}
use mad_devs_transport_shari.Accounts.Rows.{
  IsNumbered, row_id, legacy_account-Stands, store_account-registered, store_account-get,
}
use text.Mathlib.TextPositions.{eq_refl}

-- What is relied on: PostgreSQL's `lower` leaves a trimmed and lower-cased address as it is, and a
-- password verifies against its own hash.
pub record SecretLaws (sec : Secrets) : Type 0 where
  pub stored_lower : (s : String) → sec.sql_lower (sec.normalize_email s) ≡ sec.normalize_email s
  pub verifies :
      (salt password : String)
      → sec.verify_password (sec.hash_password salt password) password ≡ true

pub account_row-hash :
    (legacy : Option User) (name email hash : String) (clock : ℕ) (db : AccountDb)
    → (account_row legacy name email hash clock db).password_hash ≡ some hash
account_row-hash none name email hash clock db = refl
account_row-hash (some u) name email hash clock db = refl

pub store_account-sessions :
    (legacy : Option User) (row : User) (db : AccountDb)
    → (store_account legacy row db).sessions ≡ db.sessions
store_account-sessions none row db = refl
store_account-sessions (some u) row db = refl

pub account_row-id :
    (legacy : Option User) (name email hash : String) (clock : ℕ) (db : AccountDb)
    → (account_row legacy name email hash clock db).id ≡ row_id db legacy
account_row-id none name email hash clock db = refl
account_row-id (some u) name email hash clock db = refl

module _ (sec : Secrets) (laws : SecretLaws sec) where
  account_row-registered :
      (legacy : Option User) (name address hash : String) (clock : ℕ) (db : AccountDb)
      → let email = sec.normalize_email address in
        registered_as sec email (account_row legacy name email hash clock db) ≡ true
  account_row-registered none name address hash clock db =
      rw (laws.stored_lower address, eq_refl (sec.normalize_email address)) refl
  account_row-registered (some u) name address hash clock db =
      rw (laws.stored_lower address, eq_refl (sec.normalize_email address)) refl

  module _ (name address password salt token : String) (clock now ttl : ℕ) (db : AccountDb)
      (free : registered_user_by_email sec (sec.normalize_email address) db ≡ none)
      (fresh : scalar (has_token (sec.token_hash token)) db.sessions ≡ none) where
    abbrev legacy : Option User
    legacy = legacy_account sec (sec.normalize_email address) name db

    abbrev row : User
    row =
        account_row legacy name (sec.normalize_email address) (sec.hash_password salt password)
          clock db

    -- The tables after the registration.
    abbrev joined : AccountDb
    joined =
        let db' = store_account legacy row db in
        add_session sec (new_session sec row.id now token ttl db') db'

    register_joins :
        register sec name address password salt token clock now ttl db ≡ ok ((row, token), joined)
    unfolding register commit_account registered_user_by_email
    register_joins = ground (arith, free, fresh, laws.stored_lower address)

    joined-registered :
        IsNumbered db → registered_user_by_email sec (sec.normalize_email address) joined ≡ some row
    unfolding registered_user_by_email
    joined-registered v =
        store_account-registered sec db v legacy row (sec.normalize_email address)
          (legacy_account-Stands sec db v (sec.normalize_email address) name)
          (account_row-id legacy name (sec.normalize_email address)
            (sec.hash_password salt password) clock db)
          (account_row-registered legacy name address (sec.hash_password salt password) clock db)
          free

    joined-get : IsNumbered db → get user_key row.id joined.users ≡ some row
    joined-get v =
        store_account-get sec db v legacy row
          (legacy_account-Stands sec db v (sec.normalize_email address) name)
          (account_row-id legacy name (sec.normalize_email address)
            (sec.hash_password salt password) clock db)

    module _ (token2 : String) (now2 now3 : ℕ)
        (fresh2 : scalar (has_token (sec.token_hash token2)) db.sessions ≡ none)
        (other : text_eq (sec.token_hash token) (sec.token_hash token2) ≡ false) where
      joined-fresh : scalar (has_token (sec.token_hash token2)) joined.sessions ≡ none
      joined-fresh = ground (
        arith,
        fresh2,
        other,
        store_account-sessions legacy row db,
        scalar-insert (has_token (sec.token_hash token2)) (store_account legacy row db).sessions
            (new_session sec row.id now token ttl (store_account legacy row db)),
      )

      -- The tables after the sign-in.
      abbrev signed_in : AccountDb
      signed_in = add_session sec (new_session sec row.id now2 token2 ttl joined) joined

      authenticate_signs_in :
          IsNumbered db
          → authenticate sec address password token2 now2 ttl joined ≡ ok ((row, token2), signed_in)
      unfolding authenticate create_session
      authenticate_signs_in v = ground (
        arith,
        joined-registered v,
        joined-fresh,
        account_row-hash legacy name (sec.normalize_email address) (sec.hash_password salt password)
            clock db,
        laws.verifies salt password,
      )

      signed_in-user :
          IsNumbered db
          → leb (now2 + ttl) now3 ≡ false
          → user_from_token sec token2 now3 signed_in ≡ (some row, signed_in)
      unfolding user_from_token
      signed_in-user v live = ground (
        arith,
        live,
        joined-get v,
        joined-fresh,
        eq_refl (sec.token_hash token2),
        scalar-insert (has_token (sec.token_hash token2)) joined.sessions
            (new_session sec row.id now2 token2 ttl joined),
      )

  -- Registering an address that no account has, then signing in with the same password: both succeed,
  -- also when the registration claims a legacy row, the second one as the user that the first one
  -- made, and the token of the sign-in belongs to this user
  -- until it expires. Conditions: the ids are unique, the hashes of the two tokens are new and differ,
  -- a password verifies against its own hash, and `lower` changes no normalized address.
  pub register_then_authenticate :
      (name address password salt token token2 : String) (clock now now2 now3 ttl : ℕ)
      (db : AccountDb)
      → IsNumbered db
      → registered_user_by_email sec (sec.normalize_email address) db ≡ none
      → scalar (has_token (sec.token_hash token)) db.sessions ≡ none
      → scalar (has_token (sec.token_hash token2)) db.sessions ≡ none
      → text_eq (sec.token_hash token) (sec.token_hash token2) ≡ false
      → leb (now2 + ttl) now3 ≡ false
      → (u : User) × (db' : AccountDb) × (db'' : AccountDb) × (register sec name address password
            salt token clock now ttl db
          ≡ ok ((u, token), db'))
        × (authenticate sec address password token2 now2 ttl db' ≡ ok ((u, token2), db''))
        × (user_from_token sec token2 now3 db'' ≡ (some u, db''))
  register_then_authenticate name address password salt token token2 clock now now2 now3 ttl db v
        free fresh fresh2 other live =
      (
        row name address password salt token clock now ttl db free fresh,
        joined name address password salt token clock now ttl db free fresh,
        signed_in name address password salt token clock now ttl db free fresh token2 now2 now3
            fresh2 other,
        register_joins name address password salt token clock now ttl db free fresh,
        authenticate_signs_in name address password salt token clock now ttl db free fresh token2
            now2 now3 fresh2 other v,
        signed_in-user name address password salt token clock now ttl db free fresh token2 now2 now3
            fresh2 other v live,
      )
