-- ===== src/Tests/Accounts.antt =====
-- The theorems on accounts and on WebSocket clients, with hashes that change nothing.
use mad_devs_transport_shari.Prelude.{
  ℕ, ◌≡◌, refl, Bool, ◌&&◌, [], ◌∷◌, none, some, ◌==◌, if◌then◌else◌, arith,
}
use mad_devs_transport_shari.Text.{text_eq}
use mad_devs_transport_shari.Table.{scalar, get, put, count, IsKeyed}
use mad_devs_transport_shari.Models.{User}
use mad_devs_transport_shari.Outcome.{ok}
use mad_devs_transport_shari.Accounts.{
  Secrets, AccountDb, user_key, has_token, register, authenticate, user_from_token, change_password,
  registered_user_by_email,
}
use mad_devs_transport_shari.Accounts.Rows.{IsNumbered}
use mad_devs_transport_shari.Accounts.SignIn.{SecretLaws, register_then_authenticate}
use mad_devs_transport_shari.Accounts.SignOut.{change_password_signs_out}
use mad_devs_transport_shari.Sockets.{Hub, client_key, send_to_user}
use mad_devs_transport_shari.Sockets.Delivery.{belongs, send_to_user_drops}
use text.Mathlib.TextPositions.{eq_refl}

abbrev pub plain : Secrets
plain = record {
  normalize_email = λ s. s;
  sql_lower = λ s. s;
  token_hash = λ s. s;
  hash_password = λ salt password. password;
  verify_password = λ hash password. text_eq hash password;
}

pub plain_laws : SecretLaws plain
plain_laws = record { stored_lower = λ s. refl; verifies = λ salt password. eq_refl password }

-- A row from before accounts had a password, and an account with two sessions.
abbrev pub asel : User
asel = record { id = 1; name = "Asel"; email = none; password_hash = none; created_at = 1 }

abbrev pub timur : User
timur = record {
  id = 2;
  name = "Timur";
  email = some "timur@mail.kg";
  password_hash = some "old-secret";
  created_at = 2;
}

abbrev pub accounts : AccountDb
accounts = record {
  users = asel ∷ timur ∷ [];
  sessions =
      record { id = 1; user_id = 2; token_hash = "phone"; expires_at = 1000 }
      ∷ record { id = 2; user_id = 2; token_hash = "laptop"; expires_at = 2000 }
      ∷ [];
  next_user = 3;
  next_session = 3;
}

pub accounts-IsNumbered : IsNumbered accounts
unfolding count
accounts-IsNumbered = record { keyed = λ i. ground arith; fresh = λ i h. ground arith }

register_then_authenticate_example :
    (u : User) × (db' : AccountDb) × (db'' : AccountDb) × (register plain "Asel" "asel@mail.kg"
        "qwertyuiop" "salt" "first" 9 10 100 accounts
      ≡ ok ((u, "first"), db'))
    × (authenticate plain "asel@mail.kg" "qwertyuiop" "second" 20 100 db'
        ≡ ok ((u, "second"), db''))
    × (user_from_token plain "second" 110 db'' ≡ (some u, db''))
unfolding registered_user_by_email scalar
register_then_authenticate_example =
    register_then_authenticate plain plain_laws "Asel" "asel@mail.kg" "qwertyuiop" "salt" "first"
      "second" 9 10 20 110 100 accounts accounts-IsNumbered refl refl refl refl refl

change_password_signs_out_example :
    (db' : AccountDb) × (change_password plain timur "old-secret" "new-secret" "salt" "laptop"
        accounts
      ≡ ok (tt, db'))
    × (db'.users
        ≡ put user_key (record timur { password_hash = some "new-secret" }) (asel ∷ timur ∷ []))
    × (user_from_token plain "phone" 500 db' ≡ (none, db'))
    × (scalar (has_token "laptop") db'.sessions ≡ scalar (has_token "laptop") accounts.sessions)
unfolding scalar
change_password_signs_out_example =
    change_password_signs_out plain timur "old-secret" "new-secret" "salt" "laptop" "phone"
      "old-secret" 500 accounts refl refl refl refl

abbrev hub : Hub
hub =
    record { client = 1; owner = some 7 }
    ∷ record { client = 2; owner = none }
    ∷ record { client = 3; owner = some 7 }
    ∷ []

hub-IsKeyed : IsKeyed client_key hub
unfolding count
hub-IsKeyed i = ground arith

-- the third client does not answer any more
abbrev lost : ℕ → Bool
lost client = client == 3

send_to_user_drops_example :
    get client_key 3 (send_to_user lost 7 hub).1
    ≡ (if lost 3 && belongs 7 (get client_key 3 hub) then none else get client_key 3 hub)
send_to_user_drops_example = send_to_user_drops lost 7 3 hub hub-IsKeyed
