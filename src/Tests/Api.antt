-- ===== src/Tests/Api.antt =====
-- The theorems on the endpoints of the accounts.
use mad_devs_transport_shari.Prelude.{
  ◌≡◌, ◌≤◌, ◌⊎◌, refl, true, false, none, some, List, [], ◌∷◌, arith, Bool-cases, inl, inr, subst,
}
use mad_devs_transport_shari.Text.{text_eq, is_column_text}
use mad_devs_transport_shari.Table.{scalar, count, put}
use mad_devs_transport_shari.Models.{User}
use mad_devs_transport_shari.MailDomain.{
  records, checked_problem, mail_domain_problem, records_of, has_real_exchanger,
}
use mad_devs_transport_shari.AddressFormat.{
  codes, email_problem, has_whitespace, is_whitespace, count_of, split, both_parts, is_bad_domain,
  starts_with_dot, ends_with_dot, has_double_dot,
}
use mad_devs_transport_shari.AddressFormat.Rule.{IsAddress}
use mad_devs_transport_shari.StubAddress.{recipient_address}
use mad_devs_transport_shari.Accounts.{
  AccountDb, has_token, registered_user_by_email, user_from_token, authenticate, create_session,
}
use mad_devs_transport_shari.Accounts.Sound.{IsSound}
use mad_devs_transport_shari.Http.{done, refused, user_required}
use mad_devs_transport_shari.AccountApi.{
  Site, Carrier, Answer, UserOut, user_out, auth_out, no_content, delete_cookie, set_cookie,
  get_current_user, as_user_out, session_token, starts_with_bearer, after_prefix, checked_address,
  address_problem, after_last,
}
use mad_devs_transport_shari.AccountApi.Endpoints.{
  AccountRequest, registers, logs_in, changes_email, run_accounts, serve_account, login, logout,
  get_me, update_email, profile, store_email, commit_email,
}
use mad_devs_transport_shari.AccountApi.Runs.{
  IsAnswered, run_accounts-IsSound, serve_account_answers,
}
use mad_devs_transport_shari.AccountApi.Sessions.{
  HasSession, get_current_user_rule, logout_rule, login_shows_profile,
}
use mad_devs_transport_shari.AccountApi.EmailChange.{update_email_stores}
use mad_devs_transport_shari.Tests.Accounts.{plain, timur, accounts, accounts-IsNumbered}
use mad_devs_transport_shari.Tests.Address.{plain_texts}
use text.Mathlib.TextEquality.{eq_iff}

abbrev pub site : Site
site = record {
  secrets = plain;
  texts = plain_texts;
  strip = λ s. s;
  dns = λ name type. records ("192.0.2.1" ∷ []);
  email_domain_check = true;
  session_ttl_days = 30;
  session_cookie_secure = false;
  password_min_length = 8;
}

pub accounts-IsSound : IsSound plain accounts
unfolding count scalar
accounts-IsSound = record {
  numbered = accounts-IsNumbered;
  one_owner = λ email. ground arith;
  sessions_keyed = λ i. ground arith;
  sessions_fresh = λ i h. ground arith;
  one_session = λ hash. elim (Bool-cases (text_eq "phone" hash)) [
    | inl same ↦
        subst (λ x. count (has_token x) accounts.sessions ≤ 1) ((eq_iff "phone" hash).0 same)
          (omega arith)
    | inr other ↦ ground (arith, other)
  ];
  owned = (refl, (refl, tt));
}

abbrev pub phone : Carrier
phone = record { authorization = some "Bearer phone"; session_cookie = none }

abbrev history : List AccountRequest
history =
    registers "Asel" "asel@mail.kg" "qwertyuiop" "salt" "first" 9 10
    ∷ logs_in "asel@mail.kg" "qwertyuiop" "second" 20
    ∷ []

run_accounts-IsSound_example : IsSound plain (run_accounts site history accounts)
run_accounts-IsSound_example = run_accounts-IsSound site history accounts accounts-IsSound

serve_account_answers_example :
    IsAnswered
      (serve_account site
        (changes_email (some "t@ride.kg") phone 500)
        (run_accounts site history accounts)).0
unfolding is_column_text
serve_account_answers_example =
    serve_account_answers site history (changes_email (some "t@ride.kg") phone 500) accounts
      accounts-IsSound refl

get_current_user_rule_example :
    ((u : User) × HasSession site phone 500 accounts u
      × (get_current_user site phone 500 accounts ≡ (done u, accounts)))
    ⊎ (((u : User) → ¬ HasSession site phone 500 accounts u)
        × ((get_current_user site phone 500 accounts).0 ≡ refused 401 user_required))
get_current_user_rule_example = get_current_user_rule site phone 500 accounts

phone-HasSession : HasSession site phone 500 accounts timur
unfolding scalar session_token starts_with_bearer after_prefix
phone-HasSession = (
  "phone",
  record { id = 1; user_id = 2; token_hash = "phone"; expires_at = 1000 },
  refl,
  (refl, omega arith, refl),
)

logout_rule_example :
    (db' : AccountDb) × (logout site phone 500 accounts
      ≡ (done (record { status = 204; body = no_content; cookie = some delete_cookie }), db'))
    × ((get_current_user site phone 600 db').0 ≡ refused 401 user_required)
    × (scalar (has_token "laptop") db'.sessions ≡ scalar (has_token "laptop") accounts.sessions)
unfolding phone-HasSession
logout_rule_example = logout_rule site phone 500 600 accounts timur "laptop" phone-HasSession refl

abbrev timur_out : UserOut
timur_out = record {
  id = 2;
  name = "Timur";
  email = some "timur@mail.kg";
  created_at = 2;
  mail_address = codes "timur@mail.kg";
}

abbrev after_login : AccountDb
after_login = record accounts {
  sessions =
      record { id = 1; user_id = 2; token_hash = "phone"; expires_at = 1000 }
      ∷ record { id = 2; user_id = 2; token_hash = "laptop"; expires_at = 2000 }
      ∷ record { id = 3; user_id = 2; token_hash = "tablet"; expires_at = 2592000000500 }
      ∷ [];
  next_session = 4;
}

abbrev signed_answer : Answer
signed_answer = record {
  status = 200;
  body = auth_out timur_out "tablet";
  cookie = some (set_cookie "tablet" 2592000 false);
}

timur_logs_in :
    login site "timur@mail.kg" "old-secret" "tablet" 500 accounts
    ≡ (done signed_answer, after_login)
unfolding login is_column_text authenticate create_session registered_user_by_email scalar
    as_user_out recipient_address
timur_logs_in = refl

login_shows_profile_example :
    get_me site (record { authorization = none; session_cookie = some "tablet" }) 9000 after_login
    ≡ (done (record { status = 200; body = user_out timur_out; cookie = none }), after_login)
login_shows_profile_example =
    login_shows_profile site "timur@mail.kg" "old-secret" "tablet" 500 9000 accounts after_login
      signed_answer timur_out "tablet" accounts-IsSound timur_logs_in refl refl (omega arith)

abbrev renamed : User
renamed = record timur { email = some "t@ride.kg" }

abbrev after_change : AccountDb
after_change = record accounts { users = put (λ u. u.id) renamed accounts.users }

timur_changes_email :
    update_email site (some "t@ride.kg") phone 500 accounts
    ≡ (done (profile site renamed), after_change)
unfolding update_email get_current_user session_token starts_with_bearer after_prefix
    user_from_token scalar address_problem checked_address email_problem has_whitespace
    is_whitespace count_of split both_parts is_bad_domain starts_with_dot ends_with_dot
    has_double_dot after_last is_column_text store_email commit_email registered_user_by_email put
    checked_problem mail_domain_problem records_of has_real_exchanger
timur_changes_email = refl

update_email_stores_example :
    IsAddress (codes "t@ride.kg")
    × (profile site renamed ≡ profile site renamed)
    × (registered_user_by_email plain "t@ride.kg" after_change ≡ some renamed)
update_email_stores_example =
    update_email_stores site (some "t@ride.kg") phone 500 accounts after_change timur
      (profile site renamed) accounts-IsSound phone-HasSession refl timur_changes_email
