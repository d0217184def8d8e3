-- ===== src/AccountApi.antt =====
-- backend/app/api: auth.py, users.py, deps.py, account_checks.py, with password_problem of
-- services/auth.py and the fields of schemas/auth.py and user.py: the endpoints of an account. Of a request
-- there are its header and cookie; `strip` is Python's, `dns` what each query ends in.
pub mod Endpoints
pub mod Checks
pub mod Profile
pub mod Signing
pub mod Runs
pub mod Sessions
pub mod EmailChange
use mad_devs_transport_shari.Prelude.{
  ℕ, ◌+◌, ◌*◌, Bool, true, false, not, ◌&&◌, ◌||◌, Option, none, some, List, [], ◌∷◌, length, ◌==◌,
  is_some, leb, ltb, if◌then◌else◌,
}
use mad_devs_transport_shari.Text.{String, text_eq}
use mad_devs_transport_shari.Table.{scalar, put}
use mad_devs_transport_shari.Models.{User}
use mad_devs_transport_shari.Outcome.{
  Outcome, ok, raise, Code, fault, index_error, ◌>>=◌ as ◌then_do◌,
}
use mad_devs_transport_shari.AddressFormat.{codes, is_empty, at_code, split, email_problem}
use mad_devs_transport_shari.MailDomain.{RecordType, Reply, Problem, checked_problem}
use mad_devs_transport_shari.StubAddress.{TextOps, recipient_address}
use mad_devs_transport_shari.Accounts.{
  Secrets, AccountDb, user_key, registered_as, registered_user_by_email, user_from_token, register,
  authenticate, change_password, revoke_session,
}
use Prim.Native.Char.{code}
use mad_devs_transport_shari.Http.{
  EmailProblem, empty, malformed, unreachable, PasswordProblem, too_short, too_long, Detail,
  user_required, bad_request, invalid_email, invalid_password, service, Http, done, refused,
  crashed, Handler, give, refuse, ◌>>=◌, ◌>>◌, refuse_if, call, http_error,
}

pub record Site : Type 0 where
  pub secrets : Secrets
  pub texts : TextOps
  pub strip : String → String
  pub dns : List ℕ → RecordType → Reply
  -- core/config.py
  pub email_domain_check : Bool
  pub session_ttl_days : ℕ
  pub session_cookie_secure : Bool
  pub password_min_length : ℕ

-- The two carriers of a token.
pub record Carrier : Type 0 where
  pub authorization : Option String
  pub session_cookie : Option String

-- schemas/user.py
pub record UserOut : Type 0 where
  pub id : ℕ
  pub name : String
  pub email : Option String
  pub created_at : ℕ
  pub mail_address : List ℕ

pub data Cookie : Type 0 where
  set_cookie : (token : String) (max_age : ℕ) (secure : Bool) → Cookie
  delete_cookie : Cookie

pub data Body : Type 0 where
  user_out : UserOut → Body
  auth_out : UserOut → String → Body
  no_content : Body

pub record Answer : Type 0 where
  pub status : ℕ
  pub body : Body
  pub cookie : Option Cookie

abbrev pub len : String → ℕ
len text = length (codes text)

-- `text.removeprefix(prefix)` if it starts with it
unfoldable pub after_prefix : List ℕ → String → Option String
after_prefix [] text = some text
after_prefix (c ∷ prefix) String.[] = none
after_prefix (c ∷ prefix) (String.◌∷◌ d text) =
    if code d == c then after_prefix prefix text else none

-- `text or None`
abbrev pub or_none : String → Option String
or_none String.[] = none
or_none (String.◌∷◌ c text) = some (String.◌∷◌ c text)

abbrev pub bearer_prefix : List ℕ
bearer_prefix = codes "Bearer "

unfoldable pub starts_with_bearer : Option String → Option String
starts_with_bearer none = none
starts_with_bearer (some authorization) = after_prefix bearer_prefix authorization

abbrev pub cookie_or_none : Option String → Option String
cookie_or_none none = none
cookie_or_none (some cookie) = or_none cookie

-- The part after the last separator, `text.rsplit(c, 1)[1]`: there is none without a separator.
unfoldable pub after_last : List (List ℕ) → Outcome (List ℕ)
after_last [] = raise (fault index_error)
after_last (part ∷ []) = raise (fault index_error)
after_last (part ∷ (last ∷ [])) = ok last
after_last (part ∷ (next ∷ (more ∷ parts))) = after_last (next ∷ (more ∷ parts))

unfoldable pub password_problem : ℕ → String → Option PasswordProblem
password_problem min_length value =
    if ltb (len value) min_length
    then some too_short
    else if ltb 128 (len value)
    then some too_long
    else none

-- `HTTPException` if a check names a problem
abbrev pub refuse_problem : {P S : Type 0} → (P → Detail) → Option P → Handler S (Unit {0})
refuse_problem detail none = give tt
refuse_problem detail (some problem) = refuse 422 (detail problem)

abbrev pub signed_in_or_401 : Option User × AccountDb → Http User × AccountDb
signed_in_or_401 (none, db) = refuse 401 user_required db
signed_in_or_401 (some user, db) = (done user, db)

abbrev pub unreachable_or_none : Option Problem → Option EmailProblem
unreachable_or_none none = none
unreachable_or_none (some problem) = some (unreachable problem)

module _ (site : Site) where
  unfoldable pub session_token : Carrier → Option String
  session_token carrier = elim (starts_with_bearer carrier.authorization) [
    | some token ↦ or_none (site.strip token)
    | none ↦ cookie_or_none carrier.session_cookie
  ]

  -- The user behind the session, or 401; looking an expired session up deletes it.
  unfoldable pub get_current_user : Carrier → ℕ → Handler AccountDb User
  get_current_user carrier now db = elim (session_token carrier) [
    | none ↦ refuse 401 user_required db
    | some token ↦ signed_in_or_401 (user_from_token site.secrets token now db)
  ]

  unfoldable pub current_token : Carrier → Handler AccountDb String
  current_token carrier = elim (session_token carrier) [
    | none ↦ refuse 401 user_required
    | some token ↦ give token
  ]

  abbrev pub cookie_max_age : ℕ
  cookie_max_age = site.session_ttl_days * 24 * 3600

  -- `timedelta(days=settings.session_ttl_days)`, in microseconds
  abbrev pub session_ttl : ℕ
  session_ttl = cookie_max_age * 1000000

  abbrev pub session_cookie : String → Cookie
  session_cookie token = set_cookie token cookie_max_age site.session_cookie_secure

  unfoldable pub as_user_out : User → UserOut
  as_user_out u = record {
    id = u.id;
    name = u.name;
    email = u.email;
    created_at = u.created_at;
    mail_address = recipient_address site.texts u.email u.name;
  }

  -- The format first, then DNS on the part after the last "@".
  unfoldable pub checked_address : String → Outcome (Option EmailProblem)
  checked_address email =
      let stripped = codes (site.strip email) in
      if is_empty stripped
      then ok (some empty)
      else (email_problem stripped then_do λ problem. elim problem [
        | some rule ↦ ok (some (malformed rule))
        | none ↦ after_last (split at_code stripped) then_do λ name.
            ok (unreachable_or_none (checked_problem (site.dns name) site.email_domain_check))
      ])

  unfoldable pub address_problem : String → Handler AccountDb (Unit {0})
  address_problem email = elim (checked_address email) [
    | ok problem ↦ refuse_problem invalid_email problem
    | raise e ↦ λ db. (http_error 500 e, db)
  ]
