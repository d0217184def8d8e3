-- ===== src/Http.antt =====
-- What an endpoint answers (backend/app/api): a value, an HTTPException with its status and detail, or an
-- exception that nothing catches, which is a 500. A handler leaves rows also where it refuses.
pub mod Ends
use mad_devs_transport_shari.Prelude.{ℕ, Bool, true, false}
use mad_devs_transport_shari.Outcome.{
  Outcome, ok, raise, Error, not_found, forbidden, conflict, auth, fault, Fault, Code,
}
use mad_devs_transport_shari.AddressFormat.{FormatProblem}
use mad_devs_transport_shari.MailDomain.{Problem}

-- The keys of `invalid_email`: no text at all, a rule of the format, or the answer of DNS.
pub data EmailProblem : Type 0 where
  empty : EmailProblem
  malformed : FormatProblem → EmailProblem
  unreachable : Problem → EmailProblem

pub data PasswordProblem : Type 0 where
  too_short too_long : PasswordProblem

-- The `code` of an `api_error`, with the `problem` that two of them name. `bad_request` is the
-- answer of the framework to a body that the schema refuses.
pub data Detail : Type 0 where
  user_required bad_request : Detail
  invalid_email : EmailProblem → Detail
  invalid_password : PasswordProblem → Detail
  service : Code → Detail

pub data Http {ℓ} (A : Type ℓ) : Type ℓ where
  done : A → Http A
  refused : ℕ → Detail → Http A
  crashed : Fault → Http A

abbrev pub Handler : Type 0 → Type 0 → Type 0
Handler S A = S → Http A × S

-- `return`, and `raise HTTPException(status, detail)`
abbrev pub give : {S A : Type 0} → A → Handler S A
give a s = (done a, s)

abbrev pub refuse : {S A : Type 0} → ℕ → Detail → Handler S A
refuse status detail s = (refused status detail, s)

infixl 5 ◌>>=◌ ◌>>◌
abbrev pub ◌>>=◌ : {S A B : Type 0} → Handler S A → (A → Handler S B) → Handler S B
◌>>=◌ m f s = elim (m s).0 [
  | done a ↦ f a (m s).1
  | refused status detail ↦ (refused status detail, (m s).1)
  | crashed e ↦ (crashed e, (m s).1)
]

abbrev pub ◌>>◌ : {S B : Type 0} → Handler S (Unit {0}) → Handler S B → Handler S B
m >> k = m >>= λ _. k

abbrev pub refuse_if : {S : Type 0} → Bool → ℕ → Detail → Handler S (Unit {0})
refuse_if true status detail = refuse status detail
refuse_if false status detail = give tt

-- The exception of a service as the endpoint passes it on: 404, 403 and 409 are the classes' own
-- statuses, `status` is the endpoint's for an AuthError.
unfoldable pub http_error : {A : Type 0} → ℕ → Error → Http A
http_error status (not_found code) = refused 404 (service code)
http_error status (forbidden code) = refused 403 (service code)
http_error status (conflict code) = refused 409 (service code)
http_error status (auth code) = refused status (service code)
http_error status (fault e) = crashed e

-- A call of a service: an exception rolls the transaction back.
abbrev pub call : {S A : Type 0} → ℕ → (S → Outcome (A × S)) → Handler S A
call status f s = elim (f s) [ ok (a, s') ↦ (done a, s') | raise e ↦ (http_error status e, s) ]
