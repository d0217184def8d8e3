-- ===== src/AccountApi/Checks.antt =====
-- backend/app/api/deps.py and account_checks.py: how the parts that the endpoints share end on sound rows.
use mad_devs_transport_shari.Prelude.{
  ℕ, ◌≡◌, refl, Option, none, some, Bool-cases, Option-cases, inl, inr,
}
use mad_devs_transport_shari.Text.{String}
use mad_devs_transport_shari.Models.{User}
use mad_devs_transport_shari.Outcome.{ok}
use mad_devs_transport_shari.AddressFormat.{codes, is_empty, dot}
use mad_devs_transport_shari.AddressFormat.Rule.{email_problem_rule, address-split}
use mad_devs_transport_shari.AddressFormat.Parts.{join}
use mad_devs_transport_shari.MailDomain.{checked_problem}
use mad_devs_transport_shari.Accounts.{AccountDb, user_from_token}
use mad_devs_transport_shari.Accounts.Sound.{IsSound}
use mad_devs_transport_shari.Accounts.Tokens.{
  IsAccount, user_from_token-IsSound, user_from_token-IsAccount,
}
use mad_devs_transport_shari.Http.{EmailProblem, Detail}
use mad_devs_transport_shari.Http.Ends.{Ends}
use mad_devs_transport_shari.AccountApi.{
  Site, unreachable_or_none, Carrier, after_last, session_token, get_current_user, current_token,
  checked_address, address_problem, refuse_problem, signed_in_or_401,
}

-- The "@" of an address that the format accepts is there.
pub checked_address_total :
    (site : Site) (email : String)
    → (problem : Option EmailProblem) × (checked_address site email ≡ ok problem)
unfolding checked_address after_last
checked_address_total site email =
    let stripped = codes (site.strip email) in
    elim (Bool-cases (is_empty stripped)) [
      | inl blank ↦ (some EmailProblem.empty, rw (checked_address, blank) refl)
      | inr text ↦
          let (problem, answers, accepted) = email_problem_rule stripped in
          elim (Option-cases problem) [
            | inr (rule, found) ↦ (
              some (EmailProblem.malformed rule),
              rw (checked_address, text, answers, found) refl,
            )
            | inl fine ↦
                let parts = address-split stripped (accepted.0 fine) in
                (
                  unreachable_or_none (
                      checked_problem (site.dns (join dot (accepted.0 fine).labels))
                        site.email_domain_check),
                  rw (checked_address, text, answers, fine, parts, after_last) refl,
                )
          ]
    ]

module _ (site : Site) where
  abbrev pub Sound : AccountDb → Type 0
  Sound = IsSound site.secrets

  abbrev pub Kept : {A : Type 0} → A → AccountDb → Type 0
  Kept _ = Sound

module _ (site : Site) (ouch : Type 0) where
  pub refuse_problem-Ends :
      {P : Type 0} (keep : AccountDb → Type 0) (detail : P → Detail) (problem : Option P)
      (db : AccountDb)
      → (Sound site) db
      → keep db
      → Ends (Sound site) ouch (λ _ s. keep s) (refuse_problem detail problem db)
  refuse_problem-Ends keep detail none db v h = h
  refuse_problem-Ends keep detail (some problem) db v h = v

  pub address_problem-Ends :
      (keep : AccountDb → Type 0) (email : String) (db : AccountDb)
      → (Sound site) db
      → keep db
      → Ends (Sound site) ouch (λ _ s. keep s) (address_problem site email db)
  unfolding address_problem
  address_problem-Ends keep email db v h =
      let (problem, e) = checked_address_total site email in
      rw (Ends, address_problem, e) (refuse_problem-Ends keep Detail.invalid_email problem db v h)

  pub signed_in-Ends :
      (r : Option User × AccountDb)
      → (Sound site) r.1
      → ((u : User) → r.0 ≡ some u → IsAccount site.secrets u r.1)
      → Ends (Sound site) ouch (IsAccount site.secrets) (signed_in_or_401 r)
  signed_in-Ends (none, db) v own = v
  signed_in-Ends (some u, db) v own = own u refl

  pub get_current_user-Ends :
      (carrier : Carrier) (now : ℕ) (db : AccountDb)
      → (Sound site) db
      → Ends (Sound site) ouch (IsAccount site.secrets) (get_current_user site carrier now db)
  unfolding get_current_user
  get_current_user-Ends carrier now db v = elim (Option-cases (session_token site carrier)) [
    | inl missing ↦ rw (Ends, get_current_user, missing) v
    | inr (token, found) ↦
        rw (Ends, get_current_user, found)
          (signed_in-Ends (user_from_token site.secrets token now db)
            (user_from_token-IsSound site.secrets db v token now)
            (user_from_token-IsAccount site.secrets db v token now))
  ]

  pub current_token-Ends :
      (carrier : Carrier) (inv : AccountDb → Type 0) (db : AccountDb)
      → (Sound site) db
      → inv db
      → Ends (Sound site) ouch (λ _ s. inv s) (current_token site carrier db)
  unfolding current_token
  current_token-Ends carrier inv db v h = elim (Option-cases (session_token site carrier)) [
    | inl missing ↦ rw (Ends, current_token, missing) v
    | inr (token, found) ↦ rw (Ends, current_token, found) h
  ]
