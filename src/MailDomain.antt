-- ===== src/MailDomain.antt =====
-- backend/app/services/mail_domain.py: does DNS say that a domain receives mail? The resolver is a
-- parameter: what a query ends in, the records or an exception; the log and the waiting are left out.
pub mod Rule
use mad_devs_transport_shari.Prelude.{
  ℕ, zero, suc, Bool, true, false, not, ◌||◌, Option, none, some, List, [], ◌∷◌, if◌then◌else◌,
}
use mad_devs_transport_shari.Text.{String, text_eq}

pub data RecordType : Type 0 where
  mx a aaaa : RecordType

-- `records` are the texts of the records, of an MX record its exchange; `trouble` stands for the other
-- DNS exceptions and OSError.
pub data Reply : Type 0 where
  records : List String → Reply
  no_answer nxdomain trouble : Reply

pub data Problem : Type 0 where
  no_mail_server : Problem

pub data Failure : Type 0 where
  unknown_domain dns_trouble : Failure

-- The records of a type, or the exception that `_records` lets through.
pub data Found : Type 0 where
  found : List String → Found
  failed : Failure → Found

unfoldable pub records_of : Reply → Found
records_of (records rs) = found rs
records_of no_answer = found []
records_of nxdomain = failed unknown_domain
records_of trouble = failed dns_trouble

-- The two `except` clauses.
unfoldable pub caught_failure : Failure → Option Problem
caught_failure unknown_domain = some no_mail_server
caught_failure dns_trouble = none

-- `any(str(rdata.exchange) != "." for rdata in exchangers)`
unfoldable pub has_real_exchanger : List String → Bool
has_real_exchanger [] = false
has_real_exchanger (exchange ∷ rest) = not (text_eq exchange ".") || has_real_exchanger rest

module _ (resolve : RecordType → Reply) where
  -- The loop over "A" and "AAAA".
  unfoldable pub address_problem : List RecordType → Option Problem
  address_problem [] = some no_mail_server
  address_problem (rdtype ∷ rest) =
      let later = address_problem rest in
      elim (records_of (resolve rdtype)) [
        | failed e ↦ caught_failure e
        | found [] ↦ later
        | found (r ∷ rs) ↦ none
      ]

  unfoldable pub mail_domain_problem : Option Problem
  mail_domain_problem = elim (records_of (resolve mx)) [
    | failed e ↦ caught_failure e
    | found [] ↦ address_problem (a ∷ aaaa ∷ [])
    | found (r ∷ rs) ↦ if has_real_exchanger (r ∷ rs) then none else some no_mail_server
  ]

  -- `DomainChecker.problem`
  unfoldable pub checked_problem : Bool → Option Problem
  checked_problem enabled = if enabled then mail_domain_problem else none

-- The loop of `warm_up`, with the attempts that are left: the number of queries sent, and whether DNS
-- answered the last one. `answers` says so of each query, in their order; one that is not answered ends
-- in a DNSException or an OSError.
unfoldable pub warm_up_loop : (ℕ → Bool) → ℕ → ℕ → ℕ × Bool
warm_up_loop answers attempt zero = (attempt, false)
warm_up_loop answers attempt (suc left) =
    let later = warm_up_loop answers (suc attempt) left in
    if answers attempt then (suc attempt, true) else later

-- `warm_up`: with the check switched off nothing is sent.
unfoldable pub warm_up : Bool → (ℕ → Bool) → ℕ → ℕ × Bool
warm_up enabled answers attempts =
    if not enabled then (0, false) else warm_up_loop answers 0 attempts
