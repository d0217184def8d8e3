-- ===== src/MailDomain/Rule.antt =====
-- backend/app/services/mail_domain.py: the rule on the three kinds of records, and the warm-up.
use mad_devs_transport_shari.Prelude.{
  ℕ, zero, suc, ◌+◌, ◌≤◌, ◌<◌, ◌≡◌, refl, ap, ◌∙◌, Option, Bool, true, false, not, ◌&&◌, ◌||◌, none,
  some, List, [], ◌∷◌, ◌++◌, arith, Bool-cases, inl, inr, if◌then◌else◌, ltb,
}
use mad_devs_transport_shari.Text.{String}
use mad_devs_transport_shari.MailDomain.{
  RecordType, Reply, found, no_mail_server, mx, a, aaaa, records_of, has_real_exchanger,
  address_problem, mail_domain_problem, warm_up, warm_up_loop,
}

abbrev pub non_empty : List String → Bool
non_empty [] = false
non_empty (r ∷ rs) = true

-- When none of the three queries ends in an exception: a domain is accepted exactly if one of its MX
-- records names an exchange other than `.`, or it has no MX record but an A or an AAAA record.
pub mail_domain_problem_rfc :
    (resolve : RecordType → Reply) (exchangers v4 v6 : List String)
    → records_of (resolve mx) ≡ found exchangers
    → records_of (resolve a) ≡ found v4
    → records_of (resolve aaaa) ≡ found v6
    → mail_domain_problem resolve ≡ (
        if has_real_exchanger exchangers || (not (non_empty exchangers) && non_empty (v4 ++ v6))
        then none
        else some no_mail_server)
unfolding mail_domain_problem address_problem has_real_exchanger
mail_domain_problem_rfc resolve [] [] [] hm h4 h6 =
    rw (mail_domain_problem, address_problem, hm, h4, h6) refl
mail_domain_problem_rfc resolve [] [] (r ∷ rs) hm h4 h6 =
    rw (mail_domain_problem, address_problem, hm, h4, h6) refl
mail_domain_problem_rfc resolve [] (r ∷ rs) v6 hm h4 h6 =
    rw (mail_domain_problem, address_problem, hm, h4) refl
mail_domain_problem_rfc resolve (e ∷ es) v4 v6 hm h4 h6 = ground (arith, hm)

warm_up_loop_first :
    (answers : ℕ → Bool) (attempt left i : ℕ)
    → attempt ≤ i
    → i < attempt + left
    → ((j : ℕ) → j < i → answers j ≡ false)
    → answers i ≡ true
    → warm_up_loop answers attempt left ≡ (suc i, true)
unfolding warm_up_loop
warm_up_loop_first answers attempt zero i from within early hit = absurd (omega arith)
warm_up_loop_first answers attempt (suc left) i from within early hit =
    elim (Bool-cases (ltb attempt i)) [
      | inl before ↦ rw (early attempt (ground (arith, before))) (
          warm_up_loop_first answers (suc attempt) left i (ground (arith, before)) (omega arith)
            early hit)
      | inr now ↦ let e : attempt ≡ i = ground (arith, now) in ground (arith, e, hit)
    ]

-- If no query is answered, all attempts are made.
warm_up_loop_none :
    (answers : ℕ → Bool) (attempt left : ℕ)
    → ((j : ℕ) → j < attempt + left → answers j ≡ false)
    → warm_up_loop answers attempt left ≡ (attempt + left, false)
unfolding warm_up_loop
warm_up_loop_none answers attempt zero silent = ap (λ n. (n, false)) (omega arith)
warm_up_loop_none answers attempt (suc left) silent = rw (silent attempt (omega arith)) (
    warm_up_loop_none answers (suc attempt) left (λ j h. silent j (omega arith))
    ∙ ap (λ n. (n, false)) (omega arith))

-- The first query that is answered, if one within the attempts is.
unfoldable pub IsFirst : (ℕ → Bool) → ℕ → Option ℕ → Type 0
IsFirst answers attempts none = (j : ℕ) → j < attempts → answers j ≡ false
IsFirst answers attempts (some i) =
    (i < attempts) × (answers i ≡ true) × ((j : ℕ) → j < i → answers j ≡ false)

-- The queries that the warm-up sends, and whether the last one was answered.
abbrev pub sent_up_to : Bool → ℕ → Option ℕ → ℕ × Bool
sent_up_to false attempts first = (0, false)
sent_up_to true attempts none = (attempts, false)
sent_up_to true attempts (some i) = (suc i, true)

-- The warm-up, whose queries are answered or end in a DNSException or an OSError: with the check switched off
-- it sends no query; with the check on it sends the queries up to the first one that is answered and has
-- then been answered, or, if none within the attempts is, as many as there are attempts.
pub warm_up_first :
    (enabled : Bool) (answers : ℕ → Bool) (attempts : ℕ) (first : Option ℕ)
    → IsFirst answers attempts first
    → warm_up enabled answers attempts ≡ sent_up_to enabled attempts first
unfolding warm_up IsFirst
warm_up_first false answers attempts first h = refl
warm_up_first true answers attempts none h =
    warm_up_loop_none answers 0 attempts (λ j early. h j (omega arith))
    ∙ ap (λ n. (n, false)) (omega arith)
warm_up_first true answers attempts (some i) (within, hit, early) =
    warm_up_loop_first answers 0 attempts i (omega arith) (omega arith) early hit
