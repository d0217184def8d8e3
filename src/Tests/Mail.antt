-- ===== src/Tests/Mail.antt =====
-- The theorems on the check of a mail domain, at a domain with an A record alone.
use mad_devs_transport_shari.Prelude.{
  ℕ, suc, ◌≤◌, ◌≡◌, refl, Bool, true, false, not, ◌&&◌, ◌||◌, none, some, [], ◌∷◌, ◌++◌, arith,
  if◌then◌else◌, leb,
}
use mad_devs_transport_shari.MailDomain.{
  RecordType, Reply, records, no_answer, no_mail_server, mx, a, aaaa, records_of,
  has_real_exchanger, mail_domain_problem, warm_up,
}
use mad_devs_transport_shari.MailDomain.Rule.{
  non_empty, mail_domain_problem_rfc, warm_up_first, IsFirst,
}

abbrev one_host : RecordType → Reply
one_host mx = no_answer
one_host a = records ("192.0.2.1" ∷ [])
one_host aaaa = no_answer

mail_domain_problem_rfc_example : mail_domain_problem one_host ≡ (
    if has_real_exchanger [] || (not (non_empty []) && non_empty (("192.0.2.1" ∷ []) ++ []))
    then none
    else some no_mail_server)
unfolding records_of
mail_domain_problem_rfc_example =
    mail_domain_problem_rfc one_host [] ("192.0.2.1" ∷ []) [] refl refl refl

-- DNS answers the fourth query.
abbrev awake : ℕ → Bool
awake attempt = leb 3 attempt

asleep : (j : ℕ) → suc j ≤ 3 → awake j ≡ false
asleep j h = ground (arith, h)

warm_up_first_example : warm_up true awake 30 ≡ (4, true)
unfolding IsFirst
warm_up_first_example = warm_up_first true awake 30 (some 3) (omega arith, refl, asleep)
