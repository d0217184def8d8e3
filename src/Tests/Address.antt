-- ===== src/Tests/Address.antt =====
-- The theorems on the format of an address and on the address derived from a name.
use mad_devs_transport_shari.Prelude.{
  ℕ, ◌≡◌, ◌≤◌, ◌↔◌, refl, Option, none, some, List, [], ◌∷◌, length, if◌then◌else◌, leb, ◌+◌,
}
use mad_devs_transport_shari.Outcome.{ok}
use mad_devs_transport_shari.AddressFormat.{
  codes, FormatProblem, whitespace, at_sign, local_part, domain, email_problem, has_whitespace,
  is_whitespace, count_of, split, both_parts, is_bad_domain, starts_with_dot, ends_with_dot,
  has_double_dot,
}
use mad_devs_transport_shari.AddressFormat.Rule.{IsAddress, email_problem_rule}
use mad_devs_transport_shari.StubAddress.{
  TextOps, address_for, slug_of, translit_all, translit, hyphenated, strip_left, strip_right, take,
}
use mad_devs_transport_shari.StubAddress.Format.{address_for_accepted}

accepts_address : email_problem (codes "asel@mail.kg") ≡ ok none
unfolding email_problem has_whitespace is_whitespace count_of split both_parts is_bad_domain
    starts_with_dot ends_with_dot has_double_dot
accepts_address = refl

refuses_blank : email_problem (codes "asel b@mail.kg") ≡ ok (some whitespace)
unfolding email_problem has_whitespace is_whitespace
refuses_blank = refl

refuses_two : email_problem (codes "a@b@mail.kg") ≡ ok (some at_sign)
unfolding email_problem has_whitespace is_whitespace count_of
refuses_two = refl

refuses_no_name : email_problem (codes "@mail.kg") ≡ ok (some local_part)
unfolding email_problem has_whitespace is_whitespace count_of split both_parts
refuses_no_name = refl

refuses_dots : email_problem (codes "asel@mail..kg") ≡ ok (some domain)
unfolding email_problem has_whitespace is_whitespace count_of split both_parts is_bad_domain
    starts_with_dot ends_with_dot has_double_dot
refuses_dots = refl

email_problem_rule_example :
    (problem : Option FormatProblem) × (email_problem (codes "asel@mail.kg") ≡ ok problem)
    × ((problem ≡ none) ↔ IsAddress (codes "asel@mail.kg"))
email_problem_rule_example = email_problem_rule (codes "asel@mail.kg")

-- Lower-casing of the Cyrillic capitals; nothing is decomposed.
abbrev lower : List ℕ → List ℕ
lower [] = []
lower (c ∷ text) = (if (leb 1040 c) then (if leb c 1071 then c + 32 else c) else c) ∷ lower text

abbrev pub plain_texts : TextOps
plain_texts = record { lowered = lower; decomposed = λ text. text }

stub_of_name : address_for plain_texts (codes "Юля К.") ≡ codes "yulya-k@example.invalid"
unfolding address_for slug_of translit_all translit hyphenated strip_left strip_right take
stub_of_name = refl

address_for_accepted_example :
    (email_problem (address_for plain_texts (codes "Юля К.")) ≡ ok none)
    × (length (address_for plain_texts (codes "Юля К.")) ≤ 80)
address_for_accepted_example = address_for_accepted plain_texts (codes "Юля К.")
