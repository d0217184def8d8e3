-- ===== src/AddressFormat/Rule.antt =====
-- backend/app/services/mail.py: what `email_problem` accepts, told without its tests.
use mad_devs_transport_shari.Prelude.{
  ℕ, suc, ◌≡◌, ◌≢◌, ◌≤◌, ◌↔◌, refl, sym, ap, subst, ◌∙◌, true, false, ◌&&◌, Option, none, List, [],
  ◌∷◌, ◌++◌, length, All, ◌==◌, leb, arith, Bool-cases, inl, inr,
}
use mad_devs_transport_shari.Outcome.{Outcome, ok, raise, Error}
use mad_devs_transport_shari.AddressFormat.{
  FormatProblem, is_whitespace, has_whitespace, count_of, split, both_parts, is_empty,
  is_bad_domain, email_problem, at_code, dot, email_max_length,
}
use mad_devs_transport_shari.AddressFormat.Parts.{
  join, Lacks, join-split, length-split, All-split, split_lacking, split-append, split-join-All,
}
use mad_devs_transport_shari.AddressFormat.Labels.{
  IsLabel, has_all, is_bad_domain-split, has_all-All, All-has_all,
}

-- A local part and a name of at least two labels, with one "@" between them.
pub record IsAddress (value : List ℕ) : Type 0 where
  pub local_name : List ℕ
  pub labels : List (List ℕ)
  pub spelled : value ≡ local_name ++ at_code ∷ join dot labels
  pub named : is_empty local_name ≡ false
  pub local_lacks : Lacks at_code local_name
  pub domain_lacks : Lacks at_code (join dot labels)
  pub several : 2 ≤ length labels
  pub filled : All IsLabel labels
  pub unspaced : All (λ c. is_whitespace c ≡ false) value
  pub short : length value ≤ email_max_length

pub has_whitespace-All :
    (value : List ℕ) → has_whitespace value ≡ false → All (λ c. is_whitespace c ≡ false) value
unfolding has_whitespace
has_whitespace-All [] h = tt
has_whitespace-All (c ∷ value) h = (ground (arith, h), has_whitespace-All value (ground (arith, h)))

All-has_whitespace :
    (value : List ℕ) → All (λ c. is_whitespace c ≡ false) value → has_whitespace value ≡ false
unfolding has_whitespace
All-has_whitespace [] h = refl
All-has_whitespace (c ∷ value) h = ground (arith, h.0, All-has_whitespace value h.1)

two_of {ℓ} : {A : Type ℓ} (xs : List A) → length xs ≡ 2 → (a : A) × (b : A) × (xs ≡ a ∷ b ∷ [])
two_of [] h = absurd (omega (arith, h))
two_of (a ∷ []) h = absurd (omega (arith, h))
two_of (a ∷ b ∷ []) h = (a, b, refl)
two_of (a ∷ b ∷ c ∷ xs) h = absurd (omega (arith, h))

-- What is left after the two tests on the whole text.
two_parts :
    (value : List ℕ)
    → count_of at_code value ≡ 1
    → (a : List ℕ) × (b : List ℕ) × (split at_code value ≡ a ∷ b ∷ [])
      × (value ≡ a ++ at_code ∷ b)
      × Lacks at_code a
      × Lacks at_code b
two_parts value once =
    let (a, b, e) = two_of (split at_code value) (length-split at_code value ∙ ap suc once) in
    let lacks : All (Lacks at_code) (a ∷ b ∷ []) =
      subst (All (Lacks at_code)) e (All-split at_code value) in
    (
      a,
      b,
      e,
      sym (subst (λ ps. join at_code ps ≡ value) e (join-split at_code value)),
      lacks.0,
      lacks.1.0,
    )

-- From the labels of an address, the tests that it passes.
module _ (value : List ℕ) (v : IsAddress value) where
  pub address-split : split at_code value ≡ v.local_name ∷ join dot v.labels ∷ []
  address-split = rw v.spelled (
      split-append at_code v.local_name (join dot v.labels) v.local_lacks
      ∙ ap (λ ps. v.local_name ∷ ps) (split_lacking at_code (join dot v.labels) v.domain_lacks))

  address-count : count_of at_code value ≡ 1
  address-count = ground (arith, length-split at_code value, address-split)

  address-domain : is_bad_domain (join dot v.labels) ≡ false
  address-domain =
      let again = All-has_all v.labels v.filled in
      rw (is_bad_domain-split (join dot v.labels))
        (rw (split-join-All v.labels v.several again.1) (ground (arith, again.0, v.several)))

email_problem_clean :
    (value : List ℕ)
    → email_problem value ≡ ok none
    → (has_whitespace value ≡ false)
      × (length value ≤ email_max_length)
      × (count_of at_code value ≡ 1)
unfolding email_problem
email_problem_clean value h = ground (arith, h)

email_problem_parts :
    (value a b : List ℕ)
    → split at_code value ≡ a ∷ b ∷ []
    → email_problem value ≡ ok none
    → (is_empty a ≡ false) × (is_bad_domain b ≡ false)
unfolding email_problem both_parts
email_problem_parts value a b e h = ground (arith, h, e)

email_problem_accepted : (value : List ℕ) → email_problem value ≡ ok none → IsAddress value
email_problem_accepted value h =
    let (clean, short, once) = email_problem_clean value h in
    let (a, b, e, spelled, la, lb) = two_parts value once in
    let (named, good) = email_problem_parts value a b e h in
    let labels = split dot b in
    let tests : (leb 2 (length labels) && has_all labels) ≡ true =
      ground (arith, good, is_bad_domain-split b) in
    record {
      local_name = a;
      labels = labels;
      spelled = rw (join-split dot b) spelled;
      named = named;
      local_lacks = la;
      domain_lacks = rw (join-split dot b) lb;
      several = ground (arith, tests);
      filled = has_all-All labels (ground (arith, tests)) (All-split dot b);
      unspaced = has_whitespace-All value clean;
      short = short;
    }

pub email_problem_accepts : (value : List ℕ) → IsAddress value → email_problem value ≡ ok none
unfolding email_problem both_parts
email_problem_accepts value v = ground (
  arith,
  All-has_whitespace value v.unspaced,
  v.short,
  v.named,
  address-split value v,
  address-count value v,
  address-domain value v,
)

-- A value that is no exception.
value_of {ℓ} : {A : Type ℓ} (m : Outcome A) → ((e : Error) → m ≢ raise e) → (a : A) × (m ≡ ok a)
value_of (ok a) h = (a, refl)
value_of (raise e) h = absurd (h e refl)

email_problem_raises_not : (value : List ℕ) (e : Error) → email_problem value ≢ raise e
unfolding email_problem both_parts
email_problem_raises_not value e h = elim (Bool-cases (count_of at_code value == 1)) [
  | inl once ↦
      let (a, b, parts, spelled, la, lb) = two_parts value (ground (arith, once)) in
      ground (arith, h, once, parts)
  | inr more ↦ ground (arith, h, more)
]

-- `email_problem` always gives an answer, and finds no problem exactly in a text with a local part,
-- one "@" and a name of at least two labels, none of them empty, that dots separate, if no character
-- of it is whitespace and it has at most 254 characters.
pub email_problem_rule :
    (value : List ℕ)
    → (problem : Option FormatProblem) × (email_problem value ≡ ok problem)
      × ((problem ≡ none) ↔ IsAddress value)
email_problem_rule value =
    let (problem, answers) = value_of (email_problem value) (email_problem_raises_not value) in
    (
      problem,
      answers,
      (
        λ e. email_problem_accepted value (answers ∙ ap ok e),
        λ v. ground (arith, answers, email_problem_accepts value v),
      ),
    )
