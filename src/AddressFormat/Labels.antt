-- ===== src/AddressFormat/Labels.antt =====
-- backend/app/services/mail.py: the tests of `email_problem` on a domain, read off its labels.
use mad_devs_transport_shari.Prelude.{
  ℕ, ◌≡◌, refl, Bool, true, false, not, ◌&&◌, ◌||◌, List, [], ◌∷◌, length, All, leb, arith,
}
use mad_devs_transport_shari.AddressFormat.{
  count_of, split, is_empty, starts_with_dot, ends_with_dot, has_double_dot, is_bad_domain, dot,
}
use mad_devs_transport_shari.AddressFormat.Parts.{Lacks, split-nonempty, length-split}

abbrev pub IsLabel : List ℕ → Type 0
IsLabel label = (is_empty label ≡ false) × Lacks dot label

-- The tests of `email_problem` on the domain, read off its labels.
pub has_all : List (List ℕ) → Bool
has_all [] = true
has_all (label ∷ labels) = not (is_empty label) && has_all labels

pub rest_filled : List (List ℕ) → Bool
unfolding has_all
rest_filled [] = true
rest_filled (label ∷ labels) = has_all labels

pub first_filled : List (List ℕ) → Bool
first_filled [] = true
first_filled (label ∷ labels) = not (is_empty label)

pub first_filled-split :
    (name : List ℕ) → first_filled (split dot name) ≡ not (is_empty name || starts_with_dot name)
unfolding split starts_with_dot first_filled
first_filled-split [] = refl
first_filled-split (c ∷ name) = let (part, parts, e) = split-nonempty dot name in ground (arith, e)

pub rest_filled-split :
    (name : List ℕ) → rest_filled (split dot name) ≡ not (ends_with_dot name || has_double_dot name)
unfolding split starts_with_dot ends_with_dot has_double_dot rest_filled has_all
rest_filled-split [] = refl
rest_filled-split (c ∷ []) = ground arith
rest_filled-split (c ∷ (d ∷ name)) =
    let (part, parts, e) = split-nonempty dot (d ∷ name) in
    ground (arith, e, rest_filled-split (d ∷ name), first_filled-split (d ∷ name))

pub has_all-first :
    (labels : List (List ℕ)) → has_all labels ≡ (first_filled labels && rest_filled labels)
unfolding has_all first_filled rest_filled
has_all-first [] = refl
has_all-first (label ∷ labels) = refl

pub count_of_empty : (name : List ℕ) → is_empty name ≡ true → count_of dot name ≡ 0
unfolding count_of
count_of_empty [] h = refl
count_of_empty (c ∷ name) h = cc

pub is_bad_domain-split :
    (name : List ℕ)
    → is_bad_domain name ≡ not (leb 2 (length (split dot name)) && has_all (split dot name))
unfolding is_bad_domain
is_bad_domain-split name = ground (
  arith,
  count_of_empty name,
  has_all-first (split dot name),
  length-split dot name,
  first_filled-split name,
  rest_filled-split name,
)

pub has_all-All :
    (labels : List (List ℕ)) → has_all labels ≡ true → All (Lacks dot) labels → All IsLabel labels
unfolding has_all
has_all-All [] h lacks = tt
has_all-All (label ∷ labels) h lacks =
    ((ground (arith, h), lacks.0), has_all-All labels (ground (arith, h)) lacks.1)

pub All-has_all :
    (labels : List (List ℕ)) → All IsLabel labels → (has_all labels ≡ true) × All (Lacks dot) labels
unfolding has_all
All-has_all [] h = (refl, tt)
All-has_all (label ∷ labels) h =
    let again = All-has_all labels h.1 in (ground (arith, h.0, again), (h.0.1, again.1))
