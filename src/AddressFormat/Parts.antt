-- ===== src/AddressFormat/Parts.antt =====
-- Lists of code points: the parts of a split text (Python's str.split) and the text they make.
use mad_devs_transport_shari.Prelude.{
  ℕ, suc, ◌≡◌, ◌≤◌, refl, ap, subst, ◌∙◌, List, [], ◌∷◌, ◌++◌, length, All, ◌==◌, arith, Bool-cases,
  inl, inr,
}
use mad_devs_transport_shari.AddressFormat.{count_of, prepend, split, dot}

-- The parts with the separator between them.
abbrev pub join : ℕ → List (List ℕ) → List ℕ
join c [] = []
join c (part ∷ []) = part
join c (part ∷ (next ∷ parts)) = part ++ c ∷ join c (next ∷ parts)

abbrev pub Lacks : ℕ → List ℕ → Type 0
Lacks c value = count_of c value ≡ 0

module _ (c : ℕ) where
  pub split-nonempty :
      (value : List ℕ) → (part : List ℕ) × (parts : List (List ℕ)) × (split c value ≡ part ∷ parts)
  unfolding split
  split-nonempty [] = ([], [], refl)
  split-nonempty (d ∷ value) =
      let (part, parts, e) = split-nonempty value in
      elim (Bool-cases (d == c)) [
        | inl hit ↦ ([], split c value, rw hit refl)
        | inr miss ↦ (d ∷ part, parts, rw miss (rw e refl))
      ]

  pub join-prepend : (d : ℕ) (parts : List (List ℕ)) → join c (prepend d parts) ≡ d ∷ join c parts
  join-prepend d [] = refl
  join-prepend d (part ∷ []) = refl
  join-prepend d (part ∷ (next ∷ parts)) = refl

  pub join-split : (value : List ℕ) → join c (split c value) ≡ value
  unfolding split
  join-split [] = refl
  join-split (d ∷ value) =
      let (part, parts, e) = split-nonempty value in
      let again : join c (part ∷ parts) ≡ value =
        subst (λ ps. join c ps ≡ value) e (join-split value) in
      elim (Bool-cases (d == c)) [
        | inl hit ↦ rw hit (rw e (ground (arith, hit, again)))
        | inr miss ↦ rw miss (join-prepend d (split c value) ∙ ap (λ v. d ∷ v) (join-split value))
      ]

  pub length-split : (value : List ℕ) → length (split c value) ≡ suc (count_of c value)
  unfolding split count_of
  length-split [] = refl
  length-split (d ∷ value) =
      let (part, parts, e) = split-nonempty value in ground (arith, e, length-split value)

  pub All-split : (value : List ℕ) → All (Lacks c) (split c value)
  unfolding split count_of
  All-split [] = (refl, tt)
  All-split (d ∷ value) =
      let (part, parts, e) = split-nonempty value in
      let again : All (Lacks c) (part ∷ parts) = subst (All (Lacks c)) e (All-split value) in
      elim (Bool-cases (d == c)) [
        | inl hit ↦ rw hit (refl, All-split value)
        | inr miss ↦ rw miss (rw e (ground (arith, miss, again), again.1))
      ]

  pub split_lacking : (value : List ℕ) → Lacks c value → split c value ≡ value ∷ []
  unfolding split count_of
  split_lacking [] h = refl
  split_lacking (d ∷ value) h = ground (arith, split_lacking value)

  pub split-append :
      (part rest : List ℕ) → Lacks c part → split c (part ++ c ∷ rest) ≡ part ∷ split c rest
  unfolding split count_of
  split-append [] rest h = ground arith
  split-append (d ∷ part) rest h = ground (arith, split-append part rest)

  pub split-join :
      (part : List ℕ) (parts : List (List ℕ))
      → All (Lacks c) (part ∷ parts)
      → split c (join c (part ∷ parts)) ≡ part ∷ parts
  split-join part [] h = split_lacking part h.0
  split-join part (next ∷ parts) h =
      rw (split-append part (join c (next ∷ parts)) h.0) (rw (split-join next parts h.1) refl)

pub split-join-All :
    (parts : List (List ℕ))
    → 2 ≤ length parts
    → All (Lacks dot) parts
    → split dot (join dot parts) ≡ parts
split-join-All [] h lacks = absurd (omega (arith, h))
split-join-All (part ∷ parts) h lacks = split-join dot part parts lacks
