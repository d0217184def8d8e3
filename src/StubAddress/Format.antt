-- ===== src/StubAddress/Format.antt =====
-- backend/app/services/mail.py: the format of the address that `address_for` makes.
use mad_devs_transport_shari.Prelude.{
  ℕ, zero, suc, ◌≡◌, ◌≤◌, refl, Bool, true, false, ◌&&◌, ◌||◌, none, List, [], ◌∷◌, ◌++◌, filter_by,
  length, length-append, All, All-append, ◌==◌, ltb, arith, Bool-cases, inl, inr, if◌then◌else◌,
}
use mad_devs_transport_shari.Outcome.{ok}
use mad_devs_transport_shari.AddressFormat.{
  codes, is_empty, at_code, has_whitespace, is_whitespace, count_of, email_problem,
}
use mad_devs_transport_shari.AddressFormat.Rule.{
  IsAddress, email_problem_accepts, has_whitespace-All,
}
use mad_devs_transport_shari.StubAddress.{
  TextOps, is_slug_char, hyphen, hyphenated, strip_left, strip_right, take, slug_of, address_for,
  mail_domain, local_part_max, translit_all,
}

-- A lower-case letter, a digit or a hyphen.
abbrev IsPlain : ℕ → Type 0
IsPlain c = (is_slug_char c || c == hyphen) ≡ true

hyphenated-All : (inside : Bool) (text : List ℕ) → All IsPlain (hyphenated inside text)
unfolding hyphenated
hyphenated-All inside [] = tt
hyphenated-All inside (c ∷ text) = elim (Bool-cases (is_slug_char c)) [
  | inl kept ↦ rw kept (ground (arith, kept), hyphenated-All false text)
  | inr other ↦ rw other (elim (Bool-cases inside) [
    | inl run ↦ rw run (hyphenated-All true text)
    | inr first ↦ rw first (refl, hyphenated-All true text)
  ])
]

strip_left-All : (text : List ℕ) → All IsPlain text → All IsPlain (strip_left text)
unfolding strip_left
strip_left-All [] h = tt
strip_left-All (c ∷ text) h = elim (Bool-cases (c == hyphen)) [
  | inl hit ↦ rw hit (strip_left-All text h.1)
  | inr miss ↦ rw miss h
]

strip_right-All : (text : List ℕ) → All IsPlain text → All IsPlain (strip_right text)
unfolding strip_right
strip_right-All [] h = tt
strip_right-All (c ∷ text) h = elim (Bool-cases (is_empty (strip_right text) && c == hyphen)) [
  | inl hit ↦ rw hit tt
  | inr miss ↦ rw miss (h.0, strip_right-All text h.1)
]

take-All : (n : ℕ) (text : List ℕ) → All IsPlain text → All IsPlain (take n text)
unfolding take
take-All zero text h = tt
take-All (suc n) [] h = tt
take-All (suc n) (c ∷ text) h = (h.0, take-All n text h.1)

length-take : (n : ℕ) (text : List ℕ) → length (take n text) ≤ n
unfolding take
length-take zero text = omega arith
length-take (suc n) [] = omega arith
length-take (suc n) (c ∷ text) = omega (arith, length-take n text)

length-strip_right : (text : List ℕ) → length (strip_right text) ≤ length text
unfolding strip_right
length-strip_right [] = omega arith
length-strip_right (c ∷ text) = ground (arith, length-strip_right text)

All-count_of : (text : List ℕ) → All IsPlain text → count_of at_code text ≡ 0
unfolding count_of
All-count_of [] h = refl
All-count_of (c ∷ text) h = ground (arith, h.0, All-count_of text h.1)

IsPlain-unspaced : (text : List ℕ) → All IsPlain text → All (λ c. is_whitespace c ≡ false) text
unfolding is_whitespace
IsPlain-unspaced [] h = tt
IsPlain-unspaced (c ∷ text) h = (ground (arith, h.0), IsPlain-unspaced text h.1)

-- The part before the "@".
local_of : List ℕ → List ℕ
local_of slug = if is_empty slug then codes "user" else slug

local_of-IsAddress :
    (slug : List ℕ)
    → All IsPlain slug
    → length slug ≤ local_part_max
    → IsAddress (local_of slug ++ at_code ∷ mail_domain)
unfolding local_of is_whitespace has_whitespace count_of
local_of-IsAddress [] h short = record {
  local_name = codes "user";
  labels = codes "example" ∷ codes "invalid" ∷ [];
  spelled = refl;
  named = refl;
  local_lacks = refl;
  domain_lacks = refl;
  several = omega arith;
  filled = ((refl, refl), ((refl, refl), tt));
  unspaced = has_whitespace-All (codes "user" ++ at_code ∷ mail_domain) refl;
  short = omega arith;
}
local_of-IsAddress (c ∷ slug) h short = record {
  local_name = c ∷ slug;
  labels = codes "example" ∷ codes "invalid" ∷ [];
  spelled = refl;
  named = refl;
  local_lacks = All-count_of (c ∷ slug) h;
  domain_lacks = refl;
  several = omega arith;
  filled = ((refl, refl), ((refl, refl), tt));
  unspaced =
      All-append (λ d. is_whitespace d ≡ false) (c ∷ slug) (at_code ∷ mail_domain)
        (IsPlain-unspaced (c ∷ slug) h) (has_whitespace-All (at_code ∷ mail_domain) refl);
  short = omega (arith, short, length-append (c ∷ slug) (at_code ∷ mail_domain));
}

local_of-short :
    (slug : List ℕ)
    → length slug ≤ local_part_max
    → length (local_of slug ++ at_code ∷ mail_domain) ≤ 80
unfolding local_of
local_of-short [] short = omega arith
local_of-short (c ∷ slug) short =
    omega (arith, short, length-append (c ∷ slug) (at_code ∷ mail_domain))

-- The address derived from a name is well-formed, whatever the characters of the name are, and has at
-- most 80 characters.
pub address_for_accepted :
    (ops : TextOps) (name : List ℕ)
    → (email_problem (address_for ops name) ≡ ok none) × (length (address_for ops name) ≤ 80)
unfolding address_for slug_of local_of
address_for_accepted ops name =
    let ascii_only =
      filter_by (λ c. ltb c 128) (ops.decomposed (translit_all (ops.lowered name))) in
    let kept = strip_right (strip_left (hyphenated false ascii_only)) in
    let cut = take local_part_max kept in
    let plain = strip_right-All cut (
      take-All local_part_max kept (
        strip_right-All (strip_left (hyphenated false ascii_only))
          (strip_left-All (hyphenated false ascii_only) (hyphenated-All false ascii_only)))) in
    let short : length (strip_right cut) ≤ local_part_max =
      omega (arith, length-take local_part_max kept, length-strip_right cut) in
    (
      email_problem_accepts (address_for ops name)
          (local_of-IsAddress (strip_right cut) plain short),
      local_of-short (strip_right cut) short,
    )
