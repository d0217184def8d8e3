-- ===== src/AddressFormat.antt =====
-- backend/app/services/mail.py, `email_problem`: the format of an address, which is the list of its
-- code points.
pub mod Parts
pub mod Labels
pub mod Rule
use mad_devs_transport_shari.Prelude.{
  ℕ, ◌+◌, Bool, true, false, not, ◌&&◌, ◌||◌, Option, none, some, List, [], ◌∷◌, length, ◌==◌, leb,
  ltb, bit, if◌then◌else◌,
}
use mad_devs_transport_shari.Text.{String}
use mad_devs_transport_shari.Outcome.{Outcome, ok, raise, fault, value_error, ◌>>=◌}
use Prim.Native.Char.{code}

abbrev pub codes : String → List ℕ
codes String.[] = []
codes (String.◌∷◌ c s) = code c ∷ codes s

abbrev pub at_code : ℕ
at_code = 64

abbrev pub dot : ℕ
dot = 46

abbrev pub email_max_length : ℕ
email_max_length = 254

pub data FormatProblem : Type 0 where
  whitespace too_long at_sign local_part domain : FormatProblem

-- The characters of `_WHITESPACE`.
unfoldable pub is_whitespace : ℕ → Bool
is_whitespace c =
    (leb 9 c && leb c 13)
    || c == 32
    || c == 133
    || c == 160
    || c == 5760
    || (leb 8192 c && leb c 8202)
    || c == 8232
    || c == 8233
    || c == 8239
    || c == 8287
    || c == 12288
    || c == 65279

-- `_WHITESPACE.search(value)`
unfoldable pub has_whitespace : List ℕ → Bool
has_whitespace [] = false
has_whitespace (c ∷ value) = is_whitespace c || has_whitespace value

-- `value.count(c)`
unfoldable pub count_of : ℕ → List ℕ → ℕ
count_of c [] = 0
count_of c (d ∷ value) = bit (d == c) + count_of c value

-- A character in front of the first part.
abbrev pub prepend : ℕ → List (List ℕ) → List (List ℕ)
prepend c [] = (c ∷ []) ∷ []
prepend c (part ∷ parts) = (c ∷ part) ∷ parts

-- `value.split(c)`
unfoldable pub split : ℕ → List ℕ → List (List ℕ)
split c [] = [] ∷ []
split c (d ∷ value) = let rest = split c value in if d == c then [] ∷ rest else prepend d rest

-- `local_part, domain = parts`
unfoldable pub both_parts : List (List ℕ) → Outcome (List ℕ × List ℕ)
both_parts (a ∷ b ∷ []) = ok (a, b)
both_parts (a ∷ b ∷ c ∷ parts) = raise (fault value_error)
both_parts (a ∷ []) = raise (fault value_error)
both_parts [] = raise (fault value_error)

abbrev pub is_empty : List ℕ → Bool
is_empty [] = true
is_empty (c ∷ value) = false

-- `value.startswith(".")`
unfoldable pub starts_with_dot : List ℕ → Bool
starts_with_dot [] = false
starts_with_dot (c ∷ value) = c == dot

-- `value.endswith(".")`
unfoldable pub ends_with_dot : List ℕ → Bool
ends_with_dot [] = false
ends_with_dot (c ∷ value) = if is_empty value then c == dot else ends_with_dot value

-- `".." in value`
unfoldable pub has_double_dot : List ℕ → Bool
has_double_dot [] = false
has_double_dot (c ∷ value) = (c == dot && starts_with_dot value) || has_double_dot value

unfoldable pub is_bad_domain : List ℕ → Bool
is_bad_domain name =
    count_of dot name == 0 || starts_with_dot name || ends_with_dot name || has_double_dot name

unfoldable pub email_problem : List ℕ → Outcome (Option FormatProblem)
email_problem value =
    if has_whitespace value
    then ok (some whitespace)
    else if ltb email_max_length (length value)
    then ok (some too_long)
    else if not (count_of at_code value == 1)
    then ok (some at_sign)
    else (both_parts (split at_code value) >>= λ (local_name, name).
        if is_empty local_name
        then ok (some local_part)
        else if is_bad_domain name
        then ok (some domain)
        else ok none)
