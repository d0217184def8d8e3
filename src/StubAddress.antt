-- ===== src/StubAddress.antt =====
-- backend/app/services/mail.py, `address_for` and `recipient_address`: the address derived from the name
-- of a user. `lowered` of `TextOps` is `strip` and `lower`, `decomposed` Unicode's NFKD.
pub mod Format
use mad_devs_transport_shari.Prelude.{
  ℕ, zero, suc, Bool, true, false, not, ◌&&◌, ◌||◌, Option, none, some, List, [], ◌∷◌, ◌++◌,
  filter_by, ◌==◌, leb, ltb, if◌then◌else◌,
}
use mad_devs_transport_shari.Text.{String}
use mad_devs_transport_shari.AddressFormat.{codes, is_empty, at_code}

pub record TextOps : Type 0 where
  pub lowered : List ℕ → List ℕ
  pub decomposed : List ℕ → List ℕ

abbrev pub mail_domain : List ℕ
mail_domain = codes "example.invalid"

abbrev pub local_part_max : ℕ
local_part_max = 64

-- The Cyrillic letters of `_TRANSLIT` with their Latin texts; any other character is kept.
abbrev translit_table : List (ℕ × List ℕ)
translit_table =
    (1072, codes "a")
    ∷ (1073, codes "b")
    ∷ (1074, codes "v")
    ∷ (1075, codes "g")
    ∷ (1076, codes "d")
    ∷ (1077, codes "e")
    ∷ (1105, codes "yo")
    ∷ (1078, codes "zh")
    ∷ (1079, codes "z")
    ∷ (1080, codes "i")
    ∷ (1081, codes "y")
    ∷ (1082, codes "k")
    ∷ (1083, codes "l")
    ∷ (1084, codes "m")
    ∷ (1085, codes "n")
    ∷ (1086, codes "o")
    ∷ (1087, codes "p")
    ∷ (1088, codes "r")
    ∷ (1089, codes "s")
    ∷ (1090, codes "t")
    ∷ (1091, codes "u")
    ∷ (1092, codes "f")
    ∷ (1093, codes "kh")
    ∷ (1094, codes "ts")
    ∷ (1095, codes "ch")
    ∷ (1096, codes "sh")
    ∷ (1097, codes "shch")
    ∷ (1098, [])
    ∷ (1099, codes "y")
    ∷ (1100, [])
    ∷ (1101, codes "e")
    ∷ (1102, codes "yu")
    ∷ (1103, codes "ya")
    ∷ (1187, codes "ng")
    ∷ (1257, codes "o")
    ∷ (1199, codes "u")
    ∷ []

-- `_TRANSLIT.get(ch, ch)`
unfoldable pub translit : List (ℕ × List ℕ) → ℕ → List ℕ
translit [] c = c ∷ []
translit ((letter, latin) ∷ table) c = if letter == c then latin else translit table c

-- `"".join(...)`
unfoldable pub translit_all : List ℕ → List ℕ
translit_all [] = []
translit_all (c ∷ text) = translit translit_table c ++ translit_all text

-- `[a-z0-9]`
abbrev pub is_slug_char : ℕ → Bool
is_slug_char c = (leb 97 c && leb c 122) || (leb 48 c && leb c 57)

abbrev pub hyphen : ℕ
hyphen = 45

-- `re.sub(r"[^a-z0-9]+", "-", text)`; the flag says that the last character belongs to the same run.
unfoldable pub hyphenated : Bool → List ℕ → List ℕ
hyphenated inside [] = []
hyphenated inside (c ∷ text) =
    let kept = hyphenated false text in
    let dropped = hyphenated true text in
    if is_slug_char c then c ∷ kept else if inside then dropped else hyphen ∷ dropped

-- `text.lstrip("-")`
unfoldable pub strip_left : List ℕ → List ℕ
strip_left [] = []
strip_left (c ∷ text) = if c == hyphen then strip_left text else c ∷ text

-- `text.rstrip("-")`
unfoldable pub strip_right : List ℕ → List ℕ
strip_right [] = []
strip_right (c ∷ text) =
    let rest = strip_right text in if is_empty rest && c == hyphen then [] else c ∷ rest

-- `text[:n]`
unfoldable pub take : ℕ → List ℕ → List ℕ
take zero text = []
take (suc n) [] = []
take (suc n) (c ∷ text) = c ∷ take n text

module _ (ops : TextOps) where
  unfoldable pub slug_of : List ℕ → List ℕ
  slug_of name =
      let latin = translit_all (ops.lowered name) in
      let ascii_only = filter_by (λ c. ltb c 128) (ops.decomposed latin) in
      strip_right (take local_part_max (strip_right (strip_left (hyphenated false ascii_only))))

  unfoldable pub address_for : List ℕ → List ℕ
  address_for name =
      let slug = slug_of name in
      (if is_empty slug then codes "user" else slug) ++ at_code ∷ mail_domain

  -- `user.email or address_for(user.name)`, for an account or a legacy row
  unfoldable pub recipient_address : Option String → String → List ℕ
  recipient_address none name = address_for (codes name)
  recipient_address (some email) name =
      if is_empty (codes email) then address_for (codes name) else codes email
