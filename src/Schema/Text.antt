-- ===== src/Schema/Text.antt =====
-- Text as a list of code points, and the identifiers that arrive as text.
use Prim.Native.Char.{code}
use Prim.Native.String.{String}
use cozy_backend.Base.{
  ℕ, ◌+◌, ◌≡◌, refl, Bool, true, false, ◌&&◌, ◌||◌, List, [], ◌∷◌, arith, ltb, leb, ◌==◌,
  if◌then◌else◌,
}

abbrev pub Text : Type 0
Text = List ℕ

-- The code points of a literal.
abbrev pub codes : String → Text
codes String.[] = []
codes (String.◌∷◌ c s) = code c ∷ codes s

unfoldable pub same_text : Text → Text → Bool
same_text [] [] = true
same_text [] (d ∷ ds) = false
same_text (c ∷ cs) [] = false
same_text (c ∷ cs) (d ∷ ds) = c == d && same_text cs ds

pub same_text_refl : (s : Text) → same_text s s ≡ true
unfolding same_text
same_text_refl [] = refl
same_text_refl (c ∷ cs) = ground (arith, same_text_refl cs)

pub eq_of_same_text : (s t : Text) → same_text s t ≡ true → s ≡ t
unfolding same_text
eq_of_same_text [] [] h = refl
eq_of_same_text [] (d ∷ ds) h = ground arith
eq_of_same_text (c ∷ cs) [] h = ground arith
eq_of_same_text (c ∷ cs) (d ∷ ds) h = ground (arith, eq_of_same_text cs ds)

-- `LIKE 'prefix%'`, for a prefix without wildcards
unfoldable pub has_prefix : Text → Text → Bool
has_prefix [] s = true
has_prefix (c ∷ cs) [] = false
has_prefix (c ∷ cs) (d ∷ ds) = c == d && has_prefix cs ds

-- An identifier as a request carries it, by what `uuid.Validate` says of it: the number that a
-- UUID in its canonical form stands for (its text order is the order of the numbers), or any
-- other text.
pub data IdText : Type 0 where
  uuid : ℕ → IdText
  other : Text → IdText

-- `id == ""`
abbrev pub is_blank : IdText → Bool
is_blank (other []) = true
is_blank (other (_ ∷ _)) = false
is_blank (uuid _) = false

-- `unicode.IsSpace`
unfoldable pub is_space : ℕ → Bool
is_space c =
    (leb 9 c && leb c 13)
    || c == 32
    || c == 0x85
    || c == 0xa0
    || c == 0x1680
    || (leb 0x2000 c && leb c 0x200a)
    || c == 0x2028
    || c == 0x2029
    || c == 0x202f
    || c == 0x205f
    || c == 0x3000

unfoldable pub trim_left : Text → Text
trim_left [] = []
trim_left (c ∷ cs) = let rest = trim_left cs in if is_space c then rest else c ∷ cs

-- Drops the spaces at the end: a space stays if something is left after it.
unfoldable pub trim_right_cons : ℕ → Text → Text
trim_right_cons c [] = if is_space c then [] else c ∷ []
trim_right_cons c (d ∷ ds) = c ∷ d ∷ ds

unfoldable pub trim_right : Text → Text
unfolding trim_right_cons
trim_right [] = []
trim_right (c ∷ cs) = trim_right_cons c (trim_right cs)

-- `strings.TrimSpace`
unfoldable pub trim_space : Text → Text
unfolding trim_left trim_right
trim_space s = trim_right (trim_left s)

-- How many bytes UTF-8 takes for a code point.
abbrev pub rune_len : ℕ → ℕ
rune_len c = if ltb c 0x80 then 1 else if ltb c 0x800 then 2 else if ltb c 0x10000 then 3 else 4

-- `len(s)`
abbrev pub byte_len : Text → ℕ
byte_len [] = 0
byte_len (c ∷ cs) = rune_len c + byte_len cs
