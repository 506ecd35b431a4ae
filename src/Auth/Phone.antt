-- ===== src/Auth/Phone.antt =====
-- The canonical form of a phone number (internal/phonenorm, internal/auth/phone.go).
pub mod Canonical
use cozy_backend.Base.{
  ℕ, suc, Bool, true, false, not, ◌&&◌, ◌||◌, Option, none, some, List, [], ◌∷◌, ◌++◌, leb, ◌==◌,
  if◌then◌else◌, length,
}
use cozy_backend.Apperr.{Result, ok, err, invalid_phone}
use cozy_backend.Schema.Text.{Text, has_prefix, trim_space}

abbrev pub is_digit : ℕ → Bool
is_digit c = leb b'0' c && leb c b'9'

-- `nonDigitRe.ReplaceAllString(raw, "")`
abbrev pub digits_of : Text → Text
digits_of [] = []
digits_of (c ∷ cs) = let rest = digits_of cs in if is_digit c then c ∷ rest else rest

abbrev pub all_digits : Text → Bool
all_digits [] = true
all_digits (c ∷ cs) = is_digit c && all_digits cs

-- `intlPhoneRe`: 996 and nine digits.
abbrev pub is_intl : Text → Bool
is_intl s = has_prefix (b'9' ∷ b'9' ∷ b'6' ∷ []) s && all_digits s && length s == 12

-- `localPhoneRe`: a zero and nine digits.
abbrev pub is_local : Text → Bool
is_local s = has_prefix (b'0' ∷ []) s && all_digits s && length s == 10

abbrev pub starts_nonzero : Text → Bool
starts_nonzero [] = false
starts_nonzero (c ∷ cs) = leb b'1' c && leb c b'9'

-- `nationalPhoneRe`: nine digits, no zero in front.
abbrev pub is_national : Text → Bool
is_national s = starts_nonzero s && all_digits s && length s == 9

abbrev pub tail : Text → Text
tail [] = []
tail (c ∷ cs) = cs

abbrev pub country_code : Text
country_code = b'+' ∷ b'9' ∷ b'9' ∷ b'6' ∷ []

abbrev pub has_plus : Text → Bool
has_plus raw = has_prefix (b'+' ∷ []) (trim_space raw)

-- The cases of `E164`, for the digits of a text and whether it starts with a plus sign.
abbrev pub e164_digits : Text → Bool → Option Text
e164_digits digits plus =
    if is_intl digits
    then some (b'+' ∷ digits)
    else if is_local digits
    then some (country_code ++ tail digits)
    else if is_national digits && not plus
    then some (country_code ++ digits)
    else none

-- `E164`
unfoldable pub e164 : Text → Option Text
e164 raw = e164_digits (digits_of raw) (has_plus raw)

abbrev pub phone_result : Option Text → Result Text
phone_result none = err invalid_phone
phone_result (some phone) = ok phone

-- `NormalizePhone`
unfoldable pub normalize_phone : Text → Result Text
unfolding e164
normalize_phone raw = phone_result (e164 raw)

-- `forNikita`: without the plus sign.
abbrev pub for_nikita : Text → Text
for_nikita phone = tail phone
