-- ===== src/Auth/Phone/Canonical.antt =====
-- The canonical form of a phone number is one form (E164 in internal/phonenorm/phonenorm.go).
use cozy_backend.Base.{
  ◌≡◌, refl, ap, Bool, true, not, ◌&&◌, none, some, [], ◌∷◌, ◌++◌, arith, Bool-cases, inl, inr,
  length,
}
use cozy_backend.Schema.Text.{Text, has_prefix}
use cozy_backend.Auth.Phone.{
  digits_of, is_digit, all_digits, is_intl, is_local, is_national, tail, country_code, has_plus,
  e164_digits, e164,
}

-- A plus sign, 996 and nine digits.
abbrev pub IsCanonical : Text → Type 0
IsCanonical p = (ds : Text) × (p ≡ b'+' ∷ ds) × (is_intl ds ≡ true)

digits_of-all : (s : Text) → all_digits s ≡ true → digits_of s ≡ s
digits_of-all [] h = refl
digits_of-all (c ∷ cs) h =
    let first : is_digit c ≡ true = ground (arith, h) in
    let rest : all_digits cs ≡ true = ground (arith, h) in
    rw first (ap (λ xs. c ∷ xs) (digits_of-all cs rest))

local_intl : (s : Text) → is_local s ≡ true → is_intl (b'9' ∷ b'9' ∷ b'6' ∷ tail s) ≡ true
unfolding has_prefix
local_intl [] h = ground (arith, h)
local_intl (c ∷ cs) h = ground (arith, h)

national_intl : (s : Text) → is_national s ≡ true → is_intl (b'9' ∷ b'9' ∷ b'6' ∷ s) ≡ true
unfolding has_prefix
national_intl s h = ground (arith, h)

e164_digits-IsCanonical :
    (digits : Text) (plus : Bool) (p : Text) → e164_digits digits plus ≡ some p → IsCanonical p
e164_digits-IsCanonical digits plus p e = elim (Bool-cases (is_intl digits)) [
  | inl intl ↦ let s : some (b'+' ∷ digits) ≡ some p = rw intl at e in (digits, cc, intl)
  | inr not_intl ↦ elim (Bool-cases (is_local digits)) [
    | inl here ↦
        let s : some (country_code ++ tail digits) ≡ some p = rw (not_intl, here) at e in
        (b'9' ∷ b'9' ∷ b'6' ∷ tail digits, cc, local_intl digits here)
    | inr not_local ↦ elim (Bool-cases (is_national digits && not plus)) [
      | inl bare ↦
          let s : some (country_code ++ digits) ≡ some p = rw (not_intl, not_local, bare) at e in
          let national : is_national digits ≡ true = ground (arith, bare) in
          (b'9' ∷ b'9' ∷ b'6' ∷ digits, cc, national_intl digits national)
      | inr neither ↦ let s : none ≡ some p = rw (not_intl, not_local, neither) at e in absurd (cc)
    ]
  ]
]

canonical_stable : (ds : Text) → is_intl ds ≡ true → e164 (b'+' ∷ ds) ≡ some (b'+' ∷ ds)
unfolding e164
canonical_stable ds h =
    let same : digits_of ds ≡ ds = digits_of-all ds (ground (arith, h)) in rw (same, h) refl

canonical_form :
    (ds : Text)
    → is_intl ds ≡ true
    → (has_prefix country_code (b'+' ∷ ds) ≡ true) × (length (b'+' ∷ ds) ≡ 13)
unfolding has_prefix
canonical_form ds h = (ground (arith, h), ground (arith, h))

-- A phone number that is accepted is written as +996 and nine digits, and that form is accepted as
-- itself: normalizing it once more changes nothing.
pub e164-stable :
    (raw p : Text)
    → e164 raw ≡ some p
    → (has_prefix country_code p ≡ true) × (length p ≡ 13) × (e164 p ≡ some p)
unfolding e164
e164-stable raw p e =
    let c = e164_digits-IsCanonical (digits_of raw) (has_plus raw) p e in
    let form = canonical_form c.0 c.2 in rw c.1 (form.0, form.1, canonical_stable c.0 c.2)
