-- ===== src/Staff/Spelling.antt =====
-- The key of a phone number is the same for the key itself (canonicalPhoneKey in
-- internal/staff/phone.go).
use cozy_backend.Base.{◌≡◌, refl, ap, ◌∙◌, sym, [], ◌∷◌, ◌++◌, arith, Option-cases, inl, inr}
use mathlib.Core.List.{append-nil}
use cozy_backend.Schema.Text.{Text, is_space, trim_space}
use cozy_backend.Schema.Trim.{AreSpaces, trim_space_idem, trim_space-IsTrimmed}
use cozy_backend.Auth.Phone.{digits_of, e164}
use cozy_backend.Auth.Phone.Canonical.{e164-stable}
use cozy_backend.Staff.Accounts.{canonical_phone_key}

digits_of-append : (s t : Text) → digits_of (s ++ t) ≡ digits_of s ++ digits_of t
digits_of-append [] t = refl
digits_of-append (c ∷ cs) t = ground (arith, digits_of-append cs t)

digits_of-spaces : (s : Text) → AreSpaces s → digits_of s ≡ []
unfolding is_space
digits_of-spaces [] h = refl
digits_of-spaces (c ∷ cs) h = ground (arith, h.0, digits_of-spaces cs h.1)

digits_of-around :
    (s t before after : Text)
    → AreSpaces before
    → AreSpaces after
    → s ≡ before ++ (t ++ after)
    → digits_of t ≡ digits_of s
digits_of-around s t before after hb ha e = sym (
    ap digits_of e
    ∙ digits_of-append before (t ++ after)
    ∙ ap (λ d. d ++ digits_of (t ++ after)) (digits_of-spaces before hb)
    ∙ digits_of-append t after
    ∙ ap (λ d. digits_of t ++ d) (digits_of-spaces after ha)
    ∙ append-nil (digits_of t))

-- The space around a number does not matter.
e164-trim_space : (s : Text) → e164 (trim_space s) ≡ e164 s
unfolding e164
e164-trim_space s =
    let trimmed = trim_space-IsTrimmed s in
    let around = trimmed.2 in
    let same = digits_of-around s (trim_space s) around.0 around.1 around.2 around.3 around.4 in
    rw (same, trim_space_idem s) refl

pub canonical_phone_key_idem :
    (raw : Text) → canonical_phone_key (canonical_phone_key raw) ≡ canonical_phone_key raw
unfolding canonical_phone_key
canonical_phone_key_idem raw = elim (Option-cases (e164 raw)) [
  | inl bad ↦ rw (bad, e164-trim_space raw, bad, trim_space_idem raw) refl
  | inr good ↦ let stable = e164-stable raw good.0 good.1 in rw (good.1, stable.2) refl
]
