-- ===== src/Auth/Entry.antt =====
-- Who may log in (VerifyOTP in internal/auth/service.go).
use cozy_backend.Base.{
  first_row-test, ℕ, ◌≡◌, refl, sym, ap, subst, Bool, true, false, ◌&&◌, Option, none, some, List,
  if◌then◌else◌, Bool-cases, inl, inr,
}
use cozy_backend.Apperr.{Result, ok, err, otp_invalid}
use cozy_backend.Dbtx.{lift, ◌>>=◌}
use cozy_backend.Dbtx.Ensures.{
  Post, Ensures, Ensures-bind, Ensures-guard, Ensures-given, Ensures-raise, Ensures-pure,
}
use cozy_backend.Dbtx.Keeps.{Keeps}
use cozy_backend.Schema.Text.{Text, same_text, same_text_refl, has_prefix}
use cozy_backend.Auth.Rows.{
  OtpCode, Customer, ReviewGuard, Store, AuthAction, AuthEnv, Crypto, OtpSender, AuthConfig,
}
use cozy_backend.Auth.Phone.{normalize_phone}
use cozy_backend.Auth.Review.{check_review}
use cozy_backend.Auth.Codes.{is_active_code, newest, latest_active, take_attempt}
use cozy_backend.Auth.Service.{
  TokenPair, is_review_phone, review_token_prefix, check_review_code, verify_code, verify_blocked,
  max_attempts, refuse_code, check_attempt, upsert_customer, get_or_create_by_phone, accept_code,
  conclude, try_code, verify_otp,
}

module _ (cfg : AuthConfig) (crypto : Crypto) (sms : OtpSender) (env : AuthEnv) (raw code : Text)
    (rows : List OtpCode) (guard : ReviewGuard) where
  -- The code is right: for a row of the review phone it is the configured code, checked by a guard
  -- that is not tripped; for any other row the provider says so.
  abbrev pub IsRight : Text → Text → Type 0
  IsRight phone token =
      if is_review_phone cfg phone && has_prefix review_token_prefix token
      then (check_review code cfg.review_code guard).0 ≡ true
      else sms.verify_code token code ≡ ok tt

  -- What a login of a customer rests on.
  pub record Proven (customer : Customer) : Type 0 where
    pub phone : Text
    pub active : OtpCode
    pub written : normalize_phone raw ≡ ok phone
    pub is_active : newest (is_active_code env phone) rows ≡ some active
    pub right : IsRight phone active.token
    pub owns : same_text customer.phone phone ≡ true

  abbrev Before : Store → Type 0
  Before s = (s.codes ≡ rows) × (s.review ≡ guard)

  abbrev Anything : Store → Type 0
  Anything s = Unit

  any-Post : {A : Type 0} (p : Result A × Store) → Post (λ _. Anything) p
  any-Post (ok a, s) = tt
  any-Post (err e, s) = tt

  anything : {A : Type 0} {P : Store → Type 0} (m : AuthAction A) → Ensures P m (λ _. Anything)
  anything m = record { at = λ s h. any-Post (m s) }

  lift-fact :
      {A : Type 0} {P : Store → Type 0} (r : Result A)
      → Ensures P (lift r) (λ a s. (r ≡ ok a) × P s)
  lift-fact (ok a) = record { at = λ s h. (refl, h) }
  lift-fact (err e) = record { at = λ s h. tt }

  abbrev Owns : Text → Customer → Store → Type 0
  Owns phone c s = (same_text c.phone phone ≡ true) × Unit

  abbrev Logged : TokenPair × Customer → Store → Type 0
  Logged r s = Proven r.1

  upsert-Owns :
      (phone : Text) (o : Option Customer)
      → ((c : Customer) → o ≡ some c → same_text c.phone phone ≡ true)
      → Ensures Anything (upsert_customer env phone o) (Owns phone)
  unfolding ◌>>=◌
  upsert-Owns phone none own = record { at = λ s h. (same_text_refl phone, tt) }
  upsert-Owns phone (some c) own = record { at = λ s h. (own c refl, tt) }

  get_or_create-Owns :
      (phone : Text) → Ensures Anything (get_or_create_by_phone env phone) (Owns phone)
  unfolding get_or_create_by_phone
  get_or_create-Owns phone =
      Ensures-bind
        (λ o s. ((c : Customer) → o ≡ some c → same_text c.phone phone ≡ true) × Anything s) _ _ _
        (record {
          at = λ s h. ((λ c e. first_row-test (λ x. same_text x.phone phone) s.customers c e), tt);
        })
        λ o. Ensures-given _ _ _ (upsert-Owns phone o)

  right_answer : (b : Bool) → (if b then ok tt else err otp_invalid) ≡ ok tt → b ≡ true
  right_answer true e = refl
  right_answer false e = cc

  module _ (phone : Text) (active : OtpCode) where
    accept_code-Logged :
        normalize_phone raw ≡ ok phone
        → newest (is_active_code env phone) rows ≡ some active
        → IsRight phone active.token
        → Ensures Anything (accept_code crypto env phone active.id) Logged
    unfolding accept_code
    accept_code-Logged written is_active right = Ensures-bind _ _ _ _ (anything _) λ consumed.
        Ensures-guard _ _ _ _ λ _. Ensures-bind _ _ _ _ (get_or_create-Owns phone) λ customer.
          Ensures-given _ _ _ λ own. Ensures-bind _ _ _ _ (anything _) λ pair.
            Ensures-pure _ _ (λ s h. record {
              phone = phone;
              active = active;
              written = written;
              is_active = is_active;
              right = right;
              owns = own;
            })

    conclude-Logged :
        (n : ℕ) (answer : Result Unit)
        → normalize_phone raw ≡ ok phone
        → newest (is_active_code env phone) rows ≡ some active
        → (answer ≡ ok tt → IsRight phone active.token)
        → Ensures Anything (conclude cfg crypto env phone active.id n answer) Logged
    unfolding conclude
    conclude-Logged n (ok _) written is_active right =
        accept_code-Logged written is_active (right refl)
    conclude-Logged n (err e) written is_active right =
        Ensures-bind _ _ _ _ (anything (refuse_code cfg env active.id n e)) λ _. Ensures-raise _ e

    verify_code-Right :
        Ensures
          (λ s. s.review ≡ guard)
          (verify_code cfg sms phone active.token code)
          (λ answer s. (answer ≡ ok tt → IsRight phone active.token) × Anything s)
    unfolding verify_code check_review_code ◌>>=◌
    verify_code-Right =
        elim (Bool-cases
          (is_review_phone cfg phone && has_prefix review_token_prefix active.token)) [
            | inl review ↦ rw review (record {
              at = λ s h. (
                (λ e.
                    subst (λ g. (check_review code cfg.review_code g).0 ≡ true) h
                      (right_answer _ e)),
                tt,
              );
            })
            | inr plain ↦ rw plain (record { at = λ s h. ((λ e. e), tt) })
          ]

    take_attempt-Review : (id max : ℕ) → Keeps (λ s. s.review ≡ guard) (take_attempt id max)
    unfolding take_attempt ◌>>=◌
    take_attempt-Review id max = record { at = λ s h. h }

    check_attempt-Logged :
        (attempt : Option ℕ)
        → normalize_phone raw ≡ ok phone
        → newest (is_active_code env phone) rows ≡ some active
        → Ensures
            (λ s. s.review ≡ guard)
            (check_attempt cfg crypto sms env phone code active attempt)
            Logged
    unfolding check_attempt
    check_attempt-Logged none written is_active = Ensures-raise _ _
    check_attempt-Logged (some n) written is_active =
        Ensures-bind _ _ _ _ verify_code-Right
          λ answer. Ensures-given _ _ _ λ right. conclude-Logged n answer written is_active right

  try_code-Logged :
      (phone : Text) (active : Option OtpCode)
      → normalize_phone raw ≡ ok phone
      → active ≡ newest (is_active_code env phone) rows
      → Ensures (λ s. s.review ≡ guard) (try_code cfg crypto sms env phone code active) Logged
  unfolding try_code
  try_code-Logged phone none written found = Ensures-raise _ _
  try_code-Logged phone (some active) written found =
      Ensures-bind _ _ _ _ (take_attempt-Review phone active active.id (max_attempts cfg))
        λ attempt. check_attempt-Logged phone active attempt written (sym found)

  verify_blocked-Before : Keeps Before (verify_blocked cfg env)
  unfolding verify_blocked
  verify_blocked-Before = record { at = λ s h. h }

  verify_otp-Logged : Ensures Before (verify_otp cfg crypto sms env raw code) Logged
  unfolding verify_otp latest_active
  verify_otp-Logged = Ensures-bind _ _ _ _ (lift-fact (normalize_phone raw)) λ phone.
      Ensures-given _ _ _ λ written. Ensures-bind _ _ _ _ verify_blocked-Before λ stopped.
        Ensures-guard _ _ _ _ λ _.
          Ensures-bind (λ o s. (o ≡ newest (is_active_code env phone) rows) × (s.review ≡ guard)) _
            _ _ (record { at = λ s h. (ap (newest (is_active_code env phone)) h.0, h.1) })
            λ o. Ensures-given _ _ _ λ found. try_code-Logged phone o written found

-- A customer is logged in only with the right code for the newest active row of the phone number that
-- was given: the provider accepts the code for that row, or, for a row of the review phone, it
-- is the configured code and the guard is not tripped. The customer is the one with that number.
pub verify_otp-Proven :
    (cfg : AuthConfig) (crypto : Crypto) (sms : OtpSender) (env : AuthEnv) (raw code : Text)
    (s : Store) (pair : TokenPair) (customer : Customer)
    → (verify_otp cfg crypto sms env raw code s).0 ≡ ok (pair, customer)
    → Proven cfg crypto sms env raw code s.codes s.review customer
verify_otp-Proven cfg crypto sms env raw code s pair customer done =
    from_ok (verify_otp cfg crypto sms env raw code s)
      ((verify_otp-Logged cfg crypto sms env raw code s.codes s.review).at s (refl, refl)) done
  where
    Goal : Customer → Type 0
    Goal c = Proven cfg crypto sms env raw code s.codes s.review c

    from_ok :
        (p : Result (TokenPair × Customer) × Store)
        → Post (λ r _. Goal r.1) p
        → p.0 ≡ ok (pair, customer)
        → Goal customer
    from_ok (ok r, u) h e = let same : r.1 ≡ customer = cc in subst Goal same h
    from_ok (err x, u) h e = cc
