-- ===== src/Auth/Service.antt =====
-- Logging in: RequestOTP and VerifyOTP (internal/auth/service.go).
use cozy_backend.Base.{
  Option, none, some, ℕ, ◌+◌, ◌*◌, Bool, not, ◌&&◌, ◌∷◌, ◌++◌, leb, ◌==◌, if◌then◌else◌, first_row,
}
use cozy_backend.Apperr.{
  Error, Result, ok, err, is_client_error, otp_expired, otp_invalid, otp_attempts_exceeded,
}
use cozy_backend.Dbtx.{pure, raise, lift, gets, modify, raise_if, ◌>>=◌, ◌>>◌}
use cozy_backend.Schema.Text.{Text, codes, same_text, has_prefix}
use cozy_backend.Auth.Limiter.{Limiter, is_empty, blocked, hit}
use cozy_backend.Auth.Rows.{
  Customer, OtpCode, Store, AuthAction, AuthEnv, Crypto, OtpSender, AuthConfig,
}
use cozy_backend.Auth.Phone.{normalize_phone, for_nikita}
use cozy_backend.Auth.Review.{check_review}
use cozy_backend.Auth.Codes.{
  OtpSendLimits, reserve, set_token, burn, latest_active, take_attempt, consume,
}
use cozy_backend.Auth.Tokens.{create}

abbrev pub otp_ttl : ℕ
otp_ttl = 300

abbrev pub otp_resend_cooldown : ℕ
otp_resend_cooldown = 60

abbrev pub otp_max_per_hour : ℕ
otp_max_per_hour = 5

abbrev pub access_token_ttl : ℕ
access_token_ttl = 900

abbrev pub refresh_token_ttl : ℕ
refresh_token_ttl = 30 * 24 * 3600

abbrev pub verify_limiter : AuthConfig → Limiter
verify_limiter cfg = record { limit = cfg.verify_fails_limit; window = 3600 }

abbrev pub send_limits : AuthConfig → OtpSendLimits
send_limits cfg = record {
  cooldown = otp_resend_cooldown;
  per_phone = otp_max_per_hour;
  per_ip = cfg.otp_per_ip;
  global_day = cfg.otp_per_day;
}

-- `reviewTokenPrefix`
abbrev pub review_token_prefix : Text
review_token_prefix = codes "review:"

-- `isReviewPhone`
abbrev pub is_review_phone : AuthConfig → Text → Bool
is_review_phone cfg phone = not (is_empty cfg.review_phone) && same_text phone cfg.review_phone

-- The end of RequestOTP: the token of a message that went out, or a burnt code.
unfoldable pub record_send : AuthEnv → ℕ → Result Text → AuthAction Unit
unfolding set_token burn
record_send env id (ok token) = set_token id token
record_send env id (err e) = burn env id >> raise e

-- `RequestOTP`
unfoldable pub request_otp : AuthConfig → OtpSender → AuthEnv → Text → AuthAction Unit
unfolding normalize_phone reserve set_token record_send
request_otp cfg sms env raw_phone = do
  phone ← lift (normalize_phone raw_phone)
  id ← reserve env phone env.ip env.transaction_id (env.now + otp_ttl) (send_limits cfg)
  tripped ← gets (λ s. s.review.tripped)
  if is_review_phone cfg phone && not tripped
      then set_token id (review_token_prefix ++ env.transaction_id)
      else record_send env id (sms.send_code (for_nikita phone) env.transaction_id)

-- The review branch of `verifyCode`.
unfoldable pub check_review_code : AuthConfig → Text → AuthAction Bool
unfolding check_review
check_review_code cfg code s =
    let checked = check_review code cfg.review_code s.review in
    (ok checked.0, record s { review = checked.1 })

-- `verifyCode`: what it says of the code, as a value.
unfoldable pub verify_code : AuthConfig → OtpSender → Text → Text → Text → AuthAction (Result Unit)
unfolding check_review_code
verify_code cfg sms phone token code =
    if is_review_phone cfg phone && has_prefix review_token_prefix token
    then (do right ← check_review_code cfg code; pure (if right then ok tt else err otp_invalid))
    else pure (sms.verify_code token code)

-- `s.verifyFails.blocked(ip)`
unfoldable pub verify_blocked : AuthConfig → AuthEnv → AuthAction Bool
unfolding blocked
verify_blocked cfg env s =
    let asked = blocked (verify_limiter cfg) env.now env.ip s.verify_fails in
    (ok asked.0, record s { verify_fails = asked.1 })

unfoldable pub verify_hit : AuthConfig → AuthEnv → Store → Store
unfolding hit
verify_hit cfg env s = record s {
  verify_fails = hit (verify_limiter cfg) env.now env.ip s.verify_fails;
}

abbrev pub max_attempts : AuthConfig → ℕ
max_attempts cfg = if cfg.otp_verify_max_attempts == 0 then 5 else cfg.otp_verify_max_attempts

-- A code that was refused: a wrong one counts against the IP, and the last one burns the row.
unfoldable pub refuse_code : AuthConfig → AuthEnv → ℕ → ℕ → Error → AuthAction Unit
unfolding verify_hit burn
refuse_code cfg env id attempt e =
    if is_client_error e
    then (do
      modify (verify_hit cfg env)
      if leb (max_attempts cfg) attempt
          then burn env id >> raise otp_attempts_exceeded
          else raise e)
    else raise e

-- The row that the upsert returns: the one that stands there, or a new one.
abbrev pub upsert_customer : AuthEnv → Text → Option Customer → AuthAction Customer
upsert_customer env phone (some c) = pure c
upsert_customer env phone none =
    modify
      (λ s. record s { customers = record { id = env.customer_id; phone = phone } ∷ s.customers })
    >> pure (record { id = env.customer_id; phone = phone })

-- `GetOrCreateByPhone` of storefront.CustomerRepo
unfoldable pub get_or_create_by_phone : AuthEnv → Text → AuthAction Customer
get_or_create_by_phone env phone = do
  row ← gets (λ s. first_row (λ c. same_text c.phone phone) s.customers)
  upsert_customer env phone row

-- A pair of tokens.
pub record TokenPair : Type 0 where
  pub access_token : Text
  pub refresh_token : Text

-- `issueTokenPair`
unfoldable pub issue_token_pair : Crypto → AuthEnv → ℕ → AuthAction TokenPair
unfolding create
issue_token_pair crypto env customer_id = do
  access ← lift (crypto.issue_access_token customer_id (env.now + access_token_ttl))
  create env customer_id (crypto.hash_token env.raw_token) (env.now + refresh_token_ttl)
  pure (record { access_token = access; refresh_token = env.raw_token })

-- The code was right: it is used up, and the customer gets a session.
unfoldable pub accept_code : Crypto → AuthEnv → Text → ℕ → AuthAction (TokenPair × Customer)
unfolding consume get_or_create_by_phone issue_token_pair
accept_code crypto env phone id = do
  consumed ← consume env id
  raise_if (not consumed) otp_expired
  customer ← get_or_create_by_phone env phone
  pair ← issue_token_pair crypto env customer.id
  pure (pair, customer)

unfoldable pub conclude :
    AuthConfig → Crypto → AuthEnv → Text → ℕ → ℕ → Result Unit → AuthAction (TokenPair × Customer)
unfolding refuse_code accept_code
conclude cfg crypto env phone id attempt (ok _) = accept_code crypto env phone id
conclude cfg crypto env phone id attempt (err e) = do refuse_code cfg env id attempt e; raise e

-- The check of a code for which an attempt was granted.
unfoldable pub check_attempt :
    AuthConfig
    → Crypto
    → OtpSender
    → AuthEnv
    → Text
    → Text
    → OtpCode
    → Option ℕ
    → AuthAction (TokenPair × Customer)
unfolding verify_code conclude
check_attempt cfg crypto sms env phone code active none = raise otp_attempts_exceeded
check_attempt cfg crypto sms env phone code active (some attempt) = do
  answer ← verify_code cfg sms phone active.token code
  conclude cfg crypto env phone active.id attempt answer

-- VerifyOTP for the code that is active, if there is one.
unfoldable pub try_code :
    AuthConfig
    → Crypto
    → OtpSender
    → AuthEnv
    → Text
    → Text
    → Option OtpCode
    → AuthAction (TokenPair × Customer)
unfolding take_attempt check_attempt
try_code cfg crypto sms env phone code none = raise otp_expired
try_code cfg crypto sms env phone code (some active) = do
  attempt ← take_attempt active.id (max_attempts cfg)
  check_attempt cfg crypto sms env phone code active attempt

-- `VerifyOTP`
unfoldable pub verify_otp :
    AuthConfig → Crypto → OtpSender → AuthEnv → Text → Text → AuthAction (TokenPair × Customer)
unfolding normalize_phone verify_blocked latest_active try_code
verify_otp cfg crypto sms env raw_phone code = do
  phone ← lift (normalize_phone raw_phone)
  stopped ← verify_blocked cfg env
  raise_if stopped otp_attempts_exceeded
  active ← latest_active env phone
  try_code cfg crypto sms env phone code active
