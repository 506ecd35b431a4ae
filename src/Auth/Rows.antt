-- ===== src/Auth/Rows.antt =====
-- The tables otp_codes, refresh_tokens and customers as internal/auth sees them, with what its Service
-- keeps in memory, and what one request brings. Times are seconds; the service and Postgres read
-- the same clock.
use cozy_backend.Base.{ℕ, Bool, Option, List}
use cozy_backend.Apperr.{Result}
use cozy_backend.Dbtx.{Tx}
use cozy_backend.Schema.Text.{Text}
use cozy_backend.Limits.{Windows}

-- A row of otp_codes (migrations 000015, 000027).
pub record OtpCode : Type 0 where
  pub id : ℕ
  pub phone : Text
  pub transaction_id : Text
  pub token : Text
  pub expires_at : ℕ
  pub consumed_at : Option ℕ
  pub created_at : ℕ
  pub request_ip : Option Text
  pub verify_attempts : ℕ

-- A row of refresh_tokens (migrations 000016, 000028).
pub record RefreshToken : Type 0 where
  pub id : ℕ
  pub customer_id : ℕ
  pub token_hash : Text
  pub expires_at : ℕ
  pub revoked_at : Option ℕ
  pub rotated_at : Option ℕ
  pub family_id : ℕ

pub record Customer : Type 0 where
  pub id : ℕ
  pub phone : Text

-- `reviewGuard`
pub record ReviewGuard : Type 0 where
  pub failures : ℕ
  pub tripped : Bool

pub record Store : Type 0 where
  pub codes : List OtpCode
  pub tokens : List RefreshToken
  pub customers : List Customer
  pub verify_fails : Windows
  pub refresh_ip : Windows
  pub review : ReviewGuard

abbrev pub AuthAction : Type 0 → Type 0
AuthAction A = Tx Store A

-- The clock, the client's IP, and what the generators of ids and of random text give to the request.
pub record AuthEnv : Type 0 where
  pub now : ℕ
  pub ip : Text
  pub row_id : ℕ
  pub family_id : ℕ
  pub customer_id : ℕ
  pub transaction_id : Text
  pub raw_token : Text

-- Hashing of a refresh token, and the signing of an access token for a customer until a time.
pub record Crypto : Type 0 where
  pub hash_token : Text → Text
  pub issue_access_token : ℕ → ℕ → Result Text

-- `notify.OTPSender`: a phone and a transaction id give a token, a token and a code are checked.
pub record OtpSender : Type 0 where
  pub send_code : Text → Text → Result Text
  pub verify_code : Text → Text → Result Unit

-- The fixed part of `Service`: config.AuthLimits, config.ReviewLogin and the grace of a rotated
-- token. A limit that is not positive is 0.
pub record AuthConfig : Type 0 where
  pub verify_fails_limit : ℕ
  pub refresh_limit : ℕ
  pub otp_per_ip : ℕ
  pub otp_per_day : ℕ
  pub otp_verify_max_attempts : ℕ
  pub review_phone : Text
  pub review_code : Text
  pub refresh_reuse_grace : ℕ
