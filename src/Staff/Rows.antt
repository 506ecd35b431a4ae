-- ===== src/Staff/Rows.antt =====
-- The tables staff and staff_sessions (migrations 000004, 000017), with the limiters that the service
-- keeps in memory, and what a request brings.
use cozy_backend.Base.{ℕ, Bool, Option, List}
use cozy_backend.Apperr.{Result}
use cozy_backend.Dbtx.{Tx}
use cozy_backend.Schema.Text.{Text, IdText}
use cozy_backend.Schema.Rows.{Role}
use cozy_backend.Limits.{Windows}

-- `Staff`
pub record Staff : Type 0 where
  pub id : ℕ
  pub phone : Text
  pub password_hash : Text
  pub name : Text
  pub role : Role
  pub point_id : Option ℕ
  pub is_active : Bool
  pub created_at : ℕ

-- `Session`
pub record StaffSession : Type 0 where
  pub id : ℕ
  pub staff_id : ℕ
  pub token_hash : Text
  pub expires_at : ℕ
  pub revoked_at : Option ℕ

-- `points` are the ids of points_of_sale.
pub record StaffStore : Type 0 where
  pub staff : List Staff
  pub sessions : List StaffSession
  pub points : List ℕ
  pub login_windows : Windows
  pub ip_windows : Windows

abbrev pub StaffAction : Type 0 → Type 0
StaffAction A = Tx StaffStore A

pub record StaffEnv : Type 0 where
  pub now : ℕ
  pub ip : Text
  pub row_id : ℕ
  pub raw_token : Text

-- bcrypt and SHA-256: a hash of a password or an error, the comparison of a hash with a password, and the
-- hash of a session token.
pub record StaffCrypto : Type 0 where
  pub generate : Text → Result Text
  pub compare : Text → Text → Bool
  pub hash_token : Text → Text

-- The input forms; a role that is none of the three is absent.
pub record CreateStaffInput : Type 0 where
  pub phone : Text
  pub password : Text
  pub name : Text
  pub role : Option Role
  pub point_id : Option IdText

pub record UpdateStaffInput : Type 0 where
  pub name : Text
  pub role : Option Role
  pub point_id : Option IdText
  pub is_active : Bool
  pub password : Option Text
