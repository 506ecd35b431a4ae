-- ===== src/Staff/Service.antt =====
-- The service on staff accounts (internal/staff/service.go).
use cozy_backend.Base.{
  ℕ, ◌+◌, Bool, true, false, not, ◌&&◌, ◌||◌, Option, none, some, ltb, ◌==◌, if◌then◌else◌, is_some,
  length,
}
use cozy_backend.Apperr.{
  Result, ok, err, invalid_phone, invalid_name, invalid_password, password_too_long,
  point_id_forbidden, point_id_required, invalid_role, invalid_credentials, too_many_login_attempts,
}
use cozy_backend.Dbtx.{pure, raise, lift, modify, raise_if, ◌>>=◌, ◌>>◌}
use cozy_backend.Schema.Text.{Text, IdText, uuid, other, codes, trim_space, byte_len}
use cozy_backend.Schema.Rows.{Role, owner, manager, point_staff}
use cozy_backend.Auth.Limiter.{is_empty}
use cozy_backend.Staff.Limiter.{login_allow, login_reset}
use cozy_backend.Staff.Rows.{
  Staff, StaffSession, StaffStore, StaffAction, StaffEnv, StaffCrypto, CreateStaffInput,
  UpdateStaffInput,
}
use cozy_backend.Staff.Accounts.{
  normalize_staff_phone, canonical_phone_key, get_by_phone, get_by_id, create_account,
  update_account, set_password,
}
use cozy_backend.Staff.Sessions.{
  create_session, get_active_by_hash, revoke_by_hash, revoke_all_for_staff,
}

abbrev pub session_ttl : ℕ
session_ttl = 43200

-- `dummyPasswordHash`
abbrev pub dummy_password_hash : Text
dummy_password_hash = codes "$2a$10$UnWYtHLgrH/2tNOF3VF.k.Mno4/aqJ1u8/dKRjqdLBiwUsDvBTD7W"

-- `validatePassword`
unfoldable pub validate_password : Text → Result Unit
validate_password p =
    if ltb (length p) 8
    then err invalid_password
    else if ltb 72 (byte_len p)
    then err password_too_long
    else ok tt

-- `pointID == nil || strings.TrimSpace(*pointID) == ""`
abbrev pub no_point : Option IdText → Bool
no_point none = true
no_point (some (uuid p)) = false
no_point (some (other t)) = is_empty (trim_space t)

-- `validateStaffRolePointID`: the role, once it is known to be one.
unfoldable pub validate_role_point : Option Role → Option IdText → Result Role
validate_role_point none point = err invalid_role
validate_role_point (some owner) point =
    if not (no_point point) then err point_id_forbidden else ok owner
validate_role_point (some manager) point =
    if not (no_point point) then err point_id_forbidden else ok manager
validate_role_point (some point_staff) point =
    if no_point point then err point_id_required else ok point_staff

-- `CreateStaff`
unfoldable pub create_staff : StaffCrypto → StaffEnv → CreateStaffInput → StaffAction Staff
unfolding normalize_staff_phone validate_password validate_role_point create_account
create_staff crypto env in_ = do
  raise_if (is_empty (trim_space in_.phone)) invalid_phone
  phone ← lift (normalize_staff_phone in_.phone)
  raise_if (is_empty (trim_space in_.name)) invalid_name
  lift (validate_password in_.password)
  role ← lift (validate_role_point in_.role in_.point_id)
  hash ← lift (crypto.generate in_.password)
  create_account env phone hash in_.name role in_.point_id

abbrev pub some_hash : Result Text → Result (Option Text)
some_hash (ok h) = ok (some h)
some_hash (err e) = err e

abbrev pub checked_hash : StaffCrypto → Text → Result Unit → Result (Option Text)
checked_hash crypto p (ok _) = some_hash (crypto.generate p)
checked_hash crypto p (err e) = err e

-- The hash of a new password, if one is given.
unfoldable pub new_hash : StaffCrypto → Option Text → Result (Option Text)
unfolding validate_password
new_hash crypto none = ok none
new_hash crypto (some p) = checked_hash crypto p (validate_password p)

-- `UpdateStaff`
unfoldable pub update_staff : StaffCrypto → StaffEnv → ℕ → UpdateStaffInput → StaffAction Staff
unfolding validate_role_point new_hash update_account revoke_all_for_staff
update_staff crypto env id in_ = do
  raise_if (is_empty (trim_space in_.name)) invalid_name
  role ← lift (validate_role_point in_.role in_.point_id)
  hash ← lift (new_hash crypto in_.password)
  updated ← update_account id in_.name role in_.point_id in_.is_active hash
  if is_some in_.password || not in_.is_active
      then revoke_all_for_staff env id >> pure updated
      else pure updated

-- `ResetPassword`
unfoldable pub reset_password : StaffCrypto → StaffEnv → ℕ → Text → StaffAction Unit
unfolding validate_password set_password revoke_all_for_staff
reset_password crypto env id password = do
  lift (validate_password password)
  hash ← lift (crypto.generate password)
  set_password id hash
  revoke_all_for_staff env id

-- `s.ipLimiter.allow(ip)`, where 0 stands for a nil limiter.
unfoldable pub ip_allowed : ℕ → StaffEnv → StaffAction Bool
unfolding login_allow
ip_allowed limit env s =
    if limit == 0 || is_empty env.ip
    then (ok true, s)
    else let asked = login_allow limit env.now env.ip s.ip_windows in
      (ok asked.0, record s { ip_windows = asked.1 })

-- `s.loginLimiter.allow(phone)`
unfoldable pub phone_allowed : StaffEnv → Text → StaffAction Bool
unfolding login_allow
phone_allowed env phone s =
    let asked = login_allow 0 env.now phone s.login_windows in
    (ok asked.0, record s { login_windows = asked.1 })

unfoldable pub reset_attempts : Text → StaffStore → StaffStore
unfolding login_reset
reset_attempts phone s = record s { login_windows = login_reset phone s.login_windows }

abbrev pub hash_of : Option Staff → Text
hash_of none = dummy_password_hash
hash_of (some st) = st.password_hash

abbrev pub may_log_in : Option Staff → Bool
may_log_in none = false
may_log_in (some st) = st.is_active

-- The end of Login, for the account that was found and what bcrypt said.
unfoldable pub start_session : StaffCrypto → StaffEnv → Text → Option Staff → StaffAction Text
unfolding reset_attempts create_session
start_session crypto env phone none = raise invalid_credentials
start_session crypto env phone (some st) = do
  modify (reset_attempts phone)
  create_session env st.id (crypto.hash_token env.raw_token) (env.now + session_ttl)
  pure env.raw_token

-- `Login`, with the configured limit for an IP.
unfoldable pub login : ℕ → StaffCrypto → StaffEnv → Text → Text → StaffAction Text
unfolding ip_allowed phone_allowed canonical_phone_key get_by_phone start_session
login ip_limit crypto env raw_phone password = do
  from_ip ← ip_allowed ip_limit env
  raise_if (not from_ip) too_many_login_attempts
  for_phone ← phone_allowed env (canonical_phone_key raw_phone)
  raise_if (not for_phone) too_many_login_attempts
  st ← get_by_phone (canonical_phone_key raw_phone)
  raise_if (not (may_log_in st && crypto.compare (hash_of st) password)) invalid_credentials
  start_session crypto env (canonical_phone_key raw_phone) st

-- `Logout`
unfoldable pub staff_logout : StaffCrypto → StaffEnv → Text → StaffAction Unit
unfolding revoke_by_hash
staff_logout crypto env token =
    if is_empty token then pure tt else revoke_by_hash env (crypto.hash_token token)

abbrev pub active_only : Option Staff → Option Staff
active_only none = none
active_only (some st) = if st.is_active then some st else none

unfoldable pub staff_of : Option StaffSession → StaffAction (Option Staff)
unfolding get_by_id
staff_of none = pure none
staff_of (some x) = do st ← get_by_id x.staff_id; pure (active_only st)

-- `authenticatedStaff`
unfoldable pub authenticated_staff : StaffCrypto → StaffEnv → Text → StaffAction (Option Staff)
unfolding get_active_by_hash staff_of
authenticated_staff crypto env token = do
  session ← get_active_by_hash env (crypto.hash_token token)
  staff_of session
