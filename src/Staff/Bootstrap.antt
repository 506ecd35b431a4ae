-- ===== src/Staff/Bootstrap.antt =====
-- The first owner, and an owner who has lost the password (EnsureOwner in
-- internal/staff/bootstrap.go).
use cozy_backend.Base.{
  Bool, true, false, not, Option, none, some, if◌then◌else◌, ◌==◌, ℕ, update_rows,
}
use cozy_backend.Apperr.{not_owner}
use cozy_backend.Dbtx.{pure, lift, with_tx, modify, raise_if, ◌>>=◌, ◌>>◌}
use cozy_backend.Schema.Text.{Text, codes, trim_space}
use cozy_backend.Schema.Rows.{owner}
use cozy_backend.Auth.Limiter.{is_empty}
use cozy_backend.Staff.Rows.{Staff, StaffAction, StaffEnv, StaffCrypto}
use cozy_backend.Staff.Accounts.{
  normalize_staff_phone, get_by_phone, insert_account, new_account, is_owner_role,
}
use cozy_backend.Staff.Sessions.{revoke_all_for_staff}
use cozy_backend.Staff.Service.{validate_password}

pub record EnsureOwnerInput : Type 0 where
  pub phone : Text
  pub password : Text
  pub name : Text

-- `EnsureOwnerResult`
pub record EnsureOwnerResult : Type 0 where
  pub staff_id : ℕ
  pub phone : Text
  pub created : Bool

abbrev pub owner_name : Text → Text
owner_name name = if is_empty (trim_space name) then codes "Владелец" else trim_space name

abbrev pub restore : Text → Staff → Staff
restore hash x = record x { password_hash = hash; is_active = true }

-- The statements of `resetOwner`.
unfoldable pub reset_owner : StaffEnv → ℕ → Text → StaffAction Unit
unfolding revoke_all_for_staff
reset_owner env id hash =
    modify (λ s. record s { staff = update_rows (λ x. x.id == id) (restore hash) s.staff })
    >> revoke_all_for_staff env id

-- A new owner, or the reset of the one that was found.
unfoldable pub insert_or_reset :
    StaffEnv → Text → Text → Text → Option Staff → StaffAction EnsureOwnerResult
unfolding insert_account reset_owner
insert_or_reset env phone hash name none = do
  row ← insert_account (new_account env phone hash name owner none)
  pure (record { staff_id = row.id; phone = row.phone; created = true })
insert_or_reset env phone hash name (some x) = do
  raise_if (not (is_owner_role x.role)) not_owner
  reset_owner env x.id hash
  pure (record { staff_id = x.id; phone = x.phone; created = false })

unfoldable pub ensure_owner_tx : StaffEnv → Text → Text → Text → StaffAction EnsureOwnerResult
unfolding get_by_phone insert_or_reset
ensure_owner_tx env phone hash name = do
  existing ← get_by_phone phone
  insert_or_reset env phone hash name existing

-- `EnsureOwner`
unfoldable pub ensure_owner :
    StaffCrypto → StaffEnv → EnsureOwnerInput → StaffAction EnsureOwnerResult
unfolding normalize_staff_phone validate_password ensure_owner_tx
ensure_owner crypto env in_ = do
  phone ← lift (normalize_staff_phone in_.phone)
  lift (validate_password in_.password)
  hash ← lift (crypto.generate in_.password)
  with_tx (ensure_owner_tx env phone hash (owner_name in_.name))
