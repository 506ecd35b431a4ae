-- ===== src/Staff/Events.antt =====
-- All operations on staff accounts, in any order (internal/staff/service.go).
use cozy_backend.Base.{ℕ, List, [], ◌∷◌}
use cozy_backend.Schema.Text.{Text}
use cozy_backend.Staff.Rows.{StaffStore, StaffEnv, StaffCrypto, CreateStaffInput, UpdateStaffInput}
use cozy_backend.Staff.Service.{create_staff, update_staff, reset_password, login, staff_logout}
use cozy_backend.Staff.Bootstrap.{EnsureOwnerInput, ensure_owner}

pub data StaffEvent : Type 0 where
  creating : CreateStaffInput → StaffEvent
  updating : ℕ → UpdateStaffInput → StaffEvent
  resetting : ℕ → Text → StaffEvent
  logging_in : Text → Text → StaffEvent
  logging_out : Text → StaffEvent
  ensuring : EnsureOwnerInput → StaffEvent

-- One operation, its answer dropped; a login brings a phone and a password.
unfoldable pub staff_step : ℕ → StaffCrypto → StaffEnv → StaffEvent → StaffStore → StaffStore
unfolding create_staff update_staff reset_password login staff_logout ensure_owner
staff_step ip_limit crypto env (creating in_) s = (create_staff crypto env in_ s).1
staff_step ip_limit crypto env (updating id in_) s = (update_staff crypto env id in_ s).1
staff_step ip_limit crypto env (resetting id p) s = (reset_password crypto env id p s).1
staff_step ip_limit crypto env (logging_in phone p) s = (login ip_limit crypto env phone p s).1
staff_step ip_limit crypto env (logging_out token) s = (staff_logout crypto env token s).1
staff_step ip_limit crypto env (ensuring in_) s = (ensure_owner crypto env in_ s).1

unfoldable pub run_staff : ℕ → StaffCrypto → List (StaffEnv × StaffEvent) → StaffStore → StaffStore
unfolding staff_step
run_staff ip_limit crypto [] s = s
run_staff ip_limit crypto ((env, e) ∷ es) s =
    run_staff ip_limit crypto es (staff_step ip_limit crypto env e s)
