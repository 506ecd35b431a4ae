-- ===== src/Staff/Tests.antt =====
-- A shop with an owner and a manager.
use cozy_backend.Base.{◌≡◌, refl, true, false, none, some, List, [], ◌∷◌, arith, ◌==◌}
use cozy_backend.Apperr.{ok}
use cozy_backend.Dbtx.{with_tx, ◌>>=◌}
use cozy_backend.Schema.Text.{
  codes, same_text, has_prefix, is_space, trim_left, trim_right, trim_right_cons, trim_space,
}
use cozy_backend.Schema.Rows.{owner, manager}
use cozy_backend.Limits.{current}
use cozy_backend.Auth.Phone.{e164}
use cozy_backend.Staff.Limiter.{login_allow, login_reset}
use cozy_backend.Staff.Limiter.Exact.{
  LoginCall, login_answers, login_answers_exact, login_answers-exact,
}
use cozy_backend.Staff.Rows.{
  Staff, StaffSession, StaffStore, StaffEnv, StaffCrypto, UpdateStaffInput,
}
use cozy_backend.Staff.Accounts.{
  canonical_phone_key, place_staff, in_lookup_order, staff_by_phone, get_by_phone, get_by_id,
  update_tx, update_account, set_password,
}
use cozy_backend.Staff.Sessions.{create_session, get_active_by_hash, revoke_all_for_staff}
use cozy_backend.Staff.Service.{
  validate_password, validate_role_point, new_hash, update_staff, reset_password, ip_allowed,
  phone_allowed, reset_attempts, start_session, login, staff_of, authenticated_staff,
}
use cozy_backend.Staff.Events.{updating, run_staff}
use cozy_backend.Staff.Owned.{HasOwner, run_staff-HasOwner}
use cozy_backend.Staff.Ended.{reset_password-ends, update_staff-ends}
use cozy_backend.Staff.Entry.{Enters, login-IsAdmitted}

abbrev the_owner : Staff
the_owner = record {
  id = 1;
  phone = codes "+996700000001";
  password_hash = codes "secret-1";
  name = codes "A";
  role = owner;
  point_id = none;
  is_active = true;
  created_at = 1;
}

abbrev the_manager : Staff
the_manager = record {
  id = 2;
  phone = codes "+996700000002";
  password_hash = codes "secret-2";
  name = codes "B";
  role = manager;
  point_id = none;
  is_active = true;
  created_at = 2;
}

abbrev owner_session : StaffSession
owner_session = record {
  id = 5;
  staff_id = 1;
  token_hash = codes "t";
  expires_at = 9000;
  revoked_at = none;
}

abbrev office : StaffStore
office = record {
  staff = the_owner ∷ the_manager ∷ [];
  sessions = owner_session ∷ [];
  points = [];
  login_windows = [];
  ip_windows = [];
}

abbrev staff_env : StaffEnv
staff_env = record { now = 100; ip = []; row_id = 9; raw_token = codes "n" }

-- A password is its own hash here.
abbrev staff_crypto : StaffCrypto
staff_crypto = record { generate = λ p. ok p; compare = λ h p. same_text h p; hash_token = λ t. t }

abbrev demote : UpdateStaffInput
demote = record {
  name = codes "A";
  role = some manager;
  point_id = none;
  is_active = true;
  password = none;
}

abbrev dismiss : UpdateStaffInput
dismiss = record demote { name = codes "B"; is_active = false }

run_staff-HasOwner_example : HasOwner (
    run_staff 0 staff_crypto
      ((staff_env, updating 1 demote) ∷ (staff_env, updating 2 dismiss) ∷ [])
      office)
run_staff-HasOwner_example =
    run_staff-HasOwner 0 staff_crypto
      ((staff_env, updating 1 demote) ∷ (staff_env, updating 2 dismiss) ∷ []) office
      (record { distinct = (refl, (refl, tt)); some_owner = omega arith })

reset_password-ends_example : (the_owner.id == 2) ≡ false
reset_password-ends_example =
    reset_password-ends staff_crypto staff_env staff_env 2 (codes "t") the_owner (codes "secret-3")
      office
      (unfold reset_password validate_password set_password revoke_all_for_staff ◌>>=◌ in refl)
      (unfold reset_password validate_password set_password revoke_all_for_staff authenticated_staff
          get_active_by_hash staff_of get_by_id same_text ◌>>=◌ in
        refl)

update_staff-ends_example : (the_owner.id == 2) ≡ false
update_staff-ends_example =
    update_staff-ends staff_crypto staff_env staff_env 2 (codes "t") the_owner dismiss office
      (record the_manager { is_active = false }) refl
      (unfold update_staff validate_role_point new_hash update_account update_tx with_tx
          revoke_all_for_staff trim_space trim_left trim_right trim_right_cons is_space ◌>>=◌ in
        refl)
      (unfold update_staff validate_role_point new_hash update_account update_tx with_tx
          revoke_all_for_staff trim_space trim_left trim_right trim_right_cons is_space
          authenticated_staff get_active_by_hash staff_of get_by_id same_text ◌>>=◌ in
        refl)

login-IsAdmitted_example :
    Enters staff_crypto staff_env office.staff office.sessions
      (codes "0700 000 001")
      (codes "secret-1")
      (codes "n")
      (login 0 staff_crypto staff_env (codes "0700 000 001") (codes "secret-1") office).1
login-IsAdmitted_example =
    login-IsAdmitted 0 staff_crypto staff_env (codes "0700 000 001") (codes "secret-1") (codes "n")
      office
      (unfold login ip_allowed phone_allowed login_allow current canonical_phone_key e164 has_prefix
          same_text get_by_phone staff_by_phone in_lookup_order place_staff start_session
          reset_attempts login_reset create_session trim_space trim_left trim_right trim_right_cons
          is_space ◌>>=◌ in
        refl)

abbrev some_attempts : List LoginCall
some_attempts =
    record { gap = 1; succeeds = false; key = codes "p" }
    ∷ record { gap = 1; succeeds = true; key = codes "p" }
    ∷ record { gap = 1; succeeds = false; key = codes "p" }
    ∷ []

login_answers-exact_example :
    login_answers 5 0 [] some_attempts ≡ login_answers_exact 5 0 (λ _. none) some_attempts
login_answers-exact_example = login_answers-exact 5 0 some_attempts
