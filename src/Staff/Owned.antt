-- ===== src/Staff/Owned.antt =====
-- There is always an active owner: every operation of internal/staff keeps one.
use cozy_backend.Base.{
  ℕ, ◌≡◌, refl, sym, ◌∙◌, Bool, false, ◌||◌, Option, none, some, List, [], ◌∷◌, arith, ◌==◌,
  if_both, Bool-cases, inl, inr, any_row, update_rows, count_rows-update, count_rows-keep,
}
use cozy_backend.Apperr.{Result}
use cozy_backend.Dbtx.{modify, ◌>>=◌}
use cozy_backend.Dbtx.Ensures.{
  Ensures-bind, Ensures-gets, Ensures-or_raise, Ensures-guard, Ensures-modify,
}
use cozy_backend.Dbtx.Keeps.{Keeps, pure-Keeps, gets-Keeps, lift-Keeps}
use cozy_backend.Dbtx.Always.{Always, always_rules, pure-Always, if-Always, Keeps-Always}
use cozy_backend.Schema.Text.{Text, IdText, same_text}
use cozy_backend.Schema.Rows.{Role}
use cozy_backend.Auth.Limiter.{is_empty}
use cozy_backend.Staff.Rows.{
  Staff, StaffStore, StaffEnv, StaffCrypto, CreateStaffInput, UpdateStaffInput,
}
use cozy_backend.Staff.Accounts.{
  staff_by_id, get_by_phone, account_refused, insert_account, create_account, update_tx,
  update_account, set_password, is_active_owner,
}
use cozy_backend.Staff.Sessions.{create_session, revoke_by_hash, revoke_all_for_staff}
use cozy_backend.Staff.Service.{
  create_staff, update_staff, reset_password, login, staff_logout, ip_allowed, phone_allowed,
  reset_attempts, start_session,
}
use cozy_backend.Staff.Bootstrap.{
  EnsureOwnerInput, restore, reset_owner, insert_or_reset, ensure_owner_tx, ensure_owner,
}
use cozy_backend.Staff.Owners.{Owned, update-Owned, changed-AreDistinct}
use cozy_backend.Staff.Events.{
  StaffEvent, creating, updating, resetting, logging_in, logging_out, ensuring, staff_step,
  run_staff,
}

abbrev pub HasOwner : StaffStore → Type 0
HasOwner s = Owned s.staff

any_row-none :
    (id : ℕ) (rows : List Staff)
    → any_row (λ x. x.id == id) rows ≡ false
    → staff_by_id id rows ≡ none
any_row-none id [] h = refl
any_row-none id (x ∷ xs) h = ground (arith, h, any_row-none id xs)

push-Owned :
    (row : Staff) (rows : List Staff)
    → any_row (λ x. x.id == row.id) rows ≡ false
    → Owned rows
    → Owned (row ∷ rows)
push-Owned row rows fresh h = record {
  distinct = (any_row-none row.id rows fresh, h.distinct);
  some_owner = ground (arith, h.some_owner);
}

insert_account-HasOwner : (row : Staff) → Always HasOwner (insert_account row)
unfolding insert_account ◌>>=◌
insert_account-HasOwner row = record {
  at = λ s h. elim (Bool-cases (any_row (λ x. same_text x.phone row.phone) s.staff)) [
    | inl taken ↦ rw taken h
    | inr free ↦ elim (Bool-cases (account_refused row s.staff)) [
      | inl clash ↦ rw (free, clash) h
      | inr fresh ↦ rw (free, fresh) (push-Owned row s.staff fresh h)
    ]
  ];
}

create_account-HasOwner :
    (env : StaffEnv) (phone hash name : Text) (role : Role) (point : Option IdText)
    → Always HasOwner (create_account env phone hash name role point)
unfolding create_account get_by_phone
create_account-HasOwner env phone hash name role point =
    search (always_rules, insert_account-HasOwner) depth 12

create_staff-HasOwner :
    (crypto : StaffCrypto) (env : StaffEnv) (in_ : CreateStaffInput)
    → Always HasOwner (create_staff crypto env in_)
unfolding create_staff
create_staff-HasOwner crypto env in_ = search (always_rules, create_account-HasOwner) depth 16

update_tx-HasOwner :
    (id : ℕ) (name : Text) (role : Role) (point : Option IdText) (active : Bool)
    (hash : Option Text)
    → Keeps HasOwner (update_tx id name role point active hash)
unfolding update_tx
update_tx-HasOwner id name role point active hash = Ensures-bind _ _ _ _ (Ensures-gets _) λ row.
    Ensures-bind _ _ _ _ (Ensures-or_raise _ row) λ current.
      Ensures-bind _ _ _ _ (Ensures-gets _) λ others. Ensures-guard _ _ _ _ λ allowed.
        Ensures-bind _ _ _ _ (gets-Keeps _ _) λ points.
          Ensures-bind _ _ _ _ (lift-Keeps _ _) λ point_id.
            Ensures-bind _ _ _ _
              (Ensures-modify HasOwner _ (λ s h.
                update-Owned id name role point_id active hash current s.staff (sym h.1.1.0 ∙ h.1.0)
                  (rw h.0 at allowed) h.1.1.1))
              λ _. pure-Keeps _ _

-- What touches only the sessions, the limiters, and the passwords.
revoke-HasOwner : (env : StaffEnv) (id : ℕ) → Always HasOwner (revoke_all_for_staff env id)
unfolding revoke_all_for_staff
revoke-HasOwner env id = record { at = λ s h. h }

update_staff-HasOwner :
    (crypto : StaffCrypto) (env : StaffEnv) (id : ℕ) (in_ : UpdateStaffInput)
    → Always HasOwner (update_staff crypto env id in_)
unfolding update_staff update_account
update_staff-HasOwner crypto env id in_ =
    search (always_rules, update_tx-HasOwner, revoke-HasOwner) depth 16

change_password-Always :
    (id : ℕ) (hash : Text)
    → Always HasOwner (
        modify (λ s. record s {
          staff = update_rows (λ x. x.id == id) (λ x. record x { password_hash = hash }) s.staff;
        }))
change_password-Always id hash = record {
  at = λ s h. record {
    distinct =
        changed-AreDistinct id (λ x. record x { password_hash = hash }) (λ x. refl) s.staff
          h.distinct;
    some_owner =
        rw
          (count_rows-update is_active_owner (λ x. x.id == id)
            (λ x. record x { password_hash = hash }) s.staff (λ x. refl))
          h.some_owner;
  };
}

reset_password-HasOwner :
    (crypto : StaffCrypto) (env : StaffEnv) (id : ℕ) (p : Text)
    → Always HasOwner (reset_password crypto env id p)
unfolding reset_password set_password
reset_password-HasOwner crypto env id p =
    search (always_rules, change_password-Always, revoke-HasOwner) depth 16

ip_allowed-Always : (limit : ℕ) (env : StaffEnv) → Always HasOwner (ip_allowed limit env)
unfolding ip_allowed
ip_allowed-Always limit env = record {
  at = λ s h.
      if_both (λ (r : Result Bool × StaffStore). HasOwner r.1) (limit == 0 || is_empty env.ip)
        (λ _. h) (λ _. h);
}

phone_allowed-Always : (env : StaffEnv) (phone : Text) → Always HasOwner (phone_allowed env phone)
unfolding phone_allowed
phone_allowed-Always env phone = record { at = λ s h. h }

new_session-Always :
    (env : StaffEnv) (id : ℕ) (hash : Text) (until : ℕ)
    → Always HasOwner (create_session env id hash until)
unfolding create_session ◌>>=◌
new_session-Always env id hash until = record {
  at = λ s h.
      elim (Bool-cases
        (any_row (λ x. x.id == env.row_id || same_text x.token_hash hash) s.sessions)) [
          | inl clash ↦ rw clash h
          | inr fresh ↦ rw fresh h
        ];
}

reset_attempts-Always : (phone : Text) → Always HasOwner (modify (reset_attempts phone))
unfolding reset_attempts
reset_attempts-Always phone = record { at = λ s h. h }

start_session-HasOwner :
    (crypto : StaffCrypto) (env : StaffEnv) (phone : Text) (st : Option Staff)
    → Always HasOwner (start_session crypto env phone st)
unfolding start_session
start_session-HasOwner crypto env phone none = search always_rules
start_session-HasOwner crypto env phone (some st) =
    search (always_rules, reset_attempts-Always, new_session-Always)

login-HasOwner :
    (ip_limit : ℕ) (crypto : StaffCrypto) (env : StaffEnv) (phone p : Text)
    → Always HasOwner (login ip_limit crypto env phone p)
unfolding login get_by_phone
login-HasOwner ip_limit crypto env phone p =
    search (always_rules, ip_allowed-Always, phone_allowed-Always, start_session-HasOwner) depth 16

staff_logout-HasOwner :
    (crypto : StaffCrypto) (env : StaffEnv) (token : Text)
    → Always HasOwner (staff_logout crypto env token)
unfolding staff_logout revoke_by_hash
staff_logout-HasOwner crypto env token =
    if-Always _ (is_empty token) _ _ (pure-Always _ _) (record { at = λ s h. h })

restore-Always :
    (id : ℕ) (hash : Text)
    → Always HasOwner
        (modify (λ s. record s { staff = update_rows (λ x. x.id == id) (restore hash) s.staff }))
restore-Always id hash = record {
  at = λ s h.
      let more =
        count_rows-keep is_active_owner (λ x. x.id == id) (restore hash) s.staff
          (λ x active. ground (arith, active)) in
      record {
        distinct = changed-AreDistinct id (restore hash) (λ x. refl) s.staff h.distinct;
        some_owner = omega (arith, h.some_owner, more);
      };
}

insert_or_reset-HasOwner :
    (env : StaffEnv) (phone hash name : Text) (o : Option Staff)
    → Always HasOwner (insert_or_reset env phone hash name o)
unfolding insert_or_reset reset_owner
insert_or_reset-HasOwner env phone hash name none = search (always_rules, insert_account-HasOwner)
insert_or_reset-HasOwner env phone hash name (some x) =
    search (always_rules, restore-Always, revoke-HasOwner) depth 12

ensure_owner_tx-HasOwner :
    (env : StaffEnv) (phone hash name : Text)
    → Always HasOwner (ensure_owner_tx env phone hash name)
unfolding ensure_owner_tx get_by_phone
ensure_owner_tx-HasOwner env phone hash name = search (always_rules, insert_or_reset-HasOwner)

ensure_owner-HasOwner :
    (crypto : StaffCrypto) (env : StaffEnv) (in_ : EnsureOwnerInput)
    → Always HasOwner (ensure_owner crypto env in_)
unfolding ensure_owner
ensure_owner-HasOwner crypto env in_ =
    search (always_rules, Keeps-Always, ensure_owner_tx-HasOwner) depth 12

staff_step-HasOwner :
    (ip_limit : ℕ) (crypto : StaffCrypto) (env : StaffEnv) (e : StaffEvent) (s : StaffStore)
    → HasOwner s
    → HasOwner (staff_step ip_limit crypto env e s)
unfolding staff_step
staff_step-HasOwner ip_limit crypto env (creating in_) s =
    (create_staff-HasOwner crypto env in_).at s
staff_step-HasOwner ip_limit crypto env (updating id in_) s =
    (update_staff-HasOwner crypto env id in_).at s
staff_step-HasOwner ip_limit crypto env (resetting id p) s =
    (reset_password-HasOwner crypto env id p).at s
staff_step-HasOwner ip_limit crypto env (logging_in phone p) s =
    (login-HasOwner ip_limit crypto env phone p).at s
staff_step-HasOwner ip_limit crypto env (logging_out token) s =
    (staff_logout-HasOwner crypto env token).at s
staff_step-HasOwner ip_limit crypto env (ensuring in_) s =
    (ensure_owner-HasOwner crypto env in_).at s

-- From tables whose staff ids are distinct and that have an active owner, any sequence of operations
-- on accounts and sessions leaves such tables: the last active owner can be neither demoted nor
-- deactivated.
pub run_staff-HasOwner :
    (ip_limit : ℕ) (crypto : StaffCrypto) (es : List (StaffEnv × StaffEvent)) (s : StaffStore)
    → HasOwner s
    → HasOwner (run_staff ip_limit crypto es s)
unfolding run_staff
run_staff-HasOwner ip_limit crypto [] s h = h
run_staff-HasOwner ip_limit crypto ((env, e) ∷ es) s h =
    run_staff-HasOwner ip_limit crypto es (staff_step ip_limit crypto env e s)
      (staff_step-HasOwner ip_limit crypto env e s h)
