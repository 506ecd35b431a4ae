-- ===== src/Staff/Accounts.antt =====
-- The statements on staff (internal/staff/admin.go, staff.go, phone.go).
use cozy_backend.Base.{
  ℕ, zero, suc, ◌-◌, Bool, true, false, not, ◌&&◌, ◌||◌, Option, none, some, List, [], ◌∷◌, ltb,
  ◌==◌, if◌then◌else◌, is_some, first_row, count_rows, any_row, where_rows, update_rows, length,
}
use cozy_backend.Apperr.{
  Result, ok, err, internal, staff_not_found, last_owner, phone_taken, invalid_point_id,
}
use cozy_backend.Dbtx.{pure, lift, gets, or_raise, with_tx, modify, raise_if, ◌>>=◌, ◌>>◌}
use cozy_backend.Schema.Text.{Text, IdText, uuid, other, same_text, trim_space}
use cozy_backend.Schema.Rows.{Role, owner}
use cozy_backend.Auth.Phone.{digits_of, e164, phone_result}
use cozy_backend.Staff.Rows.{Staff, StaffAction, StaffEnv}

-- `normalizeStaffPhone`
unfoldable pub normalize_staff_phone : Text → Result Text
unfolding e164
normalize_staff_phone raw = phone_result (e164 raw)

abbrev pub key_or_trimmed : Text → Option Text → Text
key_or_trimmed raw none = trim_space raw
key_or_trimmed raw (some p) = p

-- `canonicalPhoneKey`
unfoldable pub canonical_phone_key : Text → Text
unfolding e164
canonical_phone_key raw = key_or_trimmed raw (e164 raw)

abbrev pub drop : ℕ → Text → Text
drop zero s = s
drop (suc n) [] = []
drop (suc n) (c ∷ cs) = drop n cs

-- `phoneDigitsSuffix`, and the query's `right(regexp_replace(phone, '\D', '', 'g'), 9)`
abbrev pub phone_digits_suffix : Text → Text
phone_digits_suffix phone = drop (length (digits_of phone) - 9) (digits_of phone)

-- `WHERE phone = $1 OR right(…) = $2`
abbrev pub is_candidate : Text → Staff → Bool
is_candidate key st =
    same_text st.phone key || same_text (phone_digits_suffix st.phone) (phone_digits_suffix key)

-- `ORDER BY (phone = $1) DESC, created_at, id`
abbrev pub comes_before : Text → Staff → Staff → Bool
comes_before key a b =
    (same_text a.phone key && not (same_text b.phone key))
    || (not (same_text b.phone key && not (same_text a.phone key))
        && (ltb a.created_at b.created_at || (a.created_at == b.created_at && ltb a.id b.id)))

unfoldable pub place_staff : Text → Staff → List Staff → List Staff
place_staff key st [] = st ∷ []
place_staff key st (x ∷ xs) =
    let rest = x ∷ place_staff key st xs in if comes_before key st x then st ∷ x ∷ xs else rest

unfoldable pub in_lookup_order : Text → List Staff → List Staff
unfolding place_staff
in_lookup_order key [] = []
in_lookup_order key (x ∷ xs) = place_staff key x (in_lookup_order key xs)

-- `s.Phone == key || canonicalPhoneKey(s.Phone) == key`
abbrev pub has_phone : Text → Staff → Bool
has_phone key st = same_text st.phone key || same_text (canonical_phone_key st.phone) key

unfoldable pub staff_by_phone : Text → List Staff → Option Staff
unfolding canonical_phone_key in_lookup_order
staff_by_phone phone rows = first_row (has_phone (canonical_phone_key phone)) (
    in_lookup_order (canonical_phone_key phone)
      (where_rows (is_candidate (canonical_phone_key phone)) rows))

-- `GetByPhone`
unfoldable pub get_by_phone : Text → StaffAction (Option Staff)
unfolding staff_by_phone
get_by_phone phone = gets (λ s. staff_by_phone phone s.staff)

abbrev pub staff_by_id : ℕ → List Staff → Option Staff
staff_by_id id rows = first_row (λ x. x.id == id) rows

-- `GetByID`
unfoldable pub get_by_id : ℕ → StaffAction (Option Staff)
get_by_id id = gets (λ s. staff_by_id id s.staff)

-- The foreign key of a point; a text that is no UUID is refused by Postgres.
abbrev pub point_ref : List ℕ → Option IdText → Result (Option ℕ)
point_ref points none = ok none
point_ref points (some (other t)) = err internal
point_ref points (some (uuid p)) =
    if any_row (λ q. q == p) points then ok (some p) else err invalid_point_id

abbrev pub account_refused : Staff → List Staff → Bool
account_refused row rows = any_row (λ x. x.id == row.id) rows

-- `INSERT INTO staff`: the unique phone and the primary key.
unfoldable pub insert_account : Staff → StaffAction Staff
insert_account row = do
  taken ← gets (λ s. any_row (λ x. same_text x.phone row.phone) s.staff)
  raise_if taken phone_taken
  clash ← gets (λ s. account_refused row s.staff)
  raise_if clash internal
  modify (λ s. record s { staff = row ∷ s.staff })
  pure row

abbrev pub new_account : StaffEnv → Text → Text → Text → Role → Option ℕ → Staff
new_account env phone hash name role point_id = record {
  id = env.row_id;
  phone = phone;
  password_hash = hash;
  name = name;
  role = role;
  point_id = point_id;
  is_active = true;
  created_at = env.now;
}

-- `Create`
unfoldable pub create_account :
    StaffEnv → Text → Text → Text → Role → Option IdText → StaffAction Staff
unfolding get_by_phone insert_account
create_account env phone hash name role point = do
  existing ← get_by_phone phone
  raise_if (is_some existing) phone_taken
  points ← gets (λ s. s.points)
  point_id ← lift (point_ref points point)
  insert_account (new_account env phone hash name role point_id)

abbrev pub is_owner_role : Role → Bool
is_owner_role owner = true
is_owner_role _ = false

abbrev pub is_active_owner : Staff → Bool
is_active_owner st = is_owner_role st.role && st.is_active

-- `countOtherActiveOwners`
abbrev pub count_other_active_owners : ℕ → List Staff → ℕ
count_other_active_owners id rows = count_rows (λ x. is_active_owner x && not (x.id == id)) rows

abbrev pub or_kept : Option Text → Text → Text
or_kept none old = old
or_kept (some h) old = h

abbrev pub staff_row : Text → Role → Option ℕ → Bool → Option Text → Staff → Staff
staff_row name role point_id active hash x = record x {
  name = name;
  role = role;
  point_id = point_id;
  is_active = active;
  password_hash = or_kept hash x.password_hash;
}

-- `losesOwnerStatus`
abbrev pub loses_owner_status : Staff → Role → Bool → Bool
loses_owner_status current role active =
    is_active_owner current && (not (is_owner_role role) || not active)

unfoldable pub update_tx : ℕ → Text → Role → Option IdText → Bool → Option Text → StaffAction Staff
update_tx id name role point active hash = do
  row ← gets (λ s. staff_by_id id s.staff)
  current ← or_raise staff_not_found row
  others ← gets (λ s. count_other_active_owners id s.staff)
  raise_if (loses_owner_status current role active && others == 0) last_owner
  points ← gets (λ s. s.points)
  point_id ← lift (point_ref points point)
  modify (λ s. record s {
    staff = update_rows (λ x. x.id == id) (staff_row name role point_id active hash) s.staff;
  })
  pure (staff_row name role point_id active hash current)

-- `Update`
unfoldable pub update_account :
    ℕ → Text → Role → Option IdText → Bool → Option Text → StaffAction Staff
unfolding update_tx
update_account id name role point active hash = with_tx (update_tx id name role point active hash)

-- `SetPassword`
unfoldable pub set_password : ℕ → Text → StaffAction Unit
set_password id hash = do
  known ← gets (λ s. any_row (λ x. x.id == id) s.staff)
  modify (λ s. record s {
    staff = update_rows (λ x. x.id == id) (λ x. record x { password_hash = hash }) s.staff;
  })
  raise_if (not known) staff_not_found
