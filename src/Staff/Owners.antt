-- ===== src/Staff/Owners.antt =====
-- There is always an active owner (Update in internal/staff/admin.go, and the service above it).
use cozy_backend.Base.{
  ℕ, ◌≤◌, ◌≡◌, refl, Bool, true, false, ◌&&◌, Option, none, some, List, [], ◌∷◌, arith, ◌==◌,
  ==_iff, Bool-cases, inl, inr, count_rows, update_rows,
}
use cozy_backend.Schema.Text.{Text}
use cozy_backend.Schema.Rows.{Role}
use cozy_backend.Staff.Rows.{Staff}
use cozy_backend.Staff.Accounts.{
  staff_by_id, is_owner_role, is_active_owner, count_other_active_owners, staff_row,
  loses_owner_status,
}

-- No id stands twice.
abbrev pub AreDistinct : List Staff → Type 0
AreDistinct [] = Unit
AreDistinct (x ∷ xs) = (staff_by_id x.id xs ≡ none) × AreDistinct xs

abbrev pub owners : List Staff → ℕ
owners rows = count_rows is_active_owner rows

-- The ids are distinct, and one of the rows is an active owner.
pub record Owned (rows : List Staff) : Type 0 where
  pub distinct : AreDistinct rows
  pub some_owner : 1 ≤ owners rows

module _ (id : ℕ) (f : Staff → Staff) (keep : (x : Staff) → (f x).id ≡ x.id) where
  abbrev changed : List Staff → List Staff
  changed = update_rows (λ x. x.id == id) f

  changed-none :
      (j : ℕ) (rows : List Staff) → staff_by_id j rows ≡ none → staff_by_id j (changed rows) ≡ none
  changed-none j [] h = refl
  changed-none j (x ∷ xs) h = ground (arith, h, keep x, changed-none j xs)

  pub changed-AreDistinct : (rows : List Staff) → AreDistinct rows → AreDistinct (changed rows)
  changed-AreDistinct [] h = tt
  changed-AreDistinct (x ∷ xs) h = elim (Bool-cases (x.id == id)) [
    | inl hit ↦ rw hit ((rw (keep x) (changed-none x.id xs h.0)), changed-AreDistinct xs h.1)
    | inr miss ↦ rw miss (changed-none x.id xs h.0, changed-AreDistinct xs h.1)
  ]

  absent : (rows : List Staff) → staff_by_id id rows ≡ none → owners (changed rows) ≡ owners rows
  absent [] h = refl
  absent (x ∷ xs) h = ground (arith, h, absent xs)

  -- A change of a row that is no active owner loses none.
  other_row :
      (current : Staff) (rows : List Staff)
      → AreDistinct rows
      → staff_by_id id rows ≡ some current
      → is_active_owner current ≡ false
      → owners rows ≤ owners (changed rows)
  other_row current [] h e plain = omega arith
  other_row current (x ∷ xs) h e plain = elim (Bool-cases (x.id == id)) [
    | inr miss ↦
        let rest = other_row current xs h.1 (rw miss at e) plain in rw miss (ground (arith, rest))
    | inl hit ↦
        let is_it : some x ≡ some current = rw hit at e in
        let same : x ≡ current = cc in
        let own : x.id ≡ id = (==_iff _ _).0 hit in
        let gone : staff_by_id id xs ≡ none = rw own at h.0 in
        let plain_x : is_active_owner x ≡ false = rw same plain in
        rw (hit, plain_x, absent xs gone) (ground arith)
  ]

  -- A row that becomes or stays an active owner is one.
  new_owner :
      (current : Staff) (rows : List Staff)
      → staff_by_id id rows ≡ some current
      → ((x : Staff) → is_active_owner (f x) ≡ true)
      → 1 ≤ owners (changed rows)
  new_owner current [] e owner = cc
  new_owner current (x ∷ xs) e owner = elim (Bool-cases (x.id == id)) [
    | inl hit ↦ rw (hit, owner x) (omega arith)
    | inr miss ↦
        let rest = new_owner current xs (rw miss at e) owner in rw miss (ground (arith, rest))
  ]

  -- The other owners stay.
  others_stay : (rows : List Staff) → count_other_active_owners id rows ≤ owners (changed rows)
  others_stay [] = omega arith
  others_stay (x ∷ xs) = elim (Bool-cases (x.id == id)) [
    | inl hit ↦ rw hit (ground (arith, others_stay xs))
    | inr miss ↦ rw miss (ground (arith, others_stay xs))
  ]

-- An update that the check of the last owner lets through.
pub update-Owned :
    (id : ℕ) (name : Text) (role : Role) (point_id : Option ℕ) (active : Bool) (hash : Option Text)
    (current : Staff) (rows : List Staff)
    → staff_by_id id rows ≡ some current
    → (loses_owner_status current role active && count_other_active_owners id rows == 0) ≡ false
    → Owned rows
    → Owned (update_rows (λ x. x.id == id) (staff_row name role point_id active hash) rows)
update-Owned id name role point_id active hash current rows found allowed h = record {
  distinct = changed-AreDistinct id f (λ x. refl) rows h.distinct;
  some_owner = elim (Bool-cases (is_active_owner current)) [
    | inr plain ↦
        omega (arith, h.some_owner, other_row id f (λ x. refl) current rows h.distinct found plain)
    | inl is_owner ↦ elim (Bool-cases (is_owner_role role && active)) [
      | inl stays ↦ new_owner id f (λ x. refl) current rows found (λ x. stays)
      | inr falls ↦
          let loses : loses_owner_status current role active ≡ true =
            ground (arith, is_owner, falls) in
          let more : 1 ≤ count_other_active_owners id rows = ground (arith, loses, allowed) in
          omega (arith, more, others_stay id f (λ x. refl) rows)
    ]
  ];
}
  where
    f : Staff → Staff
    f = staff_row name role point_id active hash
