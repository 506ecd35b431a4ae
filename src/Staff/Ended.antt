-- ===== src/Staff/Ended.antt =====
-- A new password or a deactivation ends every session of the account (internal/staff/service.go).
use cozy_backend.Base.{
  first_row-test, ℕ, ◌≡◌, refl, sym, ap, ◌∙◌, subst, true, false, not, ◌&&◌, ◌||◌, Option, none,
  some, List, [], ◌∷◌, arith, ◌==◌, if◌then◌else◌, Bool-cases, Option-cases, inl, inr, is_some,
  first_row, first_row-All, update_rows, All,
}
use cozy_backend.Apperr.{Result, ok, err}
use cozy_backend.Dbtx.{◌>>=◌}
use cozy_backend.Dbtx.Ensures.{Post, Ensures, Ensures-bind, Ensures-modify, Ensures-if}
use cozy_backend.Dbtx.Keeps.{Keeps, pure-Keeps}
use cozy_backend.Schema.Text.{Text, same_text}
use cozy_backend.Staff.Rows.{
  Staff, StaffSession, StaffStore, StaffAction, StaffEnv, StaffCrypto, UpdateStaffInput,
}
use cozy_backend.Staff.Accounts.{staff_by_id, get_by_id}
use cozy_backend.Staff.Sessions.{is_live, get_active_by_hash, revoke_all_for_staff}
use cozy_backend.Staff.Service.{
  active_only, staff_of, authenticated_staff, reset_password, update_staff,
}

-- Every session of the account is revoked.
abbrev AreOut : ℕ → List StaffSession → Type 0
AreOut id rows = All (λ x. (x.staff_id == id) ≡ true → is_some x.revoked_at ≡ true) rows

abbrev Anything : StaffStore → Type 0
Anything s = Unit

revoked-AreOut :
    (env : StaffEnv) (id : ℕ) (rows : List StaffSession)
    → AreOut id (
        update_rows
          (λ x. x.staff_id == id && not (is_some x.revoked_at))
          (λ x. record x { revoked_at = some env.now })
          rows)
revoked-AreOut env id [] = tt
revoked-AreOut env id (x ∷ xs) = (
  (elim (Bool-cases (x.staff_id == id && not (is_some x.revoked_at))) [
    | inl hit ↦ rw hit (λ _. refl)
    | inr miss ↦ rw miss (λ mine. ground (arith, mine, miss))
  ]),
  revoked-AreOut env id xs,
)

revoke-AreOut :
    (env : StaffEnv) (id : ℕ)
    → Ensures Anything (revoke_all_for_staff env id) (λ _ s. AreOut id s.sessions)
unfolding revoke_all_for_staff
revoke-AreOut env id =
    Ensures-modify (λ s. AreOut id s.sessions) _ (λ s h. revoked-AreOut env id s.sessions)

-- An account whose sessions are revoked is not resolved from any token.
active_only-id :
    (id j : ℕ) (o : Option Staff) (st : Staff)
    → (j == id) ≡ false
    → ((x : Staff) → o ≡ some x → (x.id == j) ≡ true)
    → active_only o ≡ some st
    → (st.id == id) ≡ false
active_only-id id j none st other own e = cc
active_only-id id j (some x) st other own e = elim (Bool-cases x.is_active) [
  | inr idle ↦ let no : none ≡ some st = rw idle at e in absurd (cc)
  | inl active ↦
      let is_it : some x ≡ some st = sym (ap (λ b. if b then some x else none) active) ∙ e in
      let same : x ≡ st = cc in
      let mine = own x refl in subst (λ y. (y.id == id) ≡ false) same (ground (arith, mine, other))
]

authenticated_staff-out :
    (crypto : StaffCrypto) (env : StaffEnv) (id : ℕ) (token : Text) (st : Staff) (s : StaffStore)
    → AreOut id s.sessions
    → (authenticated_staff crypto env token s).0 ≡ ok (some st)
    → (st.id == id) ≡ false
unfolding authenticated_staff get_active_by_hash staff_of get_by_id ◌>>=◌
authenticated_staff-out crypto env id token st s out e =
    elim (Option-cases (
      first_row (λ x. same_text x.token_hash (crypto.hash_token token) && is_live env x)
        s.sessions)) [
          | inl nothing ↦ let no : ok none ≡ ok (some st) = rw nothing at e in absurd (cc)
          | inr (x, f) ↦
              let found =
                first_row-All _
                  (λ x. same_text x.token_hash (crypto.hash_token token) && is_live env x)
                  s.sessions x out f in
              let other : (x.staff_id == id) ≡ false = elim (Bool-cases (x.staff_id == id)) [
                | inr o ↦ o
                | inl mine ↦ let gone = found.0 mine in absurd (ground (arith, gone, found.1))
              ] in
              let is_it : ok (active_only (staff_by_id x.staff_id s.staff)) ≡ ok (some st) =
                rw f at e in
              active_only-id id x.staff_id (staff_by_id x.staff_id s.staff) st other
                (first_row-test (λ y. y.id == x.staff_id) s.staff) (cc)
        ]

Post-ok :
    {A : Type 0} (Q : A → StaffStore → Type 0) (p : Result A × StaffStore) (a : A)
    → Post Q p
    → p.0 ≡ ok a
    → Q a p.1
Post-ok Q (ok b, s) a h e = let same : b ≡ a = cc in subst (λ x. Q x s) same h
Post-ok Q (err x, s) a h e = cc

any-Post : {A : Type 0} (p : Result A × StaffStore) → Post (λ _. Anything) p
any-Post (ok a, s) = tt
any-Post (err e, s) = tt

anything : {A : Type 0} (m : StaffAction A) → Keeps Anything m
anything m = record { at = λ s h. any-Post (m s) }

reset_password-Out :
    (crypto : StaffCrypto) (env : StaffEnv) (id : ℕ) (p : Text)
    → Ensures Anything (reset_password crypto env id p) (λ _ s. AreOut id s.sessions)
unfolding reset_password
reset_password-Out crypto env id p =
    Ensures-bind (λ _. Anything) _ _ _ (anything _)
      λ _.
        Ensures-bind (λ _. Anything) _ _ _ (anything _)
          λ hash. Ensures-bind (λ _. Anything) _ _ _ (anything _) λ _. revoke-AreOut env id

update_staff-Out :
    (crypto : StaffCrypto) (env : StaffEnv) (id : ℕ) (in_ : UpdateStaffInput)
    → (is_some in_.password || not in_.is_active) ≡ true
    → Ensures Anything (update_staff crypto env id in_) (λ _ s. AreOut id s.sessions)
unfolding update_staff
update_staff-Out crypto env id in_ ends =
    Ensures-bind (λ _. Anything) _ _ _ (anything _)
      λ _.
        Ensures-bind (λ _. Anything) _ _ _ (anything _)
          λ role.
            Ensures-bind (λ _. Anything) _ _ _ (anything _)
              λ hash.
                Ensures-bind (λ _. Anything) _ _ _ (anything _)
                  λ updated.
                    Ensures-if _ (is_some in_.password || not in_.is_active) _ _
                      (λ _. Ensures-bind _ _ _ _ (revoke-AreOut env id) λ _. pure-Keeps _ _)
                      (λ stays. absurd (cc))

module _ (crypto : StaffCrypto) (env later : StaffEnv) (id : ℕ) (token : Text) (st : Staff) where
  -- After a password was reset, no token that is presented before the next login resolves to the
  -- account.
  pub reset_password-ends :
      (p : Text) (s : StaffStore)
      → (reset_password crypto env id p s).0 ≡ ok tt
      → (authenticated_staff crypto later token (reset_password crypto env id p s).1).0
        ≡ ok (some st)
      → (st.id == id) ≡ false
  reset_password-ends p s done =
      authenticated_staff-out crypto later id token st (reset_password crypto env id p s).1 (
        Post-ok (λ _ t. AreOut id t.sessions) (reset_password crypto env id p s) tt
          ((reset_password-Out crypto env id p).at s tt) done)

  -- After an account was updated with a new password or as inactive, no token that is presented before
  -- the next login resolves to it.
  pub update_staff-ends :
      (in_ : UpdateStaffInput) (s : StaffStore) (updated : Staff)
      → (is_some in_.password || not in_.is_active) ≡ true
      → (update_staff crypto env id in_ s).0 ≡ ok updated
      → (authenticated_staff crypto later token (update_staff crypto env id in_ s).1).0
        ≡ ok (some st)
      → (st.id == id) ≡ false
  update_staff-ends in_ s updated ends done =
      authenticated_staff-out crypto later id token st (update_staff crypto env id in_ s).1 (
        Post-ok (λ _ t. AreOut id t.sessions) (update_staff crypto env id in_ s) updated
          ((update_staff-Out crypto env id in_ ends).at s tt) done)
