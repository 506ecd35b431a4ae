-- ===== src/Staff/Entry.antt =====
-- Who may log in (Login in internal/staff/service.go).
use cozy_backend.Base.{
  ℕ, ◌+◌, ◌≡◌, refl, sym, ap, ◌∙◌, Bool, true, false, not, ◌&&◌, ◌||◌, Option, none, some, List, [],
  ◌∷◌, arith, ◌==◌, if_both, ◌⊎◌, inl, inr, Bool-cases, first_row, where_rows,
}
use cozy_backend.Apperr.{Result, ok, err}
use cozy_backend.Dbtx.Ensures.{
  Post, Ensures, Ensures-bind, Ensures-guard, Ensures-given, Ensures-pure, Ensures-modify,
}
use cozy_backend.Dbtx.Keeps.{Keeps, gets-Keeps, raise_if-Keeps}
use cozy_backend.Schema.Text.{Text, same_text, eq_of_same_text}
use cozy_backend.Auth.Limiter.{is_empty}
use cozy_backend.Staff.Rows.{Staff, StaffSession, StaffStore, StaffEnv, StaffCrypto}
use cozy_backend.Staff.Accounts.{
  canonical_phone_key, staff_by_phone, get_by_phone, has_phone, comes_before, place_staff,
  in_lookup_order, is_candidate,
}
use cozy_backend.Staff.Sessions.{create_session}
use cozy_backend.Staff.Service.{
  hash_of, may_log_in, ip_allowed, phone_allowed, login, start_session, reset_attempts, session_ttl,
}
use cozy_backend.Staff.Spelling.{canonical_phone_key_idem}

-- The account is one of the rows.
abbrev pub IsListed : Staff → List Staff → Type 0
IsListed st [] = ⊥
IsListed st (x ∷ xs) = (st ≡ x) ⊎ IsListed st xs

-- The two forms of the number agree.
abbrev pub HasPhone : Text → Staff → Type 0
HasPhone phone st =
    (st.phone ≡ canonical_phone_key phone)
    ⊎ (canonical_phone_key st.phone ≡ canonical_phone_key phone)

first_row-IsListed :
    (test : Staff → Bool) (xs : List Staff) (st : Staff)
    → first_row test xs ≡ some st
    → IsListed st xs × (test st ≡ true)
first_row-IsListed test [] st e = cc
first_row-IsListed test (x ∷ xs) st e = elim (Bool-cases (test x)) [
  | inl hit ↦
      let found : some x ≡ some st = rw hit at e in
      let same : st ≡ x = cc in (inl same, rw same hit)
  | inr miss ↦ let rest = first_row-IsListed test xs st (rw miss at e) in (inr rest.0, rest.1)
]

where_rows-IsListed :
    (test : Staff → Bool) (xs : List Staff) (st : Staff)
    → IsListed st (where_rows test xs)
    → IsListed st xs
where_rows-IsListed test [] st h = h
where_rows-IsListed test (x ∷ xs) st h = elim (Bool-cases (test x)) [
  | inl hit ↦ elim (rw hit at h) [ inl e ↦ inl e | inr k ↦ inr (where_rows-IsListed test xs st k) ]
  | inr miss ↦ inr (where_rows-IsListed test xs st (rw miss at h))
]

place_staff-IsListed :
    (key : Text) (x : Staff) (xs : List Staff) (st : Staff)
    → IsListed st (place_staff key x xs)
    → IsListed st (x ∷ xs)
unfolding place_staff
place_staff-IsListed key x [] st h = h
place_staff-IsListed key x (y ∷ ys) st h = elim (Bool-cases (comes_before key x y)) [
  | inl first ↦ rw first at h
  | inr later ↦ elim (rw later at h) [
    | inl e ↦ inr (inl e)
    | inr k ↦ elim (place_staff-IsListed key x ys st k) [ inl e ↦ inl e | inr r ↦ inr (inr r) ]
  ]
]

in_lookup_order-IsListed :
    (key : Text) (xs : List Staff) (st : Staff)
    → IsListed st (in_lookup_order key xs)
    → IsListed st xs
unfolding in_lookup_order
in_lookup_order-IsListed key [] st h = h
in_lookup_order-IsListed key (x ∷ xs) st h =
    elim (place_staff-IsListed key x (in_lookup_order key xs) st h) [
      | inl e ↦ inl e
      | inr k ↦ inr (in_lookup_order-IsListed key xs st k)
    ]

has_phone-HasPhone :
    (phone : Text) (st : Staff)
    → has_phone (canonical_phone_key phone) st ≡ true
    → HasPhone phone st
has_phone-HasPhone phone st h = elim (Bool-cases (same_text st.phone (canonical_phone_key phone))) [
  | inl same ↦ inl (eq_of_same_text _ _ same)
  | inr other ↦ inr (eq_of_same_text _ _ (ground (arith, h, other)))
]

staff_by_phone-HasPhone :
    (phone : Text) (rows : List Staff) (st : Staff)
    → staff_by_phone (canonical_phone_key phone) rows ≡ some st
    → IsListed st rows × HasPhone phone st
unfolding staff_by_phone
staff_by_phone-HasPhone phone rows st e =
    let key = canonical_phone_key (canonical_phone_key phone) in
    let found = first_row-IsListed (has_phone key) _ st e in
    let asked : has_phone (canonical_phone_key phone) st ≡ true =
      (rw (canonical_phone_key_idem phone) at found.1) in
    (
      where_rows-IsListed (is_candidate key) rows st (in_lookup_order-IsListed key _ st found.0),
      has_phone-HasPhone phone st asked,
    )

module _ (crypto : StaffCrypto) (env : StaffEnv) (rows : List Staff) (sessions : List StaffSession)
    (phone password : Text) where
  -- An account among the rows that has the phone number, is active and has this password.
  abbrev pub IsAdmitted : Staff → Type 0
  IsAdmitted st =
      IsListed st rows
      × HasPhone phone st
      × (st.is_active ≡ true)
      × (crypto.compare st.password_hash password ≡ true)

  abbrev pub session_of : Staff → Text → StaffSession
  session_of st token = record {
    id = env.row_id;
    staff_id = st.id;
    token_hash = crypto.hash_token token;
    expires_at = env.now + session_ttl;
    revoked_at = none;
  }

  -- Some account is admitted, and the token's session is its own.
  abbrev pub Enters : Text → StaffStore → Type 0
  Enters token s = (st : Staff) × IsAdmitted st × (s.sessions ≡ session_of st token ∷ sessions)

  abbrev Same : StaffStore → Type 0
  Same s = (s.staff ≡ rows) × (s.sessions ≡ sessions)

  ip_allowed-Same : (limit : ℕ) → Keeps Same (ip_allowed limit env)
  unfolding ip_allowed
  ip_allowed-Same limit = record {
    at = λ s h.
        if_both (λ (r : Result Bool × StaffStore). Post (λ _. Same) r)
          (limit == 0 || is_empty env.ip) (λ _. h) (λ _. h);
  }

  phone_allowed-Same : (key : Text) → Keeps Same (phone_allowed env key)
  unfolding phone_allowed
  phone_allowed-Same key = record { at = λ s h. h }

  start_session-Enters :
      (key : Text) (st : Staff)
      → IsAdmitted st
      → Ensures Same (start_session crypto env key (some st)) Enters
  unfolding start_session create_session reset_attempts
  start_session-Enters key st admitted =
      Ensures-bind (λ _. Same) _ _ _ (Ensures-modify Same _ (λ s h. h))
        λ _.
          Ensures-bind (λ _ s. s.sessions ≡ session_of st env.raw_token ∷ sessions) _ _ _
            (Ensures-bind (λ _. Same) _ _ _ (gets-Keeps Same _)
              λ refused.
                Ensures-bind (λ _. Same) _ _ _ (raise_if-Keeps Same refused _)
                  λ _.
                    Ensures-modify (λ s. s.sessions ≡ session_of st env.raw_token ∷ sessions) _
                      (λ s h. ap (λ xs. session_of st env.raw_token ∷ xs) h.1))
            λ _. Ensures-pure Enters env.raw_token (λ s h. (st, admitted, h))

  found-Enters :
      (key : Text) (o : Option Staff)
      → o ≡ staff_by_phone (canonical_phone_key phone) rows
      → not (may_log_in o && crypto.compare (hash_of o) password) ≡ false
      → Ensures Same (start_session crypto env key o) Enters
  found-Enters key none e h = absurd (ground (arith, h))
  found-Enters key (some st) e h =
      let listed = staff_by_phone-HasPhone phone rows st (sym e) in
      start_session-Enters key st (listed.0, listed.1, ground (arith, h), ground (arith, h))

  login-Enters : (ip_limit : ℕ) → Ensures Same (login ip_limit crypto env phone password) Enters
  unfolding login get_by_phone
  login-Enters ip_limit = Ensures-bind _ _ _ _ (ip_allowed-Same ip_limit) λ from_ip.
      Ensures-guard _ _ _ _ λ _. Ensures-bind _ _ _ _ (phone_allowed-Same _) λ for_phone.
        Ensures-guard _ _ _ _ λ _.
          Ensures-bind (λ o s. (o ≡ staff_by_phone (canonical_phone_key phone) rows) × Same s) _ _ _
            (record { at = λ s h. (ap (staff_by_phone (canonical_phone_key phone)) h.0, h) })
            λ o.
              Ensures-given _ _ _
                λ found. Ensures-guard _ _ _ _ λ right. found-Enters _ o found right

-- A login returns a session token only for an active account that has the phone number, in any of its
-- spellings, and whose stored hash accepts the password; and the one session that it opens is of this
-- token's hash, of that account, and lasts 12 hours.
pub login-IsAdmitted :
    (ip_limit : ℕ) (crypto : StaffCrypto) (env : StaffEnv) (phone password token : Text)
    (s : StaffStore)
    → (login ip_limit crypto env phone password s).0 ≡ ok token
    → Enters crypto env s.staff s.sessions phone password token
        (login ip_limit crypto env phone password s).1
login-IsAdmitted ip_limit crypto env phone password token s done =
    from_ok (login ip_limit crypto env phone password s)
      ((login-Enters crypto env s.staff s.sessions phone password ip_limit).at s (refl, refl)) done
  where
    from_ok :
        (p : Result Text × StaffStore)
        → Post (Enters crypto env s.staff s.sessions phone password) p
        → p.0 ≡ ok token
        → Enters crypto env s.staff s.sessions phone password token p.1
    from_ok (ok t, u) h e =
        let same : t ≡ token = cc in
        (
          h.0,
          h.1,
          h.2
              ∙ ap (λ x. session_of crypto env s.staff s.sessions phone password h.0 x ∷ s.sessions)
                  same,
        )
    from_ok (err x, u) h e = cc
