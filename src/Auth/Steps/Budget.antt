-- ===== src/Auth/Steps/Budget.antt =====
-- A budget that the statements on one code spend (takeAttempt and consume in
-- internal/auth/otp_repo.go).
use cozy_backend.Base.{
  ℕ, ◌+◌, ◌≤◌, ◌≡◌, refl, sym, ◌∙◌, Bool, true, false, ◌&&◌, List, [], ◌∷◌, arith, ◌==◌,
  if◌then◌else◌, update_rows, any_row, All, All-update_rows,
}
use cozy_backend.Dbtx.Ensures.{Ensures-bind, Ensures-gets, Ensures-guard, Ensures-modify}
use cozy_backend.Dbtx.Keeps.{Keeps, pure-Keeps}
use cozy_backend.Dbtx.Always.{Always, with_tx-Always}
use cozy_backend.Schema.Text.{Text}
use cozy_backend.Auth.Rows.{OtpCode, Store, AuthEnv, AuthConfig}
use cozy_backend.Auth.Codes.{
  new_code, code_refused, insert_code, reserve_tx, reserve, OtpSendLimits,
}
use cozy_backend.Auth.Steps.Apart.{check_limits-Keeps}
use cozy_backend.Auth.Steps.{Act, perform}

-- How many of the statements that pass the test were granted.
abbrev pub grants : AuthConfig → (Act → Bool) → List (AuthEnv × Act) → Store → ℕ
grants cfg test [] s = 0
grants cfg test ((env, a) ∷ acts) s =
    let done = perform cfg env a s in
    (if test a && done.0 then 1 else 0) + grants cfg test acts done.1

-- A budget for the code `id`: its row stands in the table, and if it passes the test `T`, it has at
-- most `n` left.
abbrev pub Within : (OtpCode → Bool) → (OtpCode → ℕ) → ℕ → ℕ → List OtpCode → Type 0
Within T w id n rows =
    (any_row (λ c. c.id == id) rows ≡ true) × All (λ c. T c ≡ true → w c ≤ n) rows

any_row-update :
    (id : ℕ) (hits : OtpCode → Bool) (f : OtpCode → OtpCode) (rows : List OtpCode)
    → ((c : OtpCode) → (f c).id ≡ c.id)
    → any_row (λ c. c.id == id) (update_rows hits f rows) ≡ any_row (λ c. c.id == id) rows
any_row-update id hits f [] same = refl
any_row-update id hits f (c ∷ cs) same = ground (arith, same c, any_row-update id hits f cs same)

-- A row that the table accepts has another id than a row that stands there.
accepted_id :
    (row : OtpCode) (id : ℕ) (rows : List OtpCode)
    → any_row (λ c. c.id == id) rows ≡ true
    → code_refused row rows ≡ false
    → (row.id == id) ≡ false
accepted_id row id [] known fits = cc
accepted_id row id (c ∷ cs) known fits = ground (arith, known, fits, accepted_id row id cs)

module _ (T : OtpCode → Bool) (w : OtpCode → ℕ) (id : ℕ) where
  pub update-Within :
      (n m : ℕ) (hits : OtpCode → Bool) (f : OtpCode → OtpCode) (rows : List OtpCode)
      → ((c : OtpCode) → (f c).id ≡ c.id)
      → ((c : OtpCode) → (T c ≡ true → w c ≤ n) → hits c ≡ true → T (f c) ≡ true → w (f c) ≤ m)
      → ((c : OtpCode) → (T c ≡ true → w c ≤ n) → hits c ≡ false → T c ≡ true → w c ≤ m)
      → Within T w id n rows
      → Within T w id m (update_rows hits f rows)
  update-Within n m hits f rows same hit miss h = (
    any_row-update id hits f rows same ∙ h.0,
    All-update_rows (λ c. T c ≡ true → w c ≤ n) (λ c. T c ≡ true → w c ≤ m) hits f rows hit miss
        h.1,
  )

  insert_code-Within :
      (n : ℕ) (row : OtpCode)
      → (T row ≡ true → (row.id == id) ≡ true)
      → Keeps (λ s. Within T w id n s.codes) (insert_code row)
  unfolding insert_code
  insert_code-Within n row own = Ensures-bind _ _ _ _ (Ensures-gets _) λ refused.
      Ensures-guard _ _ _ _ λ fits. Ensures-modify _ _ (λ s h.
        let other = accepted_id row id s.codes h.1.0 (sym h.0 ∙ fits) in
        (ground (arith, h.1.0), ((λ t. absurd (ground (arith, own t, other))), h.1.1)))

  pub reserve-Within :
      (n : ℕ) (env : AuthEnv) (phone ip transaction_id : Text) (expires_at : ℕ)
      (lim : OtpSendLimits)
      → (T (new_code env phone ip transaction_id expires_at) ≡ true → (env.row_id == id) ≡ true)
      → Always (λ s. Within T w id n s.codes) (reserve env phone ip transaction_id expires_at lim)
  unfolding reserve reserve_tx
  reserve-Within n env phone ip transaction_id expires_at lim own = with_tx-Always _ _ (
      Ensures-bind _ _ _ _ (check_limits-Keeps _ env phone ip lim)
        λ _. Ensures-bind _ _ _ _ (insert_code-Within n _ own) λ _. pure-Keeps _ _)

-- What a statement spends of a budget `n`, and what it leaves.
abbrev pub Spends :
    (OtpCode → Bool) → (OtpCode → ℕ) → (Act → Bool) → ℕ → ℕ → Act → Bool × Store → Type 0
Spends T w test id n a r =
    (m : ℕ) × ((if test a && r.0 then 1 else 0) + m ≤ n) × Within T w id m r.1.codes

module _ (T : OtpCode → Bool) (w : OtpCode → ℕ) (test : Act → Bool) (id : ℕ)
    (cfg : AuthConfig) where
  pub grants-Within :
      ((n : ℕ) (env : AuthEnv) (a : Act) (s : Store)
        → Within T w id n s.codes
        → Spends T w test id n a (perform cfg env a s))
      → (acts : List (AuthEnv × Act)) (n : ℕ) (s : Store) → Within T w id n s.codes
      → grants cfg test acts s ≤ n
  grants-Within spends [] n s h = omega arith
  grants-Within spends ((env, a) ∷ acts) n s h =
      let one = spends n env a s h in
      let rest = grants-Within spends acts one.0 (perform cfg env a s).1 one.2 in
      omega (arith, one.1, rest)
