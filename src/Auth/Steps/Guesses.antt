-- ===== src/Auth/Steps/Guesses.antt =====
-- How often one code may be tried, and used (takeAttempt and consume in internal/auth/otp_repo.go).
use cozy_backend.Base.{
  All-always, ℕ, suc, ◌-◌, ◌≤◌, ◌≡◌, refl, Bool, true, false, List, arith, ◌==◌, Bool-cases,
  Option-cases, inl, inr, ==_iff, first_row, any_row, first_row-All,
}
use cozy_backend.Dbtx.{◌>>=◌}
use cozy_backend.Auth.Rows.{OtpCode, Store, AuthEnv, AuthConfig}
use cozy_backend.Auth.Codes.{
  set_token, burn, take_attempt, consume, unconsumed, use_up, has_budget, count_attempt,
}
use cozy_backend.Auth.Service.{send_limits, max_attempts}
use cozy_backend.Auth.Steps.Apart.{
  create-Apart, rotate-Apart, revoke_family-Apart, insert_token-Always,
}
use cozy_backend.Auth.Steps.{Act, perform}
use cozy_backend.Auth.Steps.Budget.{
  Within, Spends, grants, update-Within, reserve-Within, grants-Within,
}
use cozy_backend.Auth.Steps.Uses.{is_use_of, one_use, use-Spends}

-- The attempts at a code that a run grants.
abbrev pub is_attempt_at : ℕ → Act → Bool
is_attempt_at id (Act.attempting i) = i == id
is_attempt_at id _ = false

-- The arithmetic of one attempt.
attempt_less :
    (max id n : ℕ) (c : OtpCode)
    → (has_budget id max c ≡ true → max - c.verify_attempts ≤ n)
    → has_budget id max (count_attempt c) ≡ true
    → max - suc c.verify_attempts ≤ n
attempt_less max id n c k t = ground (arith, t, k)

attempt_spent :
    (max id i n : ℕ) (c : OtpCode)
    → (i == id) ≡ true
    → (has_budget id max c ≡ true → max - c.verify_attempts ≤ n)
    → has_budget i max c ≡ true
    → (max - suc c.verify_attempts ≤ n - 1) × (1 ≤ n)
attempt_spent max id i n c mine k e =
    let same : i ≡ id = (==_iff _ _).0 mine in
    let left : max - c.verify_attempts ≤ n = k (rw same at e) in ground (arith, e, left)

attempt_missed :
    (max id i m : ℕ) (c : OtpCode)
    → (i == id) ≡ true
    → has_budget i max c ≡ false
    → has_budget id max c ≡ true
    → max - c.verify_attempts ≤ m
attempt_missed max id i m c mine e t =
    let same : i ≡ id = (==_iff _ _).0 mine in
    let no : has_budget id max c ≡ false = rw same at e in absurd (cc)

module _ (id : ℕ) (cfg : AuthConfig) where
  abbrev open_to_guess : OtpCode → Bool
  open_to_guess = has_budget id (max_attempts cfg)

  abbrev guesses_left : OtpCode → ℕ
  guesses_left c = max_attempts cfg - c.verify_attempts

  attempt-Spends :
      (n : ℕ) (env : AuthEnv) (i : ℕ) (s : Store)
      → Within open_to_guess guesses_left id n s.codes
      → Spends open_to_guess guesses_left
          (is_attempt_at id)
          id
          n
          (Act.attempting i)
          (perform cfg env (Act.attempting i) s)
  unfolding perform take_attempt ◌>>=◌
  attempt-Spends n env i s h =
      elim (Option-cases (first_row (has_budget i (max_attempts cfg)) s.codes)) [
        | inl nothing ↦ (
          n,
          rw nothing (ground arith),
          update-Within open_to_guess guesses_left id n n (has_budget i (max_attempts cfg))
              count_attempt s.codes (λ c. refl)
              (λ c k e t. attempt_less (max_attempts cfg) id n c k t) (λ c k e t. k t) h,
        )
        | inr (c, e) ↦ elim (Bool-cases (i == id)) [
          | inr other ↦ (
            n,
            rw (e, other) (omega arith),
            update-Within open_to_guess guesses_left id n n (has_budget i (max_attempts cfg))
                count_attempt s.codes (λ c. refl)
                (λ c k e t. attempt_less (max_attempts cfg) id n c k t) (λ c k e t. k t) h,
          )
          | inl mine ↦
              let own = first_row-All _ (has_budget i (max_attempts cfg)) s.codes c h.1 e in
              let some_left : 1 ≤ n =
                (attempt_spent (max_attempts cfg) id i n c mine own.0 own.1).1 in
              (
                n - 1,
                rw (e, mine) (omega (arith, some_left)),
                update-Within open_to_guess guesses_left id n (n - 1)
                    (has_budget i (max_attempts cfg)) count_attempt s.codes (λ c. refl)
                    (λ c k e t. (attempt_spent (max_attempts cfg) id i n c mine k e).0)
                    (λ c k e t. attempt_missed (max_attempts cfg) id i (n - 1) c mine e t) h,
              )
        ]
      ]

  guess-Spends :
      (n : ℕ) (env : AuthEnv) (a : Act) (s : Store)
      → Within open_to_guess guesses_left id n s.codes
      → Spends open_to_guess guesses_left (is_attempt_at id) id n a (perform cfg env a s)
  unfolding perform set_token burn take_attempt consume ◌>>=◌
  guess-Spends n env (Act.reserving phone ip transaction_id expires_at) s h = (
    n,
    omega arith,
    (reserve-Within open_to_guess guesses_left id n env phone ip transaction_id expires_at
          (send_limits cfg) (λ t. ground (arith, t))).at
        s h,
  )
  guess-Spends n env (Act.setting_token i token) s h = (
    n,
    omega arith,
    update-Within open_to_guess guesses_left id n n (λ c. c.id == i)
        (λ c. record c { token = token }) s.codes (λ c. refl) (λ c k e t. k t) (λ c k e t. k t) h,
  )
  guess-Spends n env (Act.burning i) s h = (
    n,
    omega arith,
    update-Within open_to_guess guesses_left id n n (unconsumed i) (use_up env) s.codes (λ c. refl)
        (λ c k e t. absurd (ground (arith, t))) (λ c k e t. k t) h,
  )
  guess-Spends n env (Act.attempting i) s h = attempt-Spends n env i s h
  guess-Spends n env (Act.consuming i) s h = (
    n,
    omega arith,
    update-Within open_to_guess guesses_left id n n (unconsumed i) (use_up env) s.codes (λ c. refl)
        (λ c k e t. absurd (ground (arith, t))) (λ c k e t. k t) h,
  )
  guess-Spends n env (Act.revoking family_id) s h = (
    n,
    omega arith,
    (revoke_family-Apart (Within open_to_guess guesses_left id n) env family_id).at s h,
  )
  guess-Spends n env (Act.creating customer_id hash expires_at) s h = (
    n,
    omega arith,
    (create-Apart (Within open_to_guess guesses_left id n) env customer_id hash expires_at).at s h,
  )
  guess-Spends n env (Act.rotating old_hash new_hash expires_at) s h = (
    n,
    omega arith,
    (rotate-Apart (Within open_to_guess guesses_left id n) env old_hash new_hash expires_at).at s h,
  )
  guess-Spends n env (Act.checking family_id) s h = (n, omega arith, h)
  guess-Spends n env (Act.inserting customer_id family_id hash expires_at) s h =
      (n, omega arith, (insert_token-Always (Within open_to_guess guesses_left id n) _).at s h)

  -- For a code whose row stands in the table, whatever concurrent requests do and in whatever order
  -- their statements run: no more attempts at it are granted than the configured number (5 where
  -- none is configured), and it is used at most once.
  pub grants-bounded :
      (acts : List (AuthEnv × Act)) (s : Store)
      → any_row (λ c. c.id == id) s.codes ≡ true
      → (grants cfg (is_attempt_at id) acts s ≤ max_attempts cfg)
        × (grants cfg (is_use_of id) acts s ≤ 1)
  grants-bounded acts s there = (
    grants-Within open_to_guess guesses_left (is_attempt_at id) id cfg guess-Spends acts
        (max_attempts cfg) s (there, All-always _ s.codes (λ c t. omega arith)),
    grants-Within (unconsumed id) (one_use id cfg) (is_use_of id) id cfg (use-Spends id cfg) acts 1
        s (there, All-always _ s.codes (λ c t. omega arith)),
  )
