-- ===== src/Auth/Steps/Uses.antt =====
-- A code is used at most once (consume in internal/auth/otp_repo.go).
use cozy_backend.Base.{
  ℕ, ◌-◌, ◌≤◌, ◌≡◌, refl, Bool, true, false, ◌&&◌, List, [], ◌∷◌, arith, ◌==◌, Bool-cases, inl, inr,
  ==_iff, any_row, All,
}
use cozy_backend.Dbtx.{◌>>=◌}
use cozy_backend.Auth.Rows.{OtpCode, Store, AuthEnv, AuthConfig}
use cozy_backend.Auth.Codes.{
  set_token, burn, take_attempt, consume, unconsumed, use_up, has_budget, count_attempt,
}
use cozy_backend.Auth.Service.{send_limits, max_attempts}
use cozy_backend.Auth.Steps.Apart.{
  create-Apart, rotate-Apart, revoke_family-Apart, insert_token-Always,
}
use cozy_backend.Auth.Steps.{Act, perform}
use cozy_backend.Auth.Steps.Budget.{Within, Spends, update-Within, reserve-Within}

abbrev pub is_use_of : ℕ → Act → Bool
is_use_of id (Act.consuming i) = i == id
is_use_of id _ = false

-- A code that can be used has a use left.
some_use :
    (id n : ℕ) (rows : List OtpCode)
    → any_row (unconsumed id) rows ≡ true
    → All (λ c. unconsumed id c ≡ true → 1 ≤ n) rows
    → 1 ≤ n
some_use id n [] e h = cc
some_use id n (c ∷ cs) e h = elim (Bool-cases (unconsumed id c)) [
  | inl hit ↦ h.0 hit
  | inr miss ↦ some_use id n cs (rw miss at e) h.1
]

module _ (id : ℕ) (cfg : AuthConfig) where
  abbrev pub one_use : OtpCode → ℕ
  one_use c = 1

  consume-Spends :
      (n : ℕ) (env : AuthEnv) (i : ℕ) (s : Store)
      → Within (unconsumed id) one_use id n s.codes
      → Spends
          (unconsumed id)
          one_use
          (is_use_of id)
          id
          n
          (Act.consuming i)
          (perform cfg env (Act.consuming i) s)
  unfolding perform consume ◌>>=◌
  consume-Spends n env i s h = elim (Bool-cases (i == id && any_row (unconsumed i) s.codes)) [
    | inr idle ↦ (
      n,
      ground (arith, idle),
      update-Within (unconsumed id) one_use id n n (unconsumed i) (use_up env) s.codes (λ c. refl)
          (λ c k e t. absurd (ground (arith, t))) (λ c k e t. k t) h,
    )
    | inl used ↦
        let mine : (i == id) ≡ true = ground (arith, used) in
        let same : i ≡ id = (==_iff _ _).0 mine in
        let there : any_row (unconsumed i) s.codes ≡ true = ground (arith, used) in
        (
          n - 1,
          ground (arith, used, some_use id n s.codes (rw same at there) h.1),
          update-Within (unconsumed id) one_use id n (n - 1) (unconsumed i) (use_up env) s.codes
              (λ c. refl) (λ c k e t. absurd (ground (arith, t)))
              (λ c k e t. let no : unconsumed id c ≡ false = rw same at e in absurd (cc)) h,
        )
  ]

  pub use-Spends :
      (n : ℕ) (env : AuthEnv) (a : Act) (s : Store)
      → Within (unconsumed id) one_use id n s.codes
      → Spends (unconsumed id) one_use (is_use_of id) id n a (perform cfg env a s)
  unfolding perform set_token burn take_attempt consume ◌>>=◌
  use-Spends n env (Act.reserving phone ip transaction_id expires_at) s h = (
    n,
    omega arith,
    (reserve-Within (unconsumed id) one_use id n env phone ip transaction_id expires_at
          (send_limits cfg) (λ t. ground (arith, t))).at
        s h,
  )
  use-Spends n env (Act.setting_token i token) s h = (
    n,
    omega arith,
    update-Within (unconsumed id) one_use id n n (λ c. c.id == i) (λ c. record c { token = token })
        s.codes (λ c. refl) (λ c k e t. k t) (λ c k e t. k t) h,
  )
  use-Spends n env (Act.burning i) s h = (
    n,
    omega arith,
    update-Within (unconsumed id) one_use id n n (unconsumed i) (use_up env) s.codes (λ c. refl)
        (λ c k e t. absurd (ground (arith, t))) (λ c k e t. k t) h,
  )
  use-Spends n env (Act.attempting i) s h = (
    n,
    omega arith,
    update-Within (unconsumed id) one_use id n n (has_budget i (max_attempts cfg)) count_attempt
        s.codes (λ c. refl) (λ c k e t. k t) (λ c k e t. k t) h,
  )
  use-Spends n env (Act.consuming i) s h = consume-Spends n env i s h
  use-Spends n env (Act.revoking family_id) s h = (
    n,
    omega arith,
    (revoke_family-Apart (Within (unconsumed id) one_use id n) env family_id).at s h,
  )
  use-Spends n env (Act.creating customer_id hash expires_at) s h = (
    n,
    omega arith,
    (create-Apart (Within (unconsumed id) one_use id n) env customer_id hash expires_at).at s h,
  )
  use-Spends n env (Act.rotating old_hash new_hash expires_at) s h = (
    n,
    omega arith,
    (rotate-Apart (Within (unconsumed id) one_use id n) env old_hash new_hash expires_at).at s h,
  )
  use-Spends n env (Act.checking family_id) s h = (n, omega arith, h)
  use-Spends n env (Act.inserting customer_id family_id hash expires_at) s h =
      (n, omega arith, (insert_token-Always (Within (unconsumed id) one_use id n) _).at s h)
