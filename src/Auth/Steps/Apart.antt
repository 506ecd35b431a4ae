-- ===== src/Auth/Steps/Apart.antt =====
-- The statements on one table of internal/auth leave the other as it is.
use cozy_backend.Base.{ℕ, Bool, Option, none, some, List, ◌∷◌}
use cozy_backend.Dbtx.{modify}
use cozy_backend.Dbtx.Ensures.{Ensures-modify}
use cozy_backend.Dbtx.Keeps.{Keeps, keeps_rules, pure-Keeps}
use cozy_backend.Dbtx.Always.{Always, always_rules, with_tx-Always}
use cozy_backend.Schema.Text.{Text}
use cozy_backend.Auth.Rows.{OtpCode, RefreshToken, Store, AuthEnv}
use cozy_backend.Auth.Codes.{
  OtpSendLimits, insert_code, check_limits, reserve_tx, reserve, take_attempt, consume,
  update_codes,
}
use cozy_backend.Auth.Tokens.{
  insert_token, create, succeed, rotate_tx, rotate, revoke_family, update_tokens,
}

-- The checks of `reserve` write nothing.
pub check_limits-Keeps :
    (P : Store → Type 0) (env : AuthEnv) (phone ip : Text) (lim : OtpSendLimits)
    → Keeps P (check_limits env phone ip lim)
unfolding check_limits
check_limits-Keeps P env phone ip lim = search keeps_rules depth 16

module _ (R : List OtpCode → Type 0) where
  abbrev pub OfCodes : Store → Type 0
  OfCodes s = R s.codes

  push_token-Keeps :
      (row : RefreshToken) → Keeps OfCodes (modify (λ s. record s { tokens = row ∷ s.tokens }))
  push_token-Keeps row = Ensures-modify _ _ (λ s h. h)

  update_tokens-Keeps :
      (test : RefreshToken → Bool) (f : RefreshToken → RefreshToken)
      → Keeps OfCodes (modify (update_tokens test f))
  update_tokens-Keeps test f = Ensures-modify _ _ (λ s h. h)

  push_token-Always :
      (row : RefreshToken) → Always OfCodes (modify (λ s. record s { tokens = row ∷ s.tokens }))
  push_token-Always row = record { at = λ s h. h }

  insert_token-Keeps : (row : RefreshToken) → Keeps OfCodes (insert_token row)
  unfolding insert_token
  insert_token-Keeps row = search (keeps_rules, push_token-Keeps)

  pub insert_token-Always : (row : RefreshToken) → Always OfCodes (insert_token row)
  unfolding insert_token
  insert_token-Always row = search (always_rules, push_token-Always)

  pub create-Apart :
      (env : AuthEnv) (customer_id : ℕ) (hash : Text) (expires_at : ℕ)
      → Always OfCodes (create env customer_id hash expires_at)
  unfolding create
  create-Apart env customer_id hash expires_at = insert_token-Always _

  succeed-Keeps :
      (env : AuthEnv) (hash : Text) (expires_at : ℕ) (t : Option RefreshToken)
      → Keeps OfCodes (succeed env hash expires_at t)
  unfolding succeed
  succeed-Keeps env hash expires_at none = pure-Keeps _ _
  succeed-Keeps env hash expires_at (some t) = search (keeps_rules, insert_token-Keeps)

  pub rotate-Apart :
      (env : AuthEnv) (old_hash new_hash : Text) (expires_at : ℕ)
      → Always OfCodes (rotate env old_hash new_hash expires_at)
  unfolding rotate rotate_tx
  rotate-Apart env old_hash new_hash expires_at =
      with_tx-Always _ _ (search (keeps_rules, update_tokens-Keeps, succeed-Keeps))

  pub revoke_family-Apart :
      (env : AuthEnv) (family_id : ℕ) → Always OfCodes (revoke_family env family_id)
  unfolding revoke_family
  revoke_family-Apart env family_id = record { at = λ s h. h }

module _ (R : List RefreshToken → Type 0) where
  abbrev pub OfTokens : Store → Type 0
  OfTokens s = R s.tokens

  push_code-Keeps :
      (row : OtpCode) → Keeps OfTokens (modify (λ s. record s { codes = row ∷ s.codes }))
  push_code-Keeps row = Ensures-modify _ _ (λ s h. h)

  update_codes-Always :
      (test : OtpCode → Bool) (f : OtpCode → OtpCode)
      → Always OfTokens (modify (update_codes test f))
  update_codes-Always test f = record { at = λ s h. h }

  pub reserve-Apart :
      (env : AuthEnv) (phone ip transaction_id : Text) (expires_at : ℕ) (lim : OtpSendLimits)
      → Always OfTokens (reserve env phone ip transaction_id expires_at lim)
  unfolding reserve reserve_tx insert_code
  reserve-Apart env phone ip transaction_id expires_at lim =
      with_tx-Always _ _
        (search (keeps_rules, check_limits-Keeps OfTokens, push_code-Keeps) depth 16)

  pub take_attempt-Apart : (id max : ℕ) → Always OfTokens (take_attempt id max)
  unfolding take_attempt
  take_attempt-Apart id max = search (always_rules, update_codes-Always)

  pub consume-Apart : (env : AuthEnv) (id : ℕ) → Always OfTokens (consume env id)
  unfolding consume
  consume-Apart env id = search (always_rules, update_codes-Always)
