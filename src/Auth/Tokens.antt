-- ===== src/Auth/Tokens.antt =====
-- The statements on refresh_tokens (internal/auth/refresh_repo.go).
use cozy_backend.Base.{
  ℕ, Bool, true, false, not, ◌&&◌, ◌||◌, Option, none, some, ◌∷◌, ltb, ◌==◌, if◌then◌else◌, is_some,
  first_row, any_row, update_rows,
}
use cozy_backend.Apperr.{internal}
use cozy_backend.Dbtx.{pure, gets, with_tx, modify, raise_if, ◌>>=◌, ◌>>◌}
use cozy_backend.Schema.Text.{Text, same_text}
use cozy_backend.Auth.Rows.{RefreshToken, Store, AuthAction, AuthEnv}

abbrev pub has_hash : Text → RefreshToken → Bool
has_hash hash t = same_text t.token_hash hash

-- `revoked_at IS NULL AND expires_at > now()`
abbrev pub is_active : ℕ → RefreshToken → Bool
is_active now t = not (is_some t.revoked_at) && ltb now t.expires_at

abbrev pub new_token : AuthEnv → ℕ → ℕ → Text → ℕ → RefreshToken
new_token env customer_id family_id hash expires_at = record {
  id = env.row_id;
  customer_id = customer_id;
  token_hash = hash;
  expires_at = expires_at;
  revoked_at = none;
  rotated_at = none;
  family_id = family_id;
}

-- The insert: the primary key and the unique hash.
unfoldable pub insert_token : RefreshToken → AuthAction Unit
insert_token row = do
  refused ←
      gets (λ s. any_row (λ t. t.id == row.id || same_text t.token_hash row.token_hash) s.tokens)
  raise_if refused internal
  modify (λ s. record s { tokens = row ∷ s.tokens })

-- `create`: a family of its own.
unfoldable pub create : AuthEnv → ℕ → Text → ℕ → AuthAction Unit
unfolding insert_token
create env customer_id hash expires_at =
    insert_token (new_token env customer_id env.family_id hash expires_at)

abbrev pub is_current : AuthEnv → Text → RefreshToken → Bool
is_current env hash t = has_hash hash t && is_active env.now t

abbrev pub retire : AuthEnv → RefreshToken → RefreshToken
retire env t = record t { revoked_at = some env.now; rotated_at = some env.now }

abbrev pub update_tokens : (RefreshToken → Bool) → (RefreshToken → RefreshToken) → Store → Store
update_tokens test f s = record s { tokens = update_rows test f s.tokens }

-- The successor of the token that was retired.
unfoldable pub succeed : AuthEnv → Text → ℕ → Option RefreshToken → AuthAction (Option RefreshToken)
unfolding insert_token
succeed env hash expires_at none = pure none
succeed env hash expires_at (some t) = do
  insert_token (new_token env t.customer_id t.family_id hash expires_at)
  pure (some t)

unfoldable pub rotate_tx : AuthEnv → Text → Text → ℕ → AuthAction (Option RefreshToken)
unfolding succeed
rotate_tx env old_hash new_hash expires_at = do
  row ← gets (λ s. first_row (is_current env old_hash) s.tokens)
  modify (update_tokens (is_current env old_hash) (retire env))
  succeed env new_hash expires_at row

-- `rotate`
unfoldable pub rotate : AuthEnv → Text → Text → ℕ → AuthAction (Option RefreshToken)
unfolding rotate_tx
rotate env old_hash new_hash expires_at = with_tx (rotate_tx env old_hash new_hash expires_at)

-- `lookup`
unfoldable pub lookup : Text → AuthAction (Option RefreshToken)
lookup hash = gets (λ s. first_row (has_hash hash) s.tokens)

abbrev pub unrevoked : ℕ → RefreshToken → Bool
unrevoked family_id t = t.family_id == family_id && not (is_some t.revoked_at)

-- `revokeFamily`
unfoldable pub revoke_family : AuthEnv → ℕ → AuthAction Unit
revoke_family env family_id =
    modify (update_tokens (unrevoked family_id) (λ t. record t { revoked_at = some env.now }))

-- The `EXISTS` of issueInFamily: the family has an active token.
unfoldable pub family_is_alive : AuthEnv → ℕ → Store → Bool
family_is_alive env family_id s =
    any_row (λ t. t.family_id == family_id && is_active env.now t) s.tokens

-- `issueInFamily`, where no other request comes in between: the statement takes no lock, so under
-- READ COMMITTED a revocation may commit between its snapshot and its insert.
unfoldable pub issue_in_family : AuthEnv → ℕ → ℕ → Text → ℕ → AuthAction Bool
unfolding insert_token family_is_alive
issue_in_family env customer_id family_id hash expires_at = do
  alive ← gets (family_is_alive env family_id)
  if alive
      then insert_token (new_token env customer_id family_id hash expires_at) >> pure true
      else pure false
