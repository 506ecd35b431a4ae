-- ===== src/Auth/Session.antt =====
-- Sessions: Refresh and Logout (internal/auth/service.go).
use cozy_backend.Base.{ℕ, ◌+◌, ◌-◌, Bool, not, ◌&&◌, Option, none, some, ltb, if◌then◌else◌}
use cozy_backend.Apperr.{ok, refresh_invalid, refresh_rate_limited}
use cozy_backend.Dbtx.{pure, raise, lift, raise_if, ◌>>=◌, ◌>>◌}
use cozy_backend.Schema.Text.{Text}
use cozy_backend.Auth.Limiter.{Limiter, is_empty, allow}
use cozy_backend.Auth.Rows.{RefreshToken, AuthAction, AuthEnv, Crypto, AuthConfig}
use cozy_backend.Auth.Tokens.{rotate, lookup, revoke_family, issue_in_family}
use cozy_backend.Auth.Service.{access_token_ttl, refresh_token_ttl, TokenPair}

abbrev pub refresh_limiter : AuthConfig → Limiter
refresh_limiter cfg = record { limit = cfg.refresh_limit; window = 60 }

-- `s.refreshIP.allow(ip)`
unfoldable pub refresh_allowed : AuthConfig → AuthEnv → AuthAction Bool
unfolding allow
refresh_allowed cfg env s =
    let asked = allow (refresh_limiter cfg) env.now env.ip s.refresh_ip in
    (ok asked.0, record s { refresh_ip = asked.1 })

-- `time.Since(*old.RotatedAt) < s.refreshReuseGrace`, under a positive grace
abbrev pub in_grace : AuthConfig → AuthEnv → ℕ → Bool
in_grace cfg env rotated_at =
    ltb 0 cfg.refresh_reuse_grace && ltb (env.now - rotated_at) cfg.refresh_reuse_grace

-- A token that was rotated: a retry within the grace, or reuse.
unfoldable pub reuse :
    AuthConfig → AuthEnv → Text → RefreshToken → ℕ → AuthAction (Option RefreshToken)
unfolding issue_in_family revoke_family
reuse cfg env new_hash old rotated_at =
    if in_grace cfg env rotated_at
    then (do
      issued ←
          issue_in_family env old.customer_id old.family_id new_hash (env.now + refresh_token_ttl)
      pure (if issued then some old else none))
    else (revoke_family env old.family_id >> pure none)

-- A token that was never rotated is simply invalid.
abbrev pub reuse_since :
    AuthConfig → AuthEnv → Text → RefreshToken → Option ℕ → AuthAction (Option RefreshToken)
reuse_since cfg env new_hash old none = pure none
reuse_since cfg env new_hash old (some rotated_at) = reuse cfg env new_hash old rotated_at

abbrev pub reuse_of :
    AuthConfig → AuthEnv → Text → Option RefreshToken → AuthAction (Option RefreshToken)
reuse_of cfg env new_hash none = pure none
reuse_of cfg env new_hash (some old) = reuse_since cfg env new_hash old old.rotated_at

-- `handleInactiveRefresh`
unfoldable pub handle_inactive_refresh :
    AuthConfig → AuthEnv → Text → Text → AuthAction (Option RefreshToken)
unfolding lookup reuse
handle_inactive_refresh cfg env hash new_hash = do old ← lookup hash; reuse_of cfg env new_hash old

abbrev pub or_inactive :
    AuthConfig → AuthEnv → Text → Text → Option RefreshToken → AuthAction (Option RefreshToken)
or_inactive cfg env hash new_hash (some t) = pure (some t)
or_inactive cfg env hash new_hash none = handle_inactive_refresh cfg env hash new_hash

unfoldable pub grant : Crypto → AuthEnv → Option RefreshToken → AuthAction TokenPair
grant crypto env none = raise refresh_invalid
grant crypto env (some t) = do
  access ← lift (crypto.issue_access_token t.customer_id (env.now + access_token_ttl))
  pure (record { access_token = access; refresh_token = env.raw_token })

-- Refresh with the hashes of the token that is presented and of a new one.
unfoldable pub refresh_hashed : AuthConfig → Crypto → AuthEnv → Text → Text → AuthAction TokenPair
unfolding rotate handle_inactive_refresh grant
refresh_hashed cfg crypto env old_hash new_hash = do
  rotated ← rotate env old_hash new_hash (env.now + refresh_token_ttl)
  found ← or_inactive cfg env old_hash new_hash rotated
  grant crypto env found

-- `Refresh`
unfoldable pub refresh : AuthConfig → Crypto → AuthEnv → Text → AuthAction TokenPair
unfolding refresh_allowed refresh_hashed
refresh cfg crypto env token = do
  within ← refresh_allowed cfg env
  raise_if (not within) refresh_rate_limited
  raise_if (is_empty token) refresh_invalid
  refresh_hashed cfg crypto env (crypto.hash_token token) (crypto.hash_token env.raw_token)

unfoldable pub revoke_found : AuthEnv → Option RefreshToken → AuthAction Unit
unfolding revoke_family
revoke_found env none = pure tt
revoke_found env (some t) = revoke_family env t.family_id

-- `Logout`
unfoldable pub logout : Crypto → AuthEnv → Text → AuthAction Unit
unfolding lookup revoke_found
logout crypto env token =
    if is_empty token
    then pure tt
    else (do t ← lookup (crypto.hash_token token); revoke_found env t)
