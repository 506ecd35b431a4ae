-- ===== src/Auth/Reuse.antt =====
-- Refresh and Logout end a session (internal/auth/service.go).
use cozy_backend.Base.{
  ℕ, ◌+◌, ◌≡◌, refl, ap, Bool, true, false, none, some, List, [], ◌∷◌, arith, Bool-cases, inl, inr,
  update_rows, first_row,
}
use cozy_backend.Apperr.{ok, err, refresh_invalid}
use cozy_backend.Dbtx.{with_tx, ◌>>=◌}
use cozy_backend.Schema.Text.{Text}
use cozy_backend.Auth.Limiter.{is_empty, allow}
use cozy_backend.Auth.Rows.{RefreshToken, Store, AuthEnv, AuthConfig, Crypto}
use cozy_backend.Auth.Tokens.{
  has_hash, is_current, retire, update_tokens, rotate, rotate_tx, succeed, lookup, unrevoked,
  revoke_family,
}
use cozy_backend.Auth.Service.{refresh_token_ttl}
use cozy_backend.Auth.Session.{
  refresh_limiter, in_grace, reuse, handle_inactive_refresh, grant, refresh_hashed, refresh_allowed,
  refresh, revoke_found, logout,
}
use cozy_backend.Auth.Steps.Family.{AreOver, IsOver}

-- An update that finds no row changes nothing.
update_none :
    (test : RefreshToken → Bool) (f : RefreshToken → RefreshToken) (rows : List RefreshToken)
    → first_row test rows ≡ none
    → update_rows test f rows ≡ rows
update_none test f [] h = refl
update_none test f (t ∷ ts) h = elim (Bool-cases (test t)) [
  | inl hit ↦ let e : some t ≡ none = rw hit at h in absurd (cc)
  | inr miss ↦ rw miss (ap (λ xs. t ∷ xs) (update_none test f ts (rw miss at h)))
]

revoked-AreOver :
    (env : AuthEnv) (g : ℕ) (rows : List RefreshToken)
    → AreOver g env.now
        (update_rows (unrevoked g) (λ t. record t { revoked_at = some env.now }) rows)
revoked-AreOver env g [] = tt
revoked-AreOver env g (t ∷ ts) = (
  (elim (Bool-cases (unrevoked g t)) [
    | inl hit ↦ rw hit (λ _. refl)
    | inr miss ↦ rw miss (λ mine. ground (arith, mine, miss))
  ]),
  revoked-AreOver env g ts,
)

rotate-none :
    (env : AuthEnv) (old_hash new_hash : Text) (expires_at : ℕ) (s : Store)
    → first_row (is_current env old_hash) s.tokens ≡ none
    → rotate env old_hash new_hash expires_at s ≡ (ok none, s)
unfolding rotate rotate_tx succeed with_tx ◌>>=◌
rotate-none env old_hash new_hash expires_at s h =
    rw (h, update_none (is_current env old_hash) (retire env) s.tokens h) refl

module _ (cfg : AuthConfig) (crypto : Crypto) (env : AuthEnv) (t : RefreshToken) (r : ℕ) where
  -- The store with the family of the token revoked.
  abbrev revoked : Store → Store
  revoked = update_tokens (unrevoked t.family_id) (λ x. record x { revoked_at = some env.now })

  handle_inactive-late :
      (old_hash new_hash : Text) (s : Store)
      → first_row (has_hash old_hash) s.tokens ≡ some t
      → t.rotated_at ≡ some r
      → in_grace cfg env r ≡ false
      → handle_inactive_refresh cfg env old_hash new_hash s ≡ (ok none, revoked s)
  unfolding handle_inactive_refresh lookup reuse revoke_family ◌>>=◌
  handle_inactive-late old_hash new_hash s found rotated late =
      rw (found, rotated, reuse) (rw late refl)

  refresh_hashed-late :
      (old_hash new_hash : Text) (s : Store)
      → first_row (has_hash old_hash) s.tokens ≡ some t
      → first_row (is_current env old_hash) s.tokens ≡ none
      → t.rotated_at ≡ some r
      → in_grace cfg env r ≡ false
      → refresh_hashed cfg crypto env old_hash new_hash s ≡ (err refresh_invalid, revoked s)
  unfolding refresh_hashed grant ◌>>=◌
  refresh_hashed-late old_hash new_hash s found idle rotated late =
      rw (rotate-none env old_hash new_hash (env.now + refresh_token_ttl) s idle)
        (rw (handle_inactive-late old_hash new_hash s found rotated late) refl)

  -- A refresh, within its rate limit, with a token that was rotated longer ago than the grace allows
  -- (or with no grace set) is refused as invalid, and leaves no active token in the whole family.
  pub refresh-reuse :
      (token : Text) (s : Store)
      → is_empty token ≡ false
      → (allow (refresh_limiter cfg) env.now env.ip s.refresh_ip).0 ≡ true
      → first_row (has_hash (crypto.hash_token token)) s.tokens ≡ some t
      → first_row (is_current env (crypto.hash_token token)) s.tokens ≡ none
      → t.rotated_at ≡ some r
      → in_grace cfg env r ≡ false
      → ((refresh cfg crypto env token s).0 ≡ err refresh_invalid)
        × IsOver t.family_id env.now (refresh cfg crypto env token s).1
  unfolding refresh refresh_allowed allow ◌>>=◌
  refresh-reuse token s given within found idle rotated late =
      let after : Store = record s {
        refresh_ip = (allow (refresh_limiter cfg) env.now env.ip s.refresh_ip).1;
      } in
      let ends =
        refresh_hashed-late (crypto.hash_token token) (crypto.hash_token env.raw_token) after found
          idle rotated late in
      rw (within, given, ends) (refl, revoked-AreOver env t.family_id s.tokens)

module _ (crypto : Crypto) (env : AuthEnv) (t : RefreshToken) where
  -- A logout with a token that the table knows, in whatever state, leaves no active token in its family.
  pub logout-IsOver :
      (token : Text) (s : Store)
      → is_empty token ≡ false
      → first_row (has_hash (crypto.hash_token token)) s.tokens ≡ some t
      → IsOver t.family_id env.now (logout crypto env token s).1
  unfolding logout lookup revoke_found revoke_family ◌>>=◌
  logout-IsOver token s given found = rw (given, found) (revoked-AreOver env t.family_id s.tokens)
