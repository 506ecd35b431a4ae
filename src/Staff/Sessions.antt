-- ===== src/Staff/Sessions.antt =====
-- The statements on staff_sessions (internal/staff/session_repo.go).
use cozy_backend.Base.{
  ℕ, Bool, not, ◌&&◌, ◌||◌, Option, none, some, ◌∷◌, ltb, ◌==◌, is_some, first_row, any_row,
  update_rows,
}
use cozy_backend.Apperr.{internal}
use cozy_backend.Dbtx.{gets, modify, raise_if, ◌>>=◌, ◌>>◌}
use cozy_backend.Schema.Text.{Text, same_text}
use cozy_backend.Staff.Rows.{StaffSession, StaffStore, StaffAction, StaffEnv}

-- `create`
unfoldable pub create_session : StaffEnv → ℕ → Text → ℕ → StaffAction Unit
create_session env staff_id hash expires_at = do
  refused ← gets (λ s. any_row (λ x. x.id == env.row_id || same_text x.token_hash hash) s.sessions)
  raise_if refused internal
  modify (λ s. record s {
    sessions =
        record {
          id = env.row_id;
          staff_id = staff_id;
          token_hash = hash;
          expires_at = expires_at;
          revoked_at = none;
        }
        ∷ s.sessions;
  })

abbrev pub is_live : StaffEnv → StaffSession → Bool
is_live env x = not (is_some x.revoked_at) && ltb env.now x.expires_at

-- `getActiveByHash`
unfoldable pub get_active_by_hash : StaffEnv → Text → StaffAction (Option StaffSession)
get_active_by_hash env hash =
    gets (λ s. first_row (λ x. same_text x.token_hash hash && is_live env x) s.sessions)

abbrev pub revoke_sessions : StaffEnv → (StaffSession → Bool) → StaffStore → StaffStore
revoke_sessions env test s = record s {
  sessions =
      update_rows (λ x. test x && not (is_some x.revoked_at))
        (λ x. record x { revoked_at = some env.now }) s.sessions;
}

-- `revokeByHash`
unfoldable pub revoke_by_hash : StaffEnv → Text → StaffAction Unit
revoke_by_hash env hash = modify (revoke_sessions env (λ x. same_text x.token_hash hash))

-- `revokeAllForStaff`
unfoldable pub revoke_all_for_staff : StaffEnv → ℕ → StaffAction Unit
revoke_all_for_staff env id = modify (revoke_sessions env (λ x. x.staff_id == id))
