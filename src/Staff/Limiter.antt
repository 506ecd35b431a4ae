-- ===== src/Staff/Limiter.antt =====
-- loginRateLimiter (internal/staff/ratelimit.go): login attempts per phone number or client IP.
pub mod Exact
use cozy_backend.Base.{ℕ, ◌*◌, Bool, true, false, List, [], ◌∷◌, ltb, leb, if◌then◌else◌}
use cozy_backend.Schema.Text.{Text, same_text}
use cozy_backend.Limits.{Window, Windows, Policy, current, spend}

-- `loginAttemptLimit`
abbrev pub login_attempt_limit : ℕ
login_attempt_limit = 5

-- `loginAttemptWindow` and `loginAttemptSweepThreshold`; a window is over after its end
-- (`now.After(w.resetAt)`).
abbrev pub login_policy : Policy
login_policy = record { is_over = λ reset_at now. ltb reset_at now; sweep_at = 1000; span = 900 }

-- `max`
abbrev pub max_of : ℕ → ℕ
max_of limit = if ltb 0 limit then limit else login_attempt_limit

-- `allow`
unfoldable pub login_allow : ℕ → ℕ → Text → Windows → Bool × Windows
unfolding current
login_allow limit now key ws = spend (max_of limit) key (current login_policy now key ws)

-- `reset`
unfoldable pub login_reset : Text → Windows → Windows
login_reset key [] = []
login_reset key ((k, w) ∷ ws) =
    let rest = login_reset key ws in if same_text k key then rest else (k, w) ∷ rest
