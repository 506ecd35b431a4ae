-- ===== src/Auth/Review.antt =====
-- The guard of the store-review code (internal/auth/review_guard.go).
pub mod Lock
use cozy_backend.Base.{ℕ, suc, Bool, true, false, leb, if◌then◌else◌}
use cozy_backend.Schema.Text.{Text, same_text}
use cozy_backend.Auth.Rows.{ReviewGuard, Store, AuthAction}
use cozy_backend.Dbtx.{pure, gets, modify, ◌>>=◌, ◌>>◌}

-- `reviewMaxFailures`
abbrev pub review_max_failures : ℕ
review_max_failures = 10

-- A wrong code; the failure that reaches the limit trips the guard.
abbrev pub fail_review : ReviewGuard → ReviewGuard
fail_review g = record {
  failures = suc g.failures;
  tripped = leb review_max_failures (suc g.failures);
}

-- `check`: its first answer, whether the code is right, and the guard after it.
unfoldable pub check_review : Text → Text → ReviewGuard → Bool × ReviewGuard
check_review code want g =
    if g.tripped
    then (false, g)
    else if same_text code want
    then (true, g)
    else (false, fail_review g)
