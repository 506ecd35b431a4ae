-- ===== src/Auth/Codes.antt =====
-- The statements on otp_codes (internal/auth/otp_repo.go).
use cozy_backend.Base.{
  ℕ, suc, ◌+◌, ◌-◌, Bool, false, not, ◌&&◌, ◌||◌, Option, none, some, List, [], ◌∷◌, ltb, leb, ◌==◌,
  if◌then◌else◌, is_some, first_row, count_rows, any_row, update_rows,
}
use cozy_backend.Apperr.{otp_cooldown, otp_rate_limited, otp_daily_limit, internal}
use cozy_backend.Dbtx.{pure, gets, with_tx, modify, raise_if, ◌>>=◌, ◌>>◌}
use cozy_backend.Schema.Text.{Text, same_text}
use cozy_backend.Auth.Limiter.{is_empty}
use cozy_backend.Auth.Rows.{OtpCode, Store, AuthAction, AuthEnv}

-- `otpSendLimits`
pub record OtpSendLimits : Type 0 where
  pub cooldown : ℕ
  pub per_phone : ℕ
  pub per_ip : ℕ
  pub global_day : ℕ

-- `max(created_at)` of the rows of a phone
abbrev pub later : ℕ → Option ℕ → Option ℕ
later t none = some t
later t (some u) = some (if ltb t u then u else t)

abbrev pub last_at : Text → List OtpCode → Option ℕ
last_at phone [] = none
last_at phone (c ∷ cs) =
    let rest = last_at phone cs in if same_text c.phone phone then later c.created_at rest else rest

-- `count(*) FILTER (WHERE created_at >= now() - interval '1 hour')` for a phone
abbrev pub is_recent : AuthEnv → ℕ → OtpCode → Bool
is_recent env span c = leb env.now (c.created_at + span)

abbrev pub is_of : Text → OtpCode → Bool
is_of phone c = same_text c.phone phone

abbrev pub is_from : Text → OtpCode → Bool
is_from ip c = elim c.request_ip [ none ↦ false | some i ↦ same_text i ip ]

-- `lastAt.Valid && time.Since(lastAt.Time) < lim.Cooldown`
abbrev pub cooling : AuthEnv → ℕ → Option ℕ → Bool
cooling env cooldown none = false
cooling env cooldown (some t) = ltb (env.now - t) cooldown

abbrev pub new_code : AuthEnv → Text → Text → Text → ℕ → OtpCode
new_code env phone ip transaction_id expires_at = record {
  id = env.row_id;
  phone = phone;
  transaction_id = transaction_id;
  token = [];
  expires_at = expires_at;
  consumed_at = none;
  created_at = env.now;
  request_ip = if is_empty ip then none else some ip;
  verify_attempts = 0;
}

-- The insert: the primary key and the unique transaction id.
abbrev pub code_refused : OtpCode → List OtpCode → Bool
code_refused row codes =
    any_row (λ c. c.id == row.id || same_text c.transaction_id row.transaction_id) codes

unfoldable pub insert_code : OtpCode → AuthAction Unit
insert_code row = do
  refused ← gets (λ s. code_refused row s.codes)
  raise_if refused internal
  modify (λ s. record s { codes = row ∷ s.codes })

-- The checks of `reserve`, in their order.
unfoldable pub check_limits : AuthEnv → Text → Text → OtpSendLimits → AuthAction Unit
check_limits env phone ip lim = do
  last ← gets (λ s. last_at phone s.codes)
  phone_hour ← gets (λ s. count_rows (λ c. is_of phone c && is_recent env 3600 c) s.codes)
  raise_if (cooling env lim.cooldown last) otp_cooldown
  raise_if (leb lim.per_phone phone_hour) otp_rate_limited
  ip_hour ← gets (λ s. count_rows (λ c. is_from ip c && is_recent env 3600 c) s.codes)
  raise_if (ltb 0 lim.per_ip && not (is_empty ip) && leb lim.per_ip ip_hour) otp_rate_limited
  day ← gets (λ s. count_rows (is_recent env 86400) s.codes)
  raise_if (ltb 0 lim.global_day && leb lim.global_day day) otp_daily_limit

unfoldable pub reserve_tx : AuthEnv → Text → Text → Text → ℕ → OtpSendLimits → AuthAction ℕ
unfolding check_limits insert_code
reserve_tx env phone ip transaction_id expires_at lim = do
  check_limits env phone ip lim
  insert_code (new_code env phone ip transaction_id expires_at)
  pure env.row_id

-- `reserve`, the transaction under the advisory lock of the phone.
unfoldable pub reserve : AuthEnv → Text → Text → Text → ℕ → OtpSendLimits → AuthAction ℕ
unfolding reserve_tx
reserve env phone ip transaction_id expires_at lim =
    with_tx (reserve_tx env phone ip transaction_id expires_at lim)

abbrev pub update_codes : (OtpCode → Bool) → (OtpCode → OtpCode) → Store → Store
update_codes test f s = record s { codes = update_rows test f s.codes }

-- `setToken`
unfoldable pub set_token : ℕ → Text → AuthAction Unit
set_token id token = modify (update_codes (λ c. c.id == id) (λ c. record c { token = token }))

-- `id = $1 AND consumed_at IS NULL`
abbrev pub unconsumed : ℕ → OtpCode → Bool
unconsumed id c = c.id == id && not (is_some c.consumed_at)

abbrev pub use_up : AuthEnv → OtpCode → OtpCode
use_up env c = record c { consumed_at = some env.now }

-- `burn`
unfoldable pub burn : AuthEnv → ℕ → AuthAction Unit
burn env id = modify (update_codes (unconsumed id) (use_up env))

-- `phone = $1 AND consumed_at IS NULL AND expires_at > now() AND token <> ''`
abbrev pub is_active_code : AuthEnv → Text → OtpCode → Bool
is_active_code env phone c =
    is_of phone c
    && not (is_some c.consumed_at)
    && ltb env.now c.expires_at
    && not (is_empty c.token)

-- `ORDER BY created_at DESC LIMIT 1`
abbrev pub newer : OtpCode → Option OtpCode → Option OtpCode
newer c none = some c
newer c (some d) = some (if ltb c.created_at d.created_at then d else c)

abbrev pub newest : (OtpCode → Bool) → List OtpCode → Option OtpCode
newest test [] = none
newest test (c ∷ cs) = let rest = newest test cs in if test c then newer c rest else rest

-- `latestActive`
unfoldable pub latest_active : AuthEnv → Text → AuthAction (Option OtpCode)
latest_active env phone = gets (λ s. newest (is_active_code env phone) s.codes)

abbrev pub has_budget : ℕ → ℕ → OtpCode → Bool
has_budget id max c = unconsumed id c && ltb c.verify_attempts max

abbrev pub count_attempt : OtpCode → OtpCode
count_attempt c = record c { verify_attempts = suc c.verify_attempts }

-- `takeAttempt`: the number of the attempt, or none if the budget is spent.
abbrev pub attempt_of : Option OtpCode → Option ℕ
attempt_of none = none
attempt_of (some c) = some (suc c.verify_attempts)

unfoldable pub take_attempt : ℕ → ℕ → AuthAction (Option ℕ)
take_attempt id max = do
  row ← gets (λ s. first_row (has_budget id max) s.codes)
  modify (update_codes (has_budget id max) count_attempt)
  pure (attempt_of row)

-- `consume`: whether this call used the code up.
unfoldable pub consume : AuthEnv → ℕ → AuthAction Bool
consume env id = do
  hit ← gets (λ s. any_row (unconsumed id) s.codes)
  modify (update_codes (unconsumed id) (use_up env))
  pure hit
