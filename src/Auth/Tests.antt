-- ===== src/Auth/Tests.antt =====
-- A limiter, a phone and a session of the service.
use cozy_backend.Base.{
  ℕ, ◌≤◌, ◌*◌, ◌≡◌, refl, true, not, ◌&&◌, none, some, List, [], ◌∷◌, arith, leb, length,
  if◌then◌else◌,
}
use cozy_backend.Apperr.{ok, err, refresh_invalid, otp_invalid}
use cozy_backend.Schema.Text.{
  Text, codes, same_text, has_prefix, is_space, trim_left, trim_right, trim_right_cons, trim_space,
}
use cozy_backend.Auth.Limiter.{Limiter, Op, Call, answers, allow, blocked}
use cozy_backend.Auth.Limiter.Exact.{answers_exact, answers-exact}
use cozy_backend.Auth.Limiter.Rate.{granted, granted-bounded}
use cozy_backend.Auth.Rows.{
  OtpCode, RefreshToken, Store, AuthEnv, AuthConfig, Crypto, Customer, OtpSender,
}
use cozy_backend.Auth.Phone.{country_code, e164, normalize_phone}
use cozy_backend.Auth.Phone.Canonical.{e164-stable}
use cozy_backend.Auth.Review.{review_max_failures, check_review}
use cozy_backend.Auth.Review.Lock.{check_all, wrong, fresh_guard, check_review-locks}
use cozy_backend.Auth.Service.{
  max_attempts, verify_blocked, try_code, check_attempt, verify_code, conclude, accept_code,
  get_or_create_by_phone, issue_token_pair, verify_otp,
}
use cozy_backend.Auth.Session.{refresh, logout}
use cozy_backend.Dbtx.{with_tx, ◌>>=◌}
use cozy_backend.Limits.{current}
use cozy_backend.Auth.Codes.{latest_active, take_attempt, consume}
use cozy_backend.Auth.Tokens.{
  create, insert_token, rotate, rotate_tx, succeed, revoke_family, family_is_alive,
}
use cozy_backend.Auth.Entry.{Proven, verify_otp-Proven}
use cozy_backend.Auth.Reuse.{refresh-reuse, logout-IsOver}
use cozy_backend.Auth.Steps.{Act, perform, run_acts}
use cozy_backend.Auth.Steps.Sends.{IsSparing, run_acts-Sparing}
use cozy_backend.Auth.Steps.Budget.{grants}
use cozy_backend.Auth.Steps.Uses.{is_use_of}
use cozy_backend.Auth.Steps.Guesses.{is_attempt_at, grants-bounded}
use cozy_backend.Auth.Steps.Family.{IsOver, run_acts-Over}

abbrev two_per_minute : Limiter
two_per_minute = record { limit = 2; window = 60 }

abbrev client : Text
client = codes "ip"

abbrev three_calls : List Call
three_calls =
    record { gap = 1; op = Op.allowing; key = client }
    ∷ record { gap = 1; op = Op.hitting; key = client }
    ∷ record { gap = 1; op = Op.allowing; key = client }
    ∷ []

answers-exact_example :
    answers two_per_minute 0 [] three_calls ≡ answers_exact two_per_minute 0 (λ _. none) three_calls
answers-exact_example = answers-exact two_per_minute 0 three_calls

granted-bounded_example :
    granted client three_calls (answers two_per_minute 0 [] three_calls) ≤ 2 * two_per_minute.limit
granted-bounded_example =
    granted-bounded two_per_minute client 0 [] three_calls refl tt (omega arith)

abbrev config : AuthConfig
config = record {
  verify_fails_limit = 20;
  refresh_limit = 0;
  otp_per_ip = 0;
  otp_per_day = 0;
  otp_verify_max_attempts = 0;
  review_phone = [];
  review_code = [];
  refresh_reuse_grace = 30;
}

abbrev env_at : ℕ → ℕ → AuthEnv
env_at now id = record {
  now = now;
  ip = client;
  row_id = id;
  family_id = id;
  customer_id = id;
  transaction_id = id ∷ [];
  raw_token = id ∷ [];
}

-- A signature is not looked at here.
abbrev crypto : Crypto
crypto = record { hash_token = λ s. s; issue_access_token = λ id until. ok (id ∷ until ∷ []) }

abbrev empty_store : Store
empty_store = record {
  codes = [];
  tokens = [];
  customers = [];
  verify_fails = [];
  refresh_ip = [];
  review = fresh_guard;
}

abbrev phone : Text
phone = codes "+996700123456"

abbrev two_codes : List (AuthEnv × Act)
two_codes =
    (env_at 100 1, Act.reserving phone client (1 ∷ []) 400)
    ∷ (env_at 200 2, Act.reserving phone client (2 ∷ []) 500)
    ∷ []

run_acts-Sparing_example : IsSparing (run_acts config two_codes empty_store)
run_acts-Sparing_example = run_acts-Sparing config two_codes empty_store (λ who t. omega arith)

abbrev a_code : OtpCode
a_code = record {
  id = 1;
  phone = phone;
  transaction_id = 1 ∷ [];
  token = codes "t";
  expires_at = 400;
  consumed_at = none;
  created_at = 100;
  request_ip = none;
  verify_attempts = 0;
}

abbrev one_code : Store
one_code = record empty_store { codes = a_code ∷ [] }

-- Two requests try the same code at once.
abbrev two_at_once : List (AuthEnv × Act)
two_at_once =
    (env_at 110 5, Act.attempting 1)
    ∷ (env_at 110 6, Act.attempting 1)
    ∷ (env_at 111 5, Act.consuming 1)
    ∷ (env_at 111 6, Act.consuming 1)
    ∷ []

grants-bounded_example :
    (grants config (is_attempt_at 1) two_at_once one_code ≤ max_attempts config)
    × (grants config (is_use_of 1) two_at_once one_code ≤ 1)
grants-bounded_example = grants-bounded 1 config two_at_once one_code refl

-- A token that was rotated at 100, and its successor.
abbrev old_token : RefreshToken
old_token = record {
  id = 1;
  customer_id = 7;
  token_hash = codes "a";
  expires_at = 9000;
  revoked_at = some 100;
  rotated_at = some 100;
  family_id = 3;
}

abbrev next_token : RefreshToken
next_token = record {
  id = 2;
  customer_id = 7;
  token_hash = codes "b";
  expires_at = 9900;
  revoked_at = none;
  rotated_at = none;
  family_id = 3;
}

abbrev one_session : Store
one_session = record empty_store { tokens = next_token ∷ old_token ∷ [] }

refresh-reuse_example :
    ((refresh config crypto (env_at 200 9) (codes "a") one_session).0 ≡ err refresh_invalid)
    × IsOver 3 200 (refresh config crypto (env_at 200 9) (codes "a") one_session).1
refresh-reuse_example =
    refresh-reuse config crypto (env_at 200 9) old_token 100 (codes "a") one_session refl
      (unfold allow in refl) (unfold same_text in refl) (unfold same_text in refl) refl refl

logout-IsOver_example : IsOver 3 200 (logout crypto (env_at 200 9) (codes "b") one_session).1
logout-IsOver_example =
    logout-IsOver crypto (env_at 200 9) next_token (codes "b") one_session refl
      (unfold same_text in refl)

-- The session is over, and its old tokens are presented again; another session goes on.
abbrev other_token : RefreshToken
other_token = record next_token { id = 3; token_hash = codes "e"; family_id = 4 }

abbrev ended_session : Store
ended_session = record empty_store { tokens = old_token ∷ other_token ∷ [] }

abbrev late_tries : List (AuthEnv × Act)
late_tries =
    (env_at 120 9, Act.rotating (codes "a") (codes "c") 9999)
    ∷ (env_at 121 10, Act.checking 3)
    ∷ (env_at 122 11, Act.checking 4)
    ∷ (env_at 123 12, Act.inserting 7 4 (codes "d") 9999)
    ∷ []

run_acts-Over_example : IsOver 3 110 (run_acts config late_tries ended_session)
run_acts-Over_example =
    run_acts-Over 3 110 config [] late_tries ended_session refl
      (unfold perform rotate rotate_tx with_tx succeed family_is_alive same_text ◌>>=◌ in
        (tt, (tt, (tt, (refl, tt)))))
      ((omega arith, refl), ((omega arith, refl), ((omega arith, refl), ((omega arith, refl), tt))))
      ((λ _. refl), ((λ mine. absurd (ground (arith, mine))), tt))

-- A family that is revoked between the check of issueInFamily and its insert.
abbrev overtaken : List (AuthEnv × Act)
overtaken =
    (env_at 120 9, Act.checking 3)
    ∷ (env_at 121 10, Act.revoking 3)
    ∷ (env_at 122 11, Act.inserting 7 3 (codes "d") 9999)
    ∷ []

-- It has an active token afterwards.
overtaken_alive : family_is_alive (env_at 123 12) 3 (run_acts config overtaken one_session) ≡ true
unfolding perform revoke_family insert_token family_is_alive same_text ◌>>=◌
overtaken_alive = refl

e164-stable_example :
    (has_prefix country_code phone ≡ true) × (length phone ≡ 13) × (e164 phone ≡ some phone)
e164-stable_example =
    e164-stable (codes "0700 123-456") phone
      (unfold e164 has_prefix is_space trim_left trim_right trim_right_cons trim_space in refl)

check_review-locks_example :
    (check_review
      (codes "1357")
      (codes "1357")
      (check_all (codes "1357") (codes "1" ∷ []) fresh_guard)).0
    ≡ (not (leb review_max_failures (wrong (codes "1357") (codes "1" ∷ [])))
        && same_text (codes "1357") (codes "1357"))
check_review-locks_example = check_review-locks (codes "1357") (codes "1357") (codes "1" ∷ [])

-- A provider that accepts one code.
abbrev provider : OtpSender
provider = record {
  send_code = λ number id. ok id;
  verify_code = λ token code. if same_text code (codes "1234") then ok tt else err otp_invalid;
}

abbrev new_customer : Customer
new_customer = record { id = 9; phone = phone }

verify_otp-Proven_example :
    Proven config crypto provider
      (env_at 120 9)
      (codes "0700 123-456")
      (codes "1234")
      one_code.codes
      one_code.review
      new_customer
verify_otp-Proven_example =
    verify_otp-Proven config crypto provider (env_at 120 9) (codes "0700 123-456") (codes "1234")
      one_code (record { access_token = 9 ∷ 1020 ∷ []; refresh_token = 9 ∷ [] }) new_customer
      (unfold verify_otp normalize_phone e164 verify_blocked blocked current latest_active try_code
          take_attempt check_attempt verify_code conclude accept_code consume get_or_create_by_phone
          issue_token_pair create insert_token same_text has_prefix is_space trim_left trim_right
          trim_right_cons trim_space ◌>>=◌ in
        refl)
