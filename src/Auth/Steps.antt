-- ===== src/Auth/Steps.antt =====
-- Requests that run at the same time: the statements of RequestOTP, VerifyOTP, Refresh and Logout on
-- the two tables, in any order (internal/auth). An UPDATE checks its rows again under their locks, and
-- reserve and rotate are transactions under locks, so these are single steps; issueInFamily's INSERT
-- reads a snapshot without a lock, so its check and its insert are two. A run is one interleaving. A revocation may
-- miss the token that a rotation inserts while it waits for the rotation's lock: the order of such a
-- pair is a matter of the database, and the runs have the two in an order.
pub mod Apart
pub mod Sends
pub mod Budget
pub mod Uses
pub mod Guesses
pub mod Family
use cozy_backend.Base.{
  ℕ, ◌+◌, ◌≡◌, ◌==◌, any_row, Bool, true, false, Option, none, some, List, [], ◌∷◌, if◌then◌else◌,
  is_some,
}
use cozy_backend.Apperr.{Result, ok, err}
use cozy_backend.Schema.Text.{Text}
use cozy_backend.Auth.Rows.{Store, AuthEnv, AuthConfig}
use cozy_backend.Auth.Codes.{reserve, set_token, burn, take_attempt, consume}
use cozy_backend.Auth.Tokens.{
  new_token, insert_token, create, rotate, revoke_family, family_is_alive,
}
use cozy_backend.Auth.Service.{send_limits, max_attempts}

pub data Act : Type 0 where
  reserving : Text → Text → Text → ℕ → Act
  setting_token : ℕ → Text → Act
  burning attempting consuming revoking : ℕ → Act
  creating : ℕ → Text → ℕ → Act
  rotating : Text → Text → ℕ → Act
  checking : ℕ → Act
  inserting : ℕ → ℕ → Text → ℕ → Act

-- Whether an attempt was granted.
abbrev pub was_granted : Result (Option ℕ) → Bool
was_granted (ok a) = is_some a
was_granted (err _) = false

abbrev pub was_true : Result Bool → Bool
was_true (ok b) = b
was_true (err _) = false

-- What a statement grants: an attempt at a code, or its use. The others grant nothing.
unfoldable pub perform : AuthConfig → AuthEnv → Act → Store → Bool × Store
unfolding reserve set_token burn take_attempt consume create rotate revoke_family insert_token
perform cfg env (Act.reserving phone ip transaction_id expires_at) s =
    (false, (reserve env phone ip transaction_id expires_at (send_limits cfg) s).1)
perform cfg env (Act.setting_token id token) s = (false, (set_token id token s).1)
perform cfg env (Act.burning id) s = (false, (burn env id s).1)
perform cfg env (Act.attempting id) s =
    let r = take_attempt id (max_attempts cfg) s in (was_granted r.0, r.1)
perform cfg env (Act.consuming id) s = let r = consume env id s in (was_true r.0, r.1)
perform cfg env (Act.revoking family_id) s = (false, (revoke_family env family_id s).1)
perform cfg env (Act.creating customer_id hash expires_at) s =
    (false, (create env customer_id hash expires_at s).1)
perform cfg env (Act.rotating old_hash new_hash expires_at) s =
    (false, (rotate env old_hash new_hash expires_at s).1)
perform cfg env (Act.checking family_id) s = (false, s)
perform cfg env (Act.inserting customer_id family_id hash expires_at) s =
    (false, (insert_token (new_token env customer_id family_id hash expires_at) s).1)

abbrev pub run_acts : AuthConfig → List (AuthEnv × Act) → Store → Store
run_acts cfg [] s = s
run_acts cfg ((env, a) ∷ acts) s = run_acts cfg acts (perform cfg env a s).1

-- The families that issueInFamily has found alive; `seen` are those found so before.
abbrev pub seen_after : AuthEnv → Act → Store → List ℕ → List ℕ
seen_after env (Act.checking g) s seen = if family_is_alive env g s then g ∷ seen else seen
seen_after env _ s seen = seen

-- issueInFamily inserts only into a family that it has found alive.
abbrev pub IsBacked : List ℕ → Act → Type 0
IsBacked seen (Act.inserting customer_id g hash expires_at) = any_row (λ x. x == g) seen ≡ true
IsBacked seen _ = Unit

-- Every insert of the run has its check, made at any time before it.
abbrev pub AreBacked : AuthConfig → List ℕ → List (AuthEnv × Act) → Store → Type 0
AreBacked cfg seen [] s = Unit
AreBacked cfg seen ((env, a) ∷ acts) s =
    IsBacked seen a × AreBacked cfg (seen_after env a s seen) acts (perform cfg env a s).1
