-- ===== src/Auth/Steps/Sends.antt =====
-- How many codes a phone is sent (reserve in internal/auth/otp_repo.go).
use cozy_backend.Base.{
  ℕ, ◌+◌, ◌≤◌, ◌<◌, ◌≡◌, refl, Bool, true, ◌&&◌, List, [], ◌∷◌, arith, leb, ◌==◌, Bool-cases, inl,
  inr, count_rows, count_rows_mono, count_rows-update,
}
use cozy_backend.Dbtx.{◌>>=◌}
use cozy_backend.Dbtx.Ensures.{
  Ensures, Ensures-bind, Ensures-weaken, Ensures-gets, Ensures-modify, Ensures-guard,
}
use cozy_backend.Dbtx.Keeps.{keeps_rules, gets-Keeps, pure-Keeps}
use cozy_backend.Dbtx.Always.{Always, with_tx-Always}
use cozy_backend.Schema.Text.{Text, same_text, eq_of_same_text}
use cozy_backend.Auth.Rows.{OtpCode, Store, AuthEnv, AuthConfig}
use cozy_backend.Auth.Codes.{
  is_of, is_recent, new_code, insert_code, check_limits, reserve_tx, reserve, set_token, burn,
  take_attempt, consume, update_codes, OtpSendLimits, unconsumed, use_up, has_budget, count_attempt,
}
use cozy_backend.Auth.Service.{send_limits, max_attempts, otp_max_per_hour}
use cozy_backend.Auth.Steps.Apart.{
  create-Apart, rotate-Apart, revoke_family-Apart, insert_token-Always,
}
use cozy_backend.Auth.Steps.{Act, perform, run_acts}

-- The codes of a phone in the hour that starts at `t`.
abbrev pub sent_in_hour : Text → ℕ → OtpCode → Bool
sent_in_hour phone t c = is_of phone c && (leb t c.created_at && leb c.created_at (t + 3600))

-- No hour has more codes of a phone than the limit.
abbrev pub AreFew : List OtpCode → Type 0
AreFew rows = (phone : Text) (t : ℕ) → count_rows (sent_in_hour phone t) rows ≤ otp_max_per_hour

abbrev pub IsSparing : Store → Type 0
IsSparing s = AreFew s.codes

module _ (env : AuthEnv) (phone : Text) (lim : OtpSendLimits) where
  -- The query over the last hour finds room for one more.
  abbrev HasRoom : Store → Type 0
  HasRoom s =
      (count_rows (λ c. is_of phone c && is_recent env 3600 c) s.codes < lim.per_phone)
      × IsSparing s

  check_limits-Room : (ip : Text) → Ensures IsSparing (check_limits env phone ip lim) (λ _. HasRoom)
  unfolding check_limits
  check_limits-Room ip = Ensures-bind _ _ _ _ (gets-Keeps IsSparing _) λ last.
      Ensures-bind _ _ _ _ (Ensures-gets _) λ n. Ensures-guard _ _ _ _ λ _.
        Ensures-guard _ _ _ _ λ room.
          Ensures-weaken {P = HasRoom} (λ _. HasRoom) (λ _. HasRoom) _
            (λ s h. (ground (arith, h.0, room), h.1)) (λ a s h. h) (search (keeps_rules))

  -- The hour around a new code has no more codes than the query counts.
  new_code-Sparing :
      (ip transaction_id : Text) (expires_at : ℕ) (s : Store)
      → lim.per_phone ≤ otp_max_per_hour
      → HasRoom s
      → IsSparing (record s { codes = new_code env phone ip transaction_id expires_at ∷ s.codes })
  new_code-Sparing ip transaction_id expires_at s small h who t =
      elim (Bool-cases (sent_in_hour who t (new_code env phone ip transaction_id expires_at))) [
        | inr outside ↦ rw outside (h.1 who t)
        | inl inside ↦
            let mine : same_text phone who ≡ true = ground (arith, inside) in
            let e = eq_of_same_text phone who mine in
            let more =
              count_rows_mono (sent_in_hour who t) (λ c. is_of phone c && is_recent env 3600 c)
                s.codes (λ c in_. rw e (ground (arith, in_, inside))) in
            rw inside (omega (arith, more, h.0, small))
      ]

  insert_code-Sparing :
      (ip transaction_id : Text) (expires_at : ℕ)
      → lim.per_phone ≤ otp_max_per_hour
      → Ensures HasRoom
          (insert_code (new_code env phone ip transaction_id expires_at))
          (λ _. IsSparing)
  unfolding insert_code
  insert_code-Sparing ip transaction_id expires_at small =
      Ensures-bind _ _ _ _ (gets-Keeps HasRoom _) λ refused.
        Ensures-guard _ _ _ _
          λ _. Ensures-modify _ _ (λ s h. new_code-Sparing ip transaction_id expires_at s small h)

  reserve-Sparing :
      (ip transaction_id : Text) (expires_at : ℕ)
      → lim.per_phone ≤ otp_max_per_hour
      → Always IsSparing (reserve env phone ip transaction_id expires_at lim)
  unfolding reserve reserve_tx
  reserve-Sparing ip transaction_id expires_at small = with_tx-Always _ _ (
      Ensures-bind _ _ _ _ (check_limits-Room ip) λ _.
        Ensures-bind _ _ _ _ (insert_code-Sparing ip transaction_id expires_at small)
          λ _. pure-Keeps _ _)

update_codes-Sparing :
    (test : OtpCode → Bool) (f : OtpCode → OtpCode) (s : Store)
    → ((c : OtpCode) → ((f c).phone ≡ c.phone) × ((f c).created_at ≡ c.created_at))
    → IsSparing s
    → IsSparing (update_codes test f s)
update_codes-Sparing test f s same h phone t =
    rw
      (count_rows-update (sent_in_hour phone t) test f s.codes
        (λ c. rw ((same c).0, (same c).1) refl))
      (h phone t)

perform-Sparing :
    (cfg : AuthConfig) (env : AuthEnv) (a : Act) (s : Store)
    → IsSparing s
    → IsSparing (perform cfg env a s).1
unfolding perform set_token burn take_attempt consume ◌>>=◌
perform-Sparing cfg env (Act.reserving phone ip transaction_id expires_at) s h =
    (reserve-Sparing env phone (send_limits cfg) ip transaction_id expires_at (omega arith)).at s h
perform-Sparing cfg env (Act.setting_token id token) s h =
    update_codes-Sparing (λ c. c.id == id) (λ c. record c { token = token }) s (λ c. (refl, refl)) h
perform-Sparing cfg env (Act.burning id) s h =
    update_codes-Sparing (unconsumed id) (use_up env) s (λ c. (refl, refl)) h
perform-Sparing cfg env (Act.attempting id) s h =
    update_codes-Sparing (has_budget id (max_attempts cfg)) count_attempt s (λ c. (refl, refl)) h
perform-Sparing cfg env (Act.consuming id) s h =
    update_codes-Sparing (unconsumed id) (use_up env) s (λ c. (refl, refl)) h
perform-Sparing cfg env (Act.revoking family_id) s h =
    (revoke_family-Apart AreFew env family_id).at s h
perform-Sparing cfg env (Act.creating customer_id hash expires_at) s h =
    (create-Apart AreFew env customer_id hash expires_at).at s h
perform-Sparing cfg env (Act.rotating old_hash new_hash expires_at) s h =
    (rotate-Apart AreFew env old_hash new_hash expires_at).at s h
perform-Sparing cfg env (Act.checking family_id) s h = h
perform-Sparing cfg env (Act.inserting customer_id family_id hash expires_at) s h =
    (insert_token-Always AreFew _).at s h

-- From a table in which no phone has more than five codes in any hour, every interleaving of the
-- statements of concurrent requests leaves such a table: no phone is sent more than five codes in
-- any hour, whenever it begins.
pub run_acts-Sparing :
    (cfg : AuthConfig) (acts : List (AuthEnv × Act)) (s : Store)
    → IsSparing s
    → IsSparing (run_acts cfg acts s)
run_acts-Sparing cfg [] s h = h
run_acts-Sparing cfg ((env, a) ∷ acts) s h =
    run_acts-Sparing cfg acts (perform cfg env a s).1 (perform-Sparing cfg env a s h)
