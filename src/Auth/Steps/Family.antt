-- ===== src/Auth/Steps/Family.antt =====
-- A session that is over stays over (refresh_tokens in internal/auth/refresh_repo.go).
use cozy_backend.Base.{
  ℕ, ◌≤◌, ◌≡◌, refl, sym, Bool, true, false, ◌&&◌, Option, none, some, List, [], ◌∷◌, arith, ◌==◌,
  ==_iff, if_both, Bool-cases, inl, inr, update_rows, first_row, any_row, All, All-update_rows,
  first_row-All,
}
use cozy_backend.Dbtx.{modify}
use cozy_backend.Dbtx.Ensures.{Ensures-bind, Ensures-modify, Ensures-given}
use cozy_backend.Dbtx.Keeps.{Keeps, pure-Keeps, bind-Keeps, gets-Keeps, raise_if-Keeps}
use cozy_backend.Dbtx.Always.{Always, with_tx-Always, bind-Always, gets-Always, raise_if-Always}
use cozy_backend.Schema.Text.{Text}
use cozy_backend.Auth.Rows.{RefreshToken, Store, AuthEnv, AuthConfig}
use cozy_backend.Auth.Codes.{set_token, burn}
use cozy_backend.Auth.Tokens.{
  is_active, is_current, new_token, insert_token, create, retire, succeed, rotate_tx, rotate,
  unrevoked, revoke_family, family_is_alive,
}
use cozy_backend.Auth.Service.{send_limits, max_attempts}
use cozy_backend.Auth.Steps.Apart.{reserve-Apart, take_attempt-Apart, consume-Apart}
use cozy_backend.Auth.Steps.{Act, perform, run_acts, seen_after, IsBacked, AreBacked}

module _ (f now : ℕ) where
  -- No token of the family `f` is active at the time `now`, or later.
  abbrev pub AreOver : List RefreshToken → Type 0
  AreOver rows = All (λ t. (t.family_id == f) ≡ true → is_active now t ≡ false) rows

  abbrev pub IsOver : Store → Type 0
  IsOver s = AreOver s.tokens

  abbrev IsForeign : Option RefreshToken → Type 0
  IsForeign none = Unit
  IsForeign (some t) = (t.family_id == f) ≡ false

  -- A token that is active now or later is of another family.
  current-IsForeign :
      (env : AuthEnv) (hash : Text) (rows : List RefreshToken) (o : Option RefreshToken)
      → now ≤ env.now
      → o ≡ first_row (is_current env hash) rows
      → AreOver rows
      → IsForeign o
  current-IsForeign env hash rows none later e h = tt
  current-IsForeign env hash rows (some t) later e h =
      let found = first_row-All _ (is_current env hash) rows t h (sym e) in
      elim (Bool-cases (t.family_id == f)) [
        | inr other ↦ other
        | inl mine ↦ let idle = found.0 mine in absurd (ground (arith, idle, found.1, later))
      ]

  push_token-Keeps :
      (row : RefreshToken)
      → (row.family_id == f) ≡ false
      → Keeps IsOver (modify (λ s. record s { tokens = row ∷ s.tokens }))
  push_token-Keeps row other =
      Ensures-modify _ _ (λ s h. ((λ mine. absurd (ground (arith, mine, other))), h))

  insert_token-Always :
      (row : RefreshToken) → (row.family_id == f) ≡ false → Always IsOver (insert_token row)
  unfolding insert_token
  insert_token-Always row other =
      bind-Always _ _ _ (gets-Always _ _)
        λ refused. bind-Always _ _ _ (raise_if-Always _ refused _) λ _. pushed
    where
      pushed : Always IsOver (modify (λ s. record s { tokens = row ∷ s.tokens }))
      pushed = record { at = λ s h. ((λ mine. absurd (ground (arith, mine, other))), h) }

  insert_token-Keeps :
      (row : RefreshToken) → (row.family_id == f) ≡ false → Keeps IsOver (insert_token row)
  unfolding insert_token
  insert_token-Keeps row other =
      bind-Keeps _ _ _ (gets-Keeps _ _)
        λ refused. bind-Keeps _ _ _ (raise_if-Keeps _ refused _) λ _. push_token-Keeps row other

  update-AreOver :
      (test : RefreshToken → Bool) (g : RefreshToken → RefreshToken) (rows : List RefreshToken)
      → ((t : RefreshToken) → is_active now (g t) ≡ false)
      → AreOver rows
      → AreOver (update_rows test g rows)
  update-AreOver test g rows dead h =
      All-update_rows _ _ test g rows (λ t k e mine. dead t) (λ t k e. k) h

  succeed-Keeps :
      (env : AuthEnv) (hash : Text) (expires_at : ℕ) (o : Option RefreshToken)
      → IsForeign o
      → Keeps IsOver (succeed env hash expires_at o)
  unfolding succeed
  succeed-Keeps env hash expires_at none foreign = pure-Keeps _ _
  succeed-Keeps env hash expires_at (some t) foreign =
      Ensures-bind _ _ _ _ (insert_token-Keeps _ foreign) λ _. pure-Keeps _ _

  rotate-Over :
      (env : AuthEnv) (old_hash new_hash : Text) (expires_at : ℕ)
      → now ≤ env.now
      → Always IsOver (rotate env old_hash new_hash expires_at)
  unfolding rotate rotate_tx
  rotate-Over env old_hash new_hash expires_at later = with_tx-Always _ _ (
      Ensures-bind (λ o s. IsForeign o × IsOver s) _ _ _
        (record { at = λ s h. (current-IsForeign env old_hash s.tokens _ later refl h, h) })
        λ o. Ensures-given (IsForeign o) _ _ λ foreign.
          Ensures-bind _ _ _ _
            (Ensures-modify _ _
              (λ s h. update-AreOver (is_current env old_hash) (retire env) s.tokens (λ t. refl) h))
            λ _. succeed-Keeps env new_hash expires_at o foreign)

  -- A family that has an active token is another one.
  alive-other :
      (env : AuthEnv) (g : ℕ) (rows : List RefreshToken)
      → now ≤ env.now
      → AreOver rows
      → any_row (λ t. t.family_id == g && is_active env.now t) rows ≡ true
      → (g == f) ≡ false
  alive-other env g [] later h e = cc
  alive-other env g (t ∷ ts) later h e =
      elim (Bool-cases (t.family_id == g && is_active env.now t)) [
        | inr idle ↦ alive-other env g ts later h.1 (rw idle at e)
        | inl active ↦ elim (Bool-cases (g == f)) [
          | inr other ↦ other
          | inl mine ↦
              let same : g ≡ f = (==_iff _ _).0 mine in
              let own : (t.family_id == f) ≡ true = rw (← same) (ground (arith, active)) in
              let over = h.0 own in absurd (ground (arith, over, active, later))
        ]
      ]

  -- No check has found the family alive.
  abbrev pub IsUnseen : List ℕ → Type 0
  IsUnseen seen = any_row (λ x. x == f) seen ≡ false

  unseen-other :
      (seen : List ℕ) (g : ℕ) → IsUnseen seen → any_row (λ x. x == g) seen ≡ true → (g == f) ≡ false
  unseen-other [] g fresh e = cc
  unseen-other (x ∷ xs) g fresh e = elim (Bool-cases (x == g)) [
    | inl here ↦ ground (arith, fresh, here)
    | inr there ↦ unseen-other xs g (ground (arith, fresh)) (ground (arith, e, there))
  ]

  -- No later check finds it alive.
  seen_after-IsUnseen :
      (env : AuthEnv) (a : Act) (s : Store) (seen : List ℕ)
      → now ≤ env.now
      → IsOver s
      → IsUnseen seen
      → IsUnseen (seen_after env a s seen)
  unfolding family_is_alive
  seen_after-IsUnseen env (Act.checking g) s seen later h fresh =
      if_both IsUnseen (family_is_alive env g s)
        (λ alive. ground (arith, alive-other env g s.tokens later h alive, fresh)) (λ _. fresh)
  seen_after-IsUnseen env (Act.inserting customer_id g hash expires_at) s seen later h fresh = fresh
  seen_after-IsUnseen env (Act.reserving phone ip transaction_id expires_at) s seen later h fresh =
      fresh
  seen_after-IsUnseen env (Act.setting_token id token) s seen later h fresh = fresh
  seen_after-IsUnseen env (Act.burning id) s seen later h fresh = fresh
  seen_after-IsUnseen env (Act.attempting id) s seen later h fresh = fresh
  seen_after-IsUnseen env (Act.consuming id) s seen later h fresh = fresh
  seen_after-IsUnseen env (Act.revoking id) s seen later h fresh = fresh
  seen_after-IsUnseen env (Act.creating customer_id hash expires_at) s seen later h fresh = fresh
  seen_after-IsUnseen env (Act.rotating old_hash new_hash expires_at) s seen later h fresh = fresh

  -- A statement that starts no session in this family, at a later time.
  abbrev pub IsLater : AuthEnv × Act → Type 0
  IsLater (env, a) = (now ≤ env.now) × ((env.family_id == f) ≡ false)

  perform-Over :
      (cfg : AuthConfig) (seen : List ℕ) (env : AuthEnv) (a : Act) (s : Store)
      → IsUnseen seen
      → IsBacked seen a
      → IsLater (env, a)
      → IsOver s
      → IsOver (perform cfg env a s).1
  unfolding perform set_token burn revoke_family create
  perform-Over cfg seen env (Act.reserving phone ip transaction_id expires_at) s fresh backed later
        h =
      (reserve-Apart AreOver env phone ip transaction_id expires_at (send_limits cfg)).at s h
  perform-Over cfg seen env (Act.setting_token id token) s fresh backed later h = h
  perform-Over cfg seen env (Act.burning id) s fresh backed later h = h
  perform-Over cfg seen env (Act.attempting id) s fresh backed later h =
      (take_attempt-Apart AreOver id (max_attempts cfg)).at s h
  perform-Over cfg seen env (Act.consuming id) s fresh backed later h =
      (consume-Apart AreOver env id).at s h
  perform-Over cfg seen env (Act.revoking g) s fresh backed later h =
      update-AreOver (unrevoked g) (λ t. record t { revoked_at = some env.now }) s.tokens
        (λ t. refl) h
  perform-Over cfg seen env (Act.creating customer_id hash expires_at) s fresh backed later h =
      (insert_token-Always (new_token env customer_id env.family_id hash expires_at) later.1).at s h
  perform-Over cfg seen env (Act.rotating old_hash new_hash expires_at) s fresh backed later h =
      (rotate-Over env old_hash new_hash expires_at later.0).at s h
  perform-Over cfg seen env (Act.checking g) s fresh backed later h = h
  perform-Over cfg seen env (Act.inserting customer_id g hash expires_at) s fresh backed later h =
      (insert_token-Always (new_token env customer_id g hash expires_at)
          (unseen-other seen g fresh backed)).at
        s h

  -- Once a family has no active token, and no insert of issueInFamily is on its way that found it
  -- alive before, it never has an active token again: whatever concurrent requests do later and in
  -- whatever order their statements run, the check and the insert of issueInFamily apart from each
  -- other, if no new login draws the same family id.
  pub run_acts-Over :
      (cfg : AuthConfig) (seen : List ℕ) (acts : List (AuthEnv × Act)) (s : Store)
      → IsUnseen seen
      → AreBacked cfg seen acts s
      → All IsLater acts
      → IsOver s
      → IsOver (run_acts cfg acts s)
  run_acts-Over cfg seen [] s fresh backed later h = h
  run_acts-Over cfg seen ((env, a) ∷ acts) s fresh backed later h =
      run_acts-Over cfg (seen_after env a s seen) acts (perform cfg env a s).1
        (seen_after-IsUnseen env a s seen later.0.0 h fresh) backed.1 later.1
        (perform-Over cfg seen env a s fresh backed.0 later.0 h)
