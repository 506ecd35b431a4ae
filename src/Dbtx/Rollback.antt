-- ===== src/Dbtx/Rollback.antt =====
-- Blocks that write nothing when they fail, and blocks that only compute.
use cozy_backend.Base.{◌≡◌, refl, sym, ap, ◌∙◌, subst, Bool, true, false}
use cozy_backend.Apperr.{Error, Result, ok, err, is_ok}
use cozy_backend.Dbtx.{Tx, pure, lift, finish_tx, with_tx, continue, raise_if, ◌>>=◌}
use cozy_backend.Dbtx.Ensures.{Post}

-- The tables after a failed block are those before it.
abbrev pub RollsBack : {S A : Type 0} → S → Result A × S → Type 0
RollsBack s (ok a, t) = Unit
RollsBack s (err e, t) = t ≡ s

module _ {S A : Type 0} where
  finish_tx-RollsBack : (s : S) (r : Result A × S) → RollsBack s (finish_tx s r)
  unfolding finish_tx
  finish_tx-RollsBack s (ok a, t) = tt
  finish_tx-RollsBack s (err e, t) = refl

  pub with_tx-RollsBack : (s : S) (m : Tx S A) → RollsBack s (with_tx m s)
  unfolding with_tx
  with_tx-RollsBack s m = finish_tx-RollsBack s (m s)

  finish_tx-Post :
      (Q : A → S → Type 0) (s : S) (r : Result A × S) → Post Q r → Post Q (finish_tx s r)
  unfolding finish_tx
  finish_tx-Post Q s (ok a, t) h = h
  finish_tx-Post Q s (err e, t) h = tt

  pub with_tx-Post : (Q : A → S → Type 0) (s : S) (m : Tx S A) → Post Q (m s) → Post Q (with_tx m s)
  unfolding with_tx
  with_tx-Post Q s m h = finish_tx-Post Q s (m s) h

pub raise_if-state : {S : Type 0} (b : Bool) (e : Error) (s : S) → (raise_if b e s).1 ≡ s
raise_if-state true e s = refl
raise_if-state false e s = refl

module _ {S A B : Type 0} where
  -- A check first: it has written nothing.
  pub check-RollsBack :
      (r : Result A) (s t : S) (f : A → Tx S B)
      → t ≡ s
      → ((a : A) → RollsBack s (f a s))
      → RollsBack s (continue r f t)
  check-RollsBack (ok a) s t f h k = subst (λ u. RollsBack s (f a u)) (sym h) (k a)
  check-RollsBack (err e) s t f h k = h

  -- A computation that cannot fail after the block.
  pub then-RollsBack :
      (s : S) (r : Result A) (t : S) (f : A → Tx S B)
      → RollsBack s (r, t)
      → ((a : A) (u : S) → is_ok (f a u).0 ≡ true)
      → RollsBack s (continue r f t)
  then-RollsBack s (ok a) t f h k = ok-RollsBack (f a t) (k a t)
    where
      ok-RollsBack : (p : Result B × S) → is_ok p.0 ≡ true → RollsBack s p
      ok-RollsBack (ok b, u) e = tt
      ok-RollsBack (err x, u) e = cc
  then-RollsBack s (err e) t f h k = h

module _ {S B : Type 0} where
  pub guard-RollsBack :
      (b : Bool) (e : Error) (f : Unit → Tx S B) (s : S)
      → RollsBack s (f tt s)
      → RollsBack s ((raise_if b e >>= f) s)
  unfolding ◌>>=◌
  guard-RollsBack true e f s h = refl
  guard-RollsBack false e f s h = h

  pub transaction-RollsBack :
      {A : Type 0} (m : Tx S A) (f : A → B) (s : S)
      → RollsBack s ((with_tx m >>= λ a. pure (f a)) s)
  unfolding ◌>>=◌
  transaction-RollsBack m f s =
      then-RollsBack s (with_tx m s).0 (with_tx m s).1 (λ a. pure (f a)) (with_tx-RollsBack s m)
        (λ a u. refl)

-- The block reads and writes no table.
pub record Steady {S A : Type 0} (m : Tx S A) : Type 0 where
  pub at : (s t : S) → m s ≡ ((m t).0, s)

module _ {S : Type 0} where
  pub pure-Steady : {A : Type 0} (a : A) → Steady {S = S} (pure a)
  pure-Steady a = record { at = λ s t. refl }

  pub lift-Steady : {A : Type 0} (r : Result A) → Steady {S = S} (lift r)
  lift-Steady r = record { at = λ s t. refl }

  continue-Steady :
      {A B : Type 0} (r : Result A) (f : A → Tx S B) (s t : S)
      → ((a : A) → Steady (f a))
      → continue r f s ≡ ((continue r f t).0, s)
  continue-Steady (ok a) f s t h = (h a).at s t
  continue-Steady (err e) f s t h = refl

  pub bind-Steady :
      {A B : Type 0} (m : Tx S A) (f : A → Tx S B)
      → Steady m
      → ((a : A) → Steady (f a))
      → Steady (m >>= f)
  unfolding ◌>>=◌
  bind-Steady m f hm hf = record {
    at = λ s t. ap (λ p. continue p.0 f p.1) (hm.at s t) ∙ continue-Steady (m t).0 f s (m t).1 hf;
  }

pub ruleset steady_rules = (pure-Steady, lift-Steady, bind-Steady)
