-- ===== src/Dbtx/Keeps.antt =====
-- Blocks that leave a property of the tables as it is, one rule for each way to build them.
use cozy_backend.Base.{Bool, true, false, Option, none, some, if◌then◌else◌}
use cozy_backend.Apperr.{Error, Result, ok, err}
use cozy_backend.Dbtx.{Tx, pure, raise, lift, gets, or_raise, raise_if, ◌>>=◌}
use cozy_backend.Dbtx.Ensures.{Ensures, Ensures-bind}

-- If the block returns, `P` holds as it did before.
abbrev pub Keeps : {S A : Type 0} → (S → Type 0) → Tx S A → Type 0
Keeps P m = Ensures P m (λ _. P)

module _ {S : Type 0} (P : S → Type 0) where
  pub raise_if-Keeps : (b : Bool) (e : Error) → Keeps P (raise_if b e)
  raise_if-Keeps true e = record { at = λ _ _. tt }
  raise_if-Keeps false e = record { at = λ s h. h }

  pub or_raise-Keeps : {A : Type 0} (e : Error) (o : Option A) → Keeps P (or_raise e o)
  or_raise-Keeps e none = record { at = λ _ _. tt }
  or_raise-Keeps e (some a) = record { at = λ s h. h }

  pub lift-Keeps : {A : Type 0} (r : Result A) → Keeps P (lift r)
  lift-Keeps (ok a) = record { at = λ s h. h }
  lift-Keeps (err e) = record { at = λ s h. tt }

  pub pure-Keeps : {A : Type 0} (a : A) → Keeps P (pure a)
  pure-Keeps a = record { at = λ s h. h }

  pub raise-Keeps : {A : Type 0} (e : Error) → Keeps P (raise {A = A} e)
  raise-Keeps e = record { at = λ s h. tt }

  pub gets-Keeps : {A : Type 0} (f : S → A) → Keeps P (gets f)
  gets-Keeps f = record { at = λ s h. h }

  pub bind-Keeps :
      {A B : Type 0} (m : Tx S A) (k : A → Tx S B)
      → Keeps P m
      → ((a : A) → Keeps P (k a))
      → Keeps P (m >>= k)
  bind-Keeps m k hm hk = Ensures-bind (λ _. P) _ m k hm hk

  pub if-Keeps :
      {A : Type 0} (b : Bool) (m n : Tx S A) → Keeps P m → Keeps P n → Keeps P (if b then m else n)
  if-Keeps true m n hm hn = hm
  if-Keeps false m n hm hn = hn

pub ruleset keeps_rules = (
  raise_if-Keeps, or_raise-Keeps, lift-Keeps, pure-Keeps, raise-Keeps, gets-Keeps, bind-Keeps,
  if-Keeps,
)
