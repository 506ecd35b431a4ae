-- ===== src/Dbtx/Always.antt =====
-- Blocks after which a property of the tables holds whether they return or fail: reads, and whole
-- transactions, which roll a failed block back.
use cozy_backend.Base.{Bool, true, false, Option, none, some, if◌then◌else◌}
use cozy_backend.Apperr.{Error, Result, ok, err}
use cozy_backend.Dbtx.{Tx, pure, raise, lift, gets, or_raise, raise_if, with_tx, continue, ◌>>=◌}
use cozy_backend.Dbtx.Ensures.{Post, with_tx_keeps}
use cozy_backend.Dbtx.Keeps.{Keeps}

pub record Always {S A : Type 0} (P : S → Type 0) (m : Tx S A) : Type 0 where
  pub at : (s : S) → P s → P (m s).1

module _ {S : Type 0} (P : S → Type 0) where
  pub pure-Always : {A : Type 0} (a : A) → Always P (pure a)
  pure-Always a = record { at = λ s h. h }

  pub raise-Always : {A : Type 0} (e : Error) → Always P (raise {A = A} e)
  raise-Always e = record { at = λ s h. h }

  pub lift-Always : {A : Type 0} (r : Result A) → Always P (lift r)
  lift-Always r = record { at = λ s h. h }

  pub gets-Always : {A : Type 0} (f : S → A) → Always P (gets f)
  gets-Always f = record { at = λ s h. h }

  pub or_raise-Always : {A : Type 0} (e : Error) (o : Option A) → Always P (or_raise e o)
  or_raise-Always e none = record { at = λ s h. h }
  or_raise-Always e (some a) = record { at = λ s h. h }

  pub raise_if-Always : (b : Bool) (e : Error) → Always P (raise_if b e)
  raise_if-Always true e = record { at = λ s h. h }
  raise_if-Always false e = record { at = λ s h. h }

  pub with_tx-Always : {A : Type 0} (m : Tx S A) → Keeps P m → Always P (with_tx m)
  with_tx-Always m k = record { at = λ s h. with_tx_keeps (λ _. P) m s k (λ a t p. p) h }

  pub if-Always :
      {A : Type 0} (b : Bool) (m n : Tx S A)
      → Always P m
      → Always P n
      → Always P (if b then m else n)
  if-Always true m n hm hn = hm
  if-Always false m n hm hn = hn

  continue_always :
      {A B : Type 0} (r : Result A) (k : A → Tx S B) (s : S)
      → P s
      → ((a : A) → Always P (k a))
      → P (continue r k s).1
  continue_always (ok a) k s h hk = (hk a).at s h
  continue_always (err e) k s h hk = h

  pub bind-Always :
      {A B : Type 0} (m : Tx S A) (k : A → Tx S B)
      → Always P m
      → ((a : A) → Always P (k a))
      → Always P (m >>= k)
  unfolding ◌>>=◌
  bind-Always m k hm hk = record { at = λ s h. continue_always (m s).0 k (m s).1 (hm.at s h) hk }

  -- What always holds afterwards holds after a success.
  pub Keeps-Always : {A : Type 0} (m : Tx S A) → Always P m → Keeps P m
  Keeps-Always {A = A} m a = record { at = λ s h. of_result (m s) (a.at s h) }
    where
      of_result : (p : Result A × S) → P p.1 → Post (λ _. P) p
      of_result (ok x, s) h = h
      of_result (err e, s) h = tt

pub ruleset always_rules = (
  pure-Always, raise-Always, lift-Always, gets-Always, or_raise-Always, raise_if-Always,
  bind-Always, if-Always, with_tx-Always,
)
