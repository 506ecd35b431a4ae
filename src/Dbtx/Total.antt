-- ===== src/Dbtx/Total.antt =====
-- Blocks that return, whatever the tables hold.
use cozy_backend.Base.{◌≡◌, refl, Bool, true, false, Option, none, some}
use cozy_backend.Apperr.{Error, Result, ok, err, is_ok}
use cozy_backend.Dbtx.{Tx, or_raise, raise_if, finish_tx, with_tx, continue, ◌>>=◌}

abbrev pub Total : {S A : Type 0} → Tx S A → Type 0
Total m = (s : _) → is_ok (m s).0 ≡ true

module _ {S : Type 0} where
  pub raise_if-Total : (b : Bool) (e : Error) → b ≡ false → Total {S = S} (raise_if b e)
  raise_if-Total true e h s = cc
  raise_if-Total false e h s = refl

  pub or_raise-Total :
      {A : Type 0} (e : Error) (o : Option A) (a : A) → o ≡ some a → Total {S = S} (or_raise e o)
  or_raise-Total e none a h s = cc
  or_raise-Total e (some b) a h s = refl

  continue-Total :
      {A B : Type 0} (r : Result A) (f : A → Tx S B) (s : S)
      → is_ok r ≡ true
      → ((a : A) → Total (f a))
      → is_ok (continue r f s).0 ≡ true
  continue-Total (ok a) f s h k = k a s
  continue-Total (err e) f s h k = cc

  pub bind-Total :
      {A B : Type 0} (m : Tx S A) (f : A → Tx S B)
      → Total m
      → ((a : A) → Total (f a))
      → Total (m >>= f)
  unfolding ◌>>=◌
  bind-Total m f hm hf s = continue-Total (m s).0 f (m s).1 (hm s) hf

  finish_tx-ok :
      {A : Type 0} (s : S) (r : Result A × S) → is_ok r.0 ≡ true → is_ok (finish_tx s r).0 ≡ true
  unfolding finish_tx
  finish_tx-ok s (ok a, t) h = refl
  finish_tx-ok s (err e, t) h = cc

  pub with_tx-ok :
      {A : Type 0} (m : Tx S A) (s : S) → is_ok (m s).0 ≡ true → is_ok (with_tx m s).0 ≡ true
  unfolding with_tx
  with_tx-ok m s h = finish_tx-ok s (m s) h

  -- A block that returned, and then one that cannot fail.
  pub then-ok :
      {A B : Type 0} (m : Tx S A) (f : A → Tx S B) (s : S)
      → is_ok (m s).0 ≡ true
      → ((a : A) → Total (f a))
      → is_ok ((m >>= f) s).0 ≡ true
  unfolding ◌>>=◌
  then-ok m f s h k = continue-Total (m s).0 f (m s).1 h k

  pub guard-ok :
      {B : Type 0} (b : Bool) (e : Error) (f : Unit → Tx S B) (s : S)
      → b ≡ false
      → is_ok (f tt s).0 ≡ true
      → is_ok ((raise_if b e >>= f) s).0 ≡ true
  unfolding ◌>>=◌
  guard-ok true e f s h k = cc
  guard-ok false e f s h k = k
