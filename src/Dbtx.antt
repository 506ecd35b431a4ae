-- ===== src/Dbtx.antt =====
-- internal/dbtx/dbtx.go: a block of repository code inside one transaction. A block is a function
-- of the tables that returns a value or an error and the tables as written so far; `with_tx`
-- commits them or rolls them back.
pub mod Ensures
pub mod Keeps
pub mod Always
pub mod Rollback
pub mod Total
use cozy_backend.Base.{◌≡◌, refl, Bool, true, false, Option, none, some}
use cozy_backend.Apperr.{Error, Result, ok, err}

abbrev pub Tx : Type 0 → Type 0 → Type 0
Tx S A = S → Result A × S

module _ {S A : Type 0} where
  abbrev pub pure : A → Tx S A
  pure a s = (ok a, s)

  abbrev pub raise : Error → Tx S A
  raise e s = (err e, s)

  abbrev pub lift : Result A → Tx S A
  lift r s = (r, s)

  abbrev pub gets : (S → A) → Tx S A
  gets f s = (ok (f s), s)

  -- `sql.ErrNoRows` becomes the error `e`.
  abbrev pub or_raise : Error → Option A → Tx S A
  or_raise e none = raise e
  or_raise e (some a) = pure a

  -- `WithTx`: commit if the block returns, else roll back and pass the error on.
  finish_tx : S → Result A × S → Result A × S
  finish_tx s (ok a, s') = (ok a, s')
  finish_tx s (err e, _) = (err e, s)

  unfoldable pub with_tx : Tx S A → Tx S A
  unfolding finish_tx
  with_tx body s = finish_tx s (body s)

module _ {S : Type 0} where
  abbrev pub modify : (S → S) → Tx S Unit
  modify f s = (ok tt, f s)

  -- `if test { return e }`
  abbrev pub raise_if : Bool → Error → Tx S Unit
  raise_if true e = raise e
  raise_if false e = pure tt

module _ {S A B : Type 0} where
  abbrev pub continue : Result A → (A → Tx S B) → Tx S B
  continue (ok a) f s = f a s
  continue (err e) f s = (err e, s)

  infixl 5 ◌>>=◌ ◌>>◌
  unfoldable pub ◌>>=◌ : Tx S A → (A → Tx S B) → Tx S B
  ◌>>=◌ m f s = continue (m s).0 f (m s).1

  abbrev pub ◌>>◌ : Tx S A → Tx S B → Tx S B
  m >> n = m >>= λ _. n
