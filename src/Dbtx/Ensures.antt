-- ===== src/Dbtx/Ensures.antt =====
-- What a block of repository code guarantees when it returns, one rule for each way to build it.
-- A block that fails guarantees nothing here: `with_tx` rolls its writes back.
use cozy_backend.Base.{◌≡◌, refl, Bool, true, false, Option, none, some, if◌then◌else◌}
use cozy_backend.Apperr.{Error, Result, ok, err}
use cozy_backend.Dbtx.{
  Tx, pure, raise, gets, or_raise, with_tx, finish_tx, modify, raise_if, continue, ◌>>=◌,
}

abbrev pub Post : {S A : Type 0} → (A → S → Type 0) → Result A × S → Type 0
Post Q (ok a, s) = Q a s
Post Q (err _, _) = Unit

-- From a state with `P`, the block `m` fails or returns a value and a state with `Q`.
pub record Ensures {S A : Type 0} (P : S → Type 0) (m : Tx S A) (Q : A → S → Type 0) : Type 0 where
  pub at : (s : S) → P s → Post Q (m s)

module _ {S A : Type 0} {P : S → Type 0} where
  pub Ensures-pure : (Q : A → S → Type 0) (a : A) → ((s : S) → P s → Q a s) → Ensures P (pure a) Q
  Ensures-pure Q a h = record { at = h }

  pub Ensures-raise : (Q : A → S → Type 0) (e : Error) → Ensures P (raise {A = A} e) Q
  Ensures-raise Q e = record { at = λ _ _. tt }

  -- A read leaves the state alone and returns what it read.
  pub Ensures-gets : (f : S → A) → Ensures P (gets f) (λ a s. (a ≡ f s) × P s)
  Ensures-gets f = record { at = λ s h. (refl, h) }

  pub Ensures-or_raise :
      (e : Error) (o : Option A) → Ensures P (or_raise e o) (λ a s. (o ≡ some a) × P s)
  Ensures-or_raise e none = record { at = λ _ _. tt }
  Ensures-or_raise e (some a) = record { at = λ s h. (refl, h) }

  pub Ensures-if :
      (Q : A → S → Type 0) (b : Bool) (m n : Tx S A)
      → (b ≡ true → Ensures P m Q)
      → (b ≡ false → Ensures P n Q)
      → Ensures P (if b then m else n) Q
  Ensures-if Q true m n hm hn = hm refl
  Ensures-if Q false m n hm hn = hn refl

  Post-with_tx :
      (Q : A → S → Type 0) (s : S) (r : Result A × S)
      → P s
      → ((a : A) (t : S) → Q a t → P t)
      → Post Q r
      → P (finish_tx s r).1
  unfolding finish_tx
  Post-with_tx Q s (ok a, t) keep h post = h a t post
  Post-with_tx Q s (err e, t) keep h post = keep

  -- What a block restores by its end, a transaction keeps: a failed block is rolled back.
  pub with_tx_keeps :
      (Q : A → S → Type 0) (m : Tx S A) (s : S)
      → Ensures P m Q
      → ((a : A) (t : S) → Q a t → P t)
      → P s
      → P (with_tx m s).1
  unfolding with_tx
  with_tx_keeps Q m s e h p = Post-with_tx Q s (m s) p h (e.at s p)

module _ {S : Type 0} {P : S → Type 0} where
  pub Ensures-modify :
      (Q : S → Type 0) (f : S → S) → ((s : S) → P s → Q (f s)) → Ensures P (modify f) (λ _. Q)
  Ensures-modify Q f h = record { at = h }

  pub Ensures-raise_if :
      (b : Bool) (e : Error) → Ensures P (raise_if b e) (λ _ s. (b ≡ false) × P s)
  Ensures-raise_if true e = record { at = λ _ _. tt }
  Ensures-raise_if false e = record { at = λ s h. (refl, h) }

module _ {S A B : Type 0} where
  Post-continue :
      (Q : A → S → Type 0) (R : B → S → Type 0) (f : A → Tx S B) (r : Result A) (s : S)
      → Post Q (r, s)
      → ((a : A) → Ensures (Q a) (f a) R)
      → Post R (continue r f s)
  Post-continue Q R f (ok a) s q h = (h a).at s q
  Post-continue Q R f (err e) s q h = tt

  pub Ensures-bind :
      {P : S → Type 0} (Q : A → S → Type 0) (R : B → S → Type 0) (m : Tx S A) (f : A → Tx S B)
      → Ensures P m Q
      → ((a : A) → Ensures (Q a) (f a) R)
      → Ensures P (m >>= f) R
  unfolding ◌>>=◌
  Ensures-bind Q R m f hm hf = record {
    at = λ s h. Post-continue Q R f (m s).0 (m s).1 (hm.at s h) hf;
  }

module _ {S A : Type 0} where
  Post-map :
      (Q R : A → S → Type 0) (r : Result A × S)
      → ((a : A) (s : S) → Q a s → R a s)
      → Post Q r
      → Post R r
  Post-map Q R (ok a, s) h q = h a s q
  Post-map Q R (err e, s) h q = tt

  pub Ensures-weaken :
      {P P' : S → Type 0} (Q R : A → S → Type 0) (m : Tx S A)
      → ((s : S) → P' s → P s)
      → ((a : A) (s : S) → Q a s → R a s)
      → Ensures P m Q
      → Ensures P' m R
  Ensures-weaken Q R m pre post e = record {
    at = λ s h. Post-map Q R (m s) post (e.at s (pre s h));
  }

  -- A fact that does not depend on the tables is carried along.
  pub Ensures-frame :
      {P : S → Type 0} (F : Type 0) (Q : A → S → Type 0) (m : Tx S A)
      → Ensures P m Q
      → Ensures (λ s. F × P s) m (λ a s. F × Q a s)
  Ensures-frame F Q m e = record {
    at = λ s h. Post-map Q (λ a t. F × Q a t) (m s) (λ a t q. (h.0, q)) (e.at s h.1);
  }

module _ {S A : Type 0} where
  -- A fact that does not depend on the tables may be used.
  pub Ensures-given :
      {P : S → Type 0} (F : Type 0) (Q : A → S → Type 0) (m : Tx S A)
      → (F → Ensures P m Q)
      → Ensures (λ s. F × P s) m Q
  Ensures-given F Q m e = record { at = λ s h. (e h.0).at s h.1 }

module _ {S B : Type 0} {P : S → Type 0} where
  -- What follows a guard may use that the guard let it pass.
  pub Ensures-guard :
      (R : B → S → Type 0) (b : Bool) (e : Error) (f : Unit → Tx S B)
      → (b ≡ false → Ensures P (f tt) R)
      → Ensures P (raise_if b e >>= f) R
  unfolding ◌>>=◌
  Ensures-guard R true e f h = record { at = λ _ _. tt }
  Ensures-guard R false e f h = record { at = (h refl).at }
