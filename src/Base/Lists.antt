-- ===== src/Base/Lists.antt =====
-- Lists: measures by native numbers, sums, filters by a test, and predicates on all entries.
use Prim.Native.Nat.{ℕ, suc, ◌+◌, ◌≤◌}
use mathlib.Core.Path.{◌≡◌, refl, subst}
use mathlib.Core.Logic.{inl, inr}
use mathlib.Core.Bool.{Bool, true, false, ◌||◌}
use mathlib.Core.Option.{Option, none, some}
use mathlib.Core.List.{List, [], ◌∷◌, ◌++◌}
use native.Mathlib.Omega.{arith}
use cozy_backend.Base.Tests.{if◌then◌else◌, Bool-cases}

module _ {ℓ} {A : Type ℓ} where
  abbrev pub length : List A → ℕ
  length [] = 0
  length (_ ∷ xs) = suc (length xs)

  -- `SELECT … WHERE test`
  abbrev pub where_rows : (A → Bool) → List A → List A
  where_rows test [] = []
  where_rows test (x ∷ xs) = let rest = where_rows test xs in if test x then x ∷ rest else rest

  -- `SELECT COUNT(*) … WHERE test`
  abbrev pub count_rows : (A → Bool) → List A → ℕ
  count_rows test [] = 0
  count_rows test (x ∷ xs) = let rest = count_rows test xs in if test x then suc rest else rest

  -- `SELECT EXISTS (… WHERE test)`
  abbrev pub any_row : (A → Bool) → List A → Bool
  any_row test [] = false
  any_row test (x ∷ xs) = test x || any_row test xs

  -- The first row that passes the test.
  abbrev pub first_row : (A → Bool) → List A → Option A
  first_row test [] = none
  first_row test (x ∷ xs) = let rest = first_row test xs in if test x then some x else rest

  -- `UPDATE … SET … WHERE test`
  abbrev pub update_rows : (A → Bool) → (A → A) → List A → List A
  update_rows test f [] = []
  update_rows test f (x ∷ xs) = (if test x then f x else x) ∷ update_rows test f xs

  pub count_rows_mono :
      (p q : A → Bool) (xs : List A)
      → ((x : A) → p x ≡ true → q x ≡ true)
      → count_rows p xs ≤ count_rows q xs
  count_rows_mono p q [] h = omega arith
  count_rows_mono p q (x ∷ xs) h = ground (arith, h x, count_rows_mono p q xs h)

  pub count_rows-update :
      (p test : A → Bool) (f : A → A) (xs : List A)
      → ((x : A) → p (f x) ≡ p x)
      → count_rows p (update_rows test f xs) ≡ count_rows p xs
  count_rows-update p test f [] same = refl
  count_rows-update p test f (x ∷ xs) same =
      ground (arith, same x, count_rows-update p test f xs same)

  -- A change under which no row fails the test that passed it loses none.
  pub count_rows-keep :
      (p test : A → Bool) (f : A → A) (xs : List A)
      → ((x : A) → p x ≡ true → p (f x) ≡ true)
      → count_rows p xs ≤ count_rows p (update_rows test f xs)
  count_rows-keep p test f [] same = omega arith
  count_rows-keep p test f (x ∷ xs) same = ground (arith, same x, count_rows-keep p test f xs same)

  abbrev pub sum_by : (A → ℕ) → List A → ℕ
  sum_by f [] = 0
  sum_by f (x ∷ xs) = f x + sum_by f xs

  pub sum_by-append : (f : A → ℕ) (xs ys : List A) → sum_by f (xs ++ ys) ≡ sum_by f xs + sum_by f ys
  sum_by-append f [] ys = omega arith
  sum_by-append f (x ∷ xs) ys = omega (arith, sum_by-append f xs ys)

  abbrev pub All {κ} : (A → Type κ) → List A → Type κ
  All P [] = Unit
  All P (x ∷ xs) = P x × All P xs

  pub All-append {κ} : (P : A → Type κ) (xs ys : List A) → All P xs → All P ys → All P (xs ++ ys)
  All-append P [] ys hx hy = hy
  All-append P (x ∷ xs) ys hx hy = (hx.0, All-append P xs ys hx.1 hy)

  pub All-map {κ ι} :
      {P : A → Type κ} {Q : A → Type ι} (imp : (x : A) → P x → Q x) (xs : List A)
      → All P xs
      → All Q xs
  All-map imp [] h = tt
  All-map imp (x ∷ xs) h = (imp x h.0, All-map imp xs h.1)

  pub All-both {κ ι} :
      (P : A → Type κ) (Q : A → Type ι) (xs : List A)
      → All P xs
      → All Q xs
      → All (λ x. P x × Q x) xs
  All-both P Q [] hp hq = tt
  All-both P Q (x ∷ xs) hp hq = ((hp.0, hq.0), All-both P Q xs hp.1 hq.1)

  -- A row that a query finds has the property of all rows.
  pub first_row-All {κ} :
      (P : A → Type κ) (test : A → Bool) (xs : List A) (o : A)
      → All P xs
      → first_row test xs ≡ some o
      → P o × (test o ≡ true)
  first_row-All P test [] o h e = cc
  first_row-All P test (x ∷ xs) o h e = elim (Bool-cases (test x)) [
    | inl hit ↦
        let found : some x ≡ some o = rw hit at e in
        let same : x ≡ o = cc in subst (λ y. P y × (test y ≡ true)) same (h.0, hit)
    | inr miss ↦ first_row-All P test xs o h.1 (rw miss at e)
  ]

  pub All-update_rows {κ} :
      (P Q : A → Type κ) (test : A → Bool) (f : A → A) (xs : List A)
      → ((o : A) → P o → test o ≡ true → Q (f o))
      → ((o : A) → P o → test o ≡ false → Q o)
      → All P xs
      → All Q (update_rows test f xs)
  All-update_rows P Q test f [] hit miss h = tt
  All-update_rows P Q test f (o ∷ os) hit miss h = elim (Bool-cases (test o)) [
    | inl e ↦ rw e (hit o h.0 e, All-update_rows P Q test f os hit miss h.1)
    | inr e ↦ rw e (miss o h.0 e, All-update_rows P Q test f os hit miss h.1)
  ]

  pub All-always {κ} : (P : A → Type κ) (xs : List A) → ((x : A) → P x) → All P xs
  All-always P [] h = tt
  All-always P (x ∷ xs) h = (h x, All-always P xs h)

  -- A row that a query finds passes its test.
  pub first_row-test :
      (test : A → Bool) (xs : List A) (o : A) → first_row test xs ≡ some o → test o ≡ true
  first_row-test test xs o e =
      (first_row-All Anything test xs o (All-always Anything xs (λ _. tt)) e).1
    where
      Anything : A → Type 0
      Anything _ = Unit
