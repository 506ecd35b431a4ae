-- ===== src/Goods/Quantities.antt =====
-- Quantities by variant: the map that `merged[id] += qty` builds, its keys, and sums over them
-- (mergeItemQuantities and restockOrderTx in internal/orders).
use cozy_backend.Base.{
  ℕ, zero, suc, ◌+◌, ◌*◌, ◌≤◌, ◌≡◌, refl, List, [], ◌∷◌, arith, ◌==◌, if◌then◌else◌, sum_by,
  Bool-cases, inl, inr,
}
use cozy_backend.Orders.Input.{Quantities, qty_of, add_qty, keys, insert_sorted, sort}

abbrev pub count : ℕ → List ℕ → ℕ
count v [] = 0
count v (w ∷ ws) = let rest = count v ws in if w == v then suc rest else rest

-- Every key occurs once.
abbrev pub IsMap : Quantities → Type 0
IsMap m = (v : ℕ) → count v (keys m) ≤ 1

-- What a list of variants asks for of one variant.
abbrev pub asked : ℕ → Quantities → List ℕ → ℕ
asked v m = sum_by (λ w. if w == v then qty_of m w else 0)

pub qty_of-add_qty :
    (v q w : ℕ) (m : Quantities) → qty_of (add_qty v q m) w ≡ qty_of m w + (if v == w then q else 0)
unfolding qty_of add_qty
qty_of-add_qty v q w [] = ground arith
qty_of-add_qty v q w ((u, r) ∷ m) = ground (arith, qty_of-add_qty v q w m)

pub count-add_qty :
    (v q w : ℕ) (m : Quantities)
    → count w (keys (add_qty v q m)) ≡ (
        if v == w
        then (if count w (keys m) == 0 then 1 else count w (keys m))
        else count w (keys m))
unfolding add_qty
count-add_qty v q w [] = ground arith
count-add_qty v q w ((u, r) ∷ m) = ground (arith, count-add_qty v q w m)

pub add_qty-IsMap : (v q : ℕ) (m : Quantities) → IsMap m → IsMap (add_qty v q m)
add_qty-IsMap v q m h w = ground (arith, count-add_qty v q w m, h w)

count-insert_sorted : (v w : ℕ) (vs : List ℕ) → count v (insert_sorted w vs) ≡ count v (w ∷ vs)
unfolding insert_sorted
count-insert_sorted v w [] = refl
count-insert_sorted v w (x ∷ xs) = ground (arith, count-insert_sorted v w xs)

pub count-sort : (v : ℕ) (vs : List ℕ) → count v (sort vs) ≡ count v vs
unfolding sort
count-sort v [] = refl
count-sort v (x ∷ xs) = ground (arith, count-insert_sorted v x (sort xs), count-sort v xs)

qty_of_missing : (v : ℕ) (m : Quantities) → count v (keys m) ≡ 0 → qty_of m v ≡ 0
unfolding qty_of
qty_of_missing v [] h = refl
qty_of_missing v ((w, q) ∷ m) h = ground (arith, qty_of_missing v m)

asked-count : (v : ℕ) (m : Quantities) (vs : List ℕ) → asked v m vs ≡ count v vs * qty_of m v
asked-count v m [] = grind arith
asked-count v m (w ∷ ws) = elim (Bool-cases (w == v)) [
  | inl e ↦ grind (arith, asked-count v m ws)
  | inr e ↦ ground (arith, asked-count v m ws)
]

at_most_once : (c q : ℕ) → c ≤ 1 → (c ≡ 0 → q ≡ 0) → c * q ≡ q
at_most_once zero q h z = omega (arith, z refl)
at_most_once (suc zero) q h z = omega arith
at_most_once (suc (suc c)) q h z = omega arith

-- Over the sorted keys of a map every variant is asked for once, by its quantity.
pub asked-keys : (v : ℕ) (m : Quantities) → IsMap m → asked v m (sort (keys m)) ≡ qty_of m v
asked-keys v m h = rw (asked-count v m (sort (keys m))) (
    at_most_once _ _ (omega (arith, count-sort v (keys m), h v))
      (λ e. qty_of_missing v m (omega (arith, count-sort v (keys m)))))
