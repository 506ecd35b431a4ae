-- ===== src/Orders/Merge.antt =====
-- The merged lines of a request (mergeItemQuantities in internal/orders/order.go).
use cozy_backend.Base.{
  ap, sym, ◌∙◌, subst, ℕ, ◌+◌, ◌≤◌, ◌≡◌, refl, Bool, true, false, List, [], ◌∷◌, arith, ltb, leb,
  ◌==◌, if◌then◌else◌, sum_by, All, All-map, if_both,
}
use cozy_backend.Apperr.{Result, ok, err, qty_too_large, invalid_qty}
use cozy_backend.Schema.Text.{IdText, uuid, other}
use cozy_backend.Orders.Settings.{max_cart_qty}
use cozy_backend.Orders.Input.{
  ℤ, pos, negsuc, OrderItemInput, Quantities, qty_of, add_qty, keys, check_item, merge_item,
  merge_items, insert_sorted, sort, merge_item_quantities,
}
use cozy_backend.Goods.Quantities.{count, qty_of-add_qty, count-add_qty, count-sort}

-- What a line asks for of a variant.
abbrev pub line_qty : ℕ → OrderItemInput → ℕ
line_qty v it = elim it.variant_id [
  | other _ ↦ 0
  | uuid w ↦ elim it.quantity [ negsuc _ ↦ 0 | pos q ↦ if w == v then q else 0 ]
]

abbrev pub requested : ℕ → List OrderItemInput → ℕ
requested v = sum_by (line_qty v)

-- No total is above the cap, and the keys are the variants with a total, each once.
abbrev pub IsCart : Quantities → Type 0
IsCart m =
    (v : ℕ) → (qty_of m v ≤ max_cart_qty) × (count v (keys m) ≡ (if qty_of m v == 0 then 0 else 1))

-- What folding one line in gives.
abbrev Folds : ℕ → OrderItemInput → Quantities → Result Quantities → Type 0
Folds v it m (err e) = Unit
Folds v it m (ok m') = (qty_of m' v ≡ qty_of m v + line_qty v it) × (IsCart m → IsCart m')

add_qty-Folds :
    (v w q : ℕ) (m : Quantities)
    → ltb max_cart_qty (qty_of (add_qty w q m) w) ≡ false
    → (q == 0) ≡ false
    → (qty_of m v ≤ max_cart_qty) × (count v (keys m) ≡ (if qty_of m v == 0 then 0 else 1))
    → (qty_of (add_qty w q m) v ≤ max_cart_qty)
      × (count v (keys (add_qty w q m)) ≡ (if qty_of (add_qty w q m) v == 0 then 0 else 1))
add_qty-Folds v w q m cap positive h = (
  ground (arith, qty_of-add_qty w q v m, qty_of-add_qty w q w m, h),
  ground (arith, qty_of-add_qty w q v m, count-add_qty w q v m, h),
)

-- A line whose checks pass, folded in under the cap.
fold-Folds :
    (v w q : ℕ) (m : Quantities) (tooMuch : Bool)
    → (q == 0) ≡ false
    → ltb max_cart_qty (qty_of (add_qty w q m) w) ≡ tooMuch
    → Folds v
        (record { variant_id = uuid w; quantity = pos q })
        m
        (if tooMuch then err qty_too_large else ok (add_qty w q m))
fold-Folds v w q m true positive h = tt
fold-Folds v w q m false positive h =
    (qty_of-add_qty w q v m, λ cart u. add_qty-Folds u w q m h positive (cart u))

gated-Folds :
    (v w q : ℕ) (m : Quantities) (none_asked above : Bool)
    → (q == 0) ≡ none_asked
    → Folds v
        (record { variant_id = uuid w; quantity = pos q })
        m
        (merge_item
          (if none_asked then err invalid_qty else if above then err qty_too_large else ok (w, q))
          m)
unfolding merge_item
gated-Folds v w q m true above h = tt
gated-Folds v w q m false true h = tt
gated-Folds v w q m false false h =
    fold-Folds v w q m (ltb max_cart_qty (qty_of (add_qty w q m) w)) h refl

merge_item-Folds :
    (v : ℕ) (id : IdText) (q : ℤ) (m : Quantities)
    → Folds v
        (record { variant_id = id; quantity = q })
        m
        (merge_item (check_item (record { variant_id = id; quantity = q })) m)
unfolding merge_item check_item
merge_item-Folds v (other []) q m = tt
merge_item-Folds v (other (_ ∷ _)) q m = tt
merge_item-Folds v (uuid w) (negsuc _) m = tt
merge_item-Folds v (uuid w) (pos q) m = gated-Folds v w q m (q == 0) (ltb max_cart_qty q) refl

-- The map so far is a cart with `n` of the variant.
abbrev Carries : ℕ → ℕ → Result Quantities → Type 0
Carries v n (err e) = Unit
Carries v n (ok m) = (qty_of m v ≡ n) × IsCart m

Folds-Carries :
    (v : ℕ) (it : OrderItemInput) (m : Quantities) (n : ℕ) (r : Result Quantities)
    → (qty_of m v ≡ n) × IsCart m
    → Folds v it m r
    → Carries v (n + line_qty v it) r
Folds-Carries v it m n (err e) h f = tt
Folds-Carries v it m n (ok m') h f = (omega (arith, f.0, h.0), f.1 h.1)

-- The map that the loop ends with.
merge_items-Carries :
    (v : ℕ) (items : List OrderItemInput) (r : Result Quantities) (n total : ℕ)
    → total ≡ n + requested v items
    → Carries v n r
    → Carries v total (merge_items r items)
unfolding merge_items
merge_items-Carries v items (err e) n total sum h = tt
merge_items-Carries v [] (ok m) n total sum h = (omega (arith, sum, h.0), h.1)
merge_items-Carries v (it ∷ items) (ok m) n total sum h =
    merge_items-Carries v items (merge_item (check_item it) m) (n + line_qty v it) total
      (omega (arith, sum))
      (Folds-Carries v it m n (merge_item (check_item it) m) h
        (merge_item-Folds v it.variant_id it.quantity m))

-- Ascending.
abbrev pub IsSorted : List ℕ → Type 0
IsSorted [] = Unit
IsSorted (v ∷ vs) = All (λ w. v ≤ w) vs × IsSorted vs

insert_sorted-All :
    (u v : ℕ) (vs : List ℕ) → u ≤ v → All (λ w. u ≤ w) vs → All (λ w. u ≤ w) (insert_sorted v vs)
unfolding insert_sorted
insert_sorted-All u v [] h hs = (h, tt)
insert_sorted-All u v (w ∷ ws) h hs =
    if_both (All (λ x. u ≤ x)) (leb v w) (λ _. (h, hs))
      (λ _. (hs.0, insert_sorted-All u v ws h hs.1))

insert_sorted-IsSorted : (v : ℕ) (vs : List ℕ) → IsSorted vs → IsSorted (insert_sorted v vs)
unfolding insert_sorted
insert_sorted-IsSorted v [] h = (tt, tt)
insert_sorted-IsSorted v (w ∷ ws) h =
    if_both IsSorted (leb v w)
      (λ e.
        let v≤w : v ≤ w = ground arith in
        ((v≤w, All-map (λ x w≤x. omega (arith, v≤w, w≤x)) ws h.0), h))
      (λ e. (insert_sorted-All w v ws (ground arith) h.0, insert_sorted-IsSorted v ws h.1))

sort-IsSorted : (vs : List ℕ) → IsSorted (sort vs)
unfolding sort
sort-IsSorted [] = tt
sort-IsSorted (v ∷ vs) = insert_sorted-IsSorted v (sort vs) (sort-IsSorted vs)

abbrev with_keys : Result Quantities → Result (Quantities × List ℕ)
with_keys r = elim r [ err e ↦ err e | ok m ↦ ok (m, sort (keys m)) ]

merge_end :
    (v n : ℕ) (r : Result Quantities) (m : Quantities) (vs : List ℕ)
    → Carries v n r
    → with_keys r ≡ ok (m, vs)
    → (qty_of m v ≡ n) × IsCart m × (vs ≡ sort (keys m))
merge_end v n (err e) m vs h eq = cc
merge_end v n (ok m') m vs h eq =
    let same : m' ≡ m = cc in
    let sorted : vs ≡ sort (keys m') = cc in
    let carried = subst (λ x. (qty_of x v ≡ n) × IsCart x) same h in
    (carried.0, carried.1, sorted ∙ ap (λ x. sort (keys x)) same)

empty-Carries : (v : ℕ) → Carries v 0 (ok [])
unfolding qty_of
empty-Carries v = (refl, λ u. (omega arith, refl))

merged_line :
    (v : ℕ) (m : Quantities) (vs : List ℕ) (items : List OrderItemInput)
    → (qty_of m v ≡ requested v items) × IsCart m × (vs ≡ sort (keys m))
    → (qty_of m v ≡ requested v items)
      × (qty_of m v ≤ max_cart_qty)
      × (count v vs ≡ (if requested v items == 0 then 0 else 1))
merged_line v m vs items h = (
  h.0,
  (h.1 v).0,
  ap (count v) h.2 ∙ count-sort v (keys m) ∙ (h.1 v).1 ∙ ap (λ n. if n == 0 then 0 else 1) h.0,
)

merged_end :
    (v : ℕ) (it : OrderItemInput) (items : List OrderItemInput) (m : Quantities) (vs : List ℕ)
    → with_keys (merge_items (ok []) (it ∷ items)) ≡ ok (m, vs)
    → (qty_of m v ≡ requested v (it ∷ items)) × IsCart m × (vs ≡ sort (keys m))
merged_end v it items m vs h =
    merge_end v (requested v (it ∷ items)) (merge_items (ok []) (it ∷ items)) m vs
      (merge_items-Carries v (it ∷ items) (ok []) 0 (requested v (it ∷ items)) (omega arith)
        (empty-Carries v))
      h

-- If the lines of a request merge to the map `m` and the variants `vs`, then for every variant `m`
-- holds exactly what the lines ask for in total, at most 20, and `vs` lists in ascending order,
-- once each, the variants that are asked for.
pub merge_item_quantities-requested :
    (items : List OrderItemInput) (m : Quantities) (vs : List ℕ)
    → merge_item_quantities items ≡ ok (m, vs)
    → ((v : ℕ)
        → (qty_of m v ≡ requested v items)
          × (qty_of m v ≤ max_cart_qty)
          × (count v vs ≡ (if requested v items == 0 then 0 else 1)))
      × IsSorted vs
unfolding merge_item_quantities
merge_item_quantities-requested [] m vs h = cc
merge_item_quantities-requested (it ∷ items) m vs h = (
  λ v. merged_line v m vs (it ∷ items) (merged_end v it items m vs h),
  subst IsSorted (sym (merged_end 0 it items m vs h).2) (sort-IsSorted (keys m)),
)
