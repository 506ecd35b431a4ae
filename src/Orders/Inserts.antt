-- ===== src/Orders/Inserts.antt =====
-- The order in which the items of an order are inserted (itemsInProductOrder in
-- internal/orders/order.go).
use cozy_backend.Base.{
  ℕ, ◌<◌, ◌≤◌, ◌⊎◌, inl, inr, none, some, ltb, ◌==◌, if◌then◌else◌, Bool-cases, ◌≡◌, refl, ◌∙◌,
  Bool, true, false, List, [], ◌∷◌, arith, count_rows, if_both, All, All-map,
}
use cozy_backend.Schema.Rows.{OrderItem}
use cozy_backend.Orders.Stock.{Snapshots}
use cozy_backend.Orders.Create.{item_before, place_item, items_in_product_order}

-- The product of an item, 0 where its variant is unknown.
abbrev pub item_product : Snapshots → OrderItem → ℕ
item_product snapshots it = elim (snapshots it.variant_id) [
  | none ↦ 0
  | some snap ↦ snap.product_id
]

-- The first item is of an earlier product, or of the same product and no later variant.
abbrev pub IsAhead : Snapshots → OrderItem → OrderItem → Type 0
IsAhead snapshots x y =
    (item_product snapshots x < item_product snapshots y)
    ⊎ ((item_product snapshots x ≡ item_product snapshots y) × (x.variant_id ≤ y.variant_id))

-- Every item is ahead of all behind it.
abbrev pub IsInOrder : Snapshots → List OrderItem → Type 0
IsInOrder snapshots [] = Unit
IsInOrder snapshots (x ∷ xs) = All (IsAhead snapshots x) xs × IsInOrder snapshots xs

-- The code's own comparison finds no item that comes before an item ahead of it.
abbrev IsSettled : Snapshots → List OrderItem → Type 0
IsSettled snapshots [] = Unit
IsSettled snapshots (x ∷ xs) =
    All (λ y. item_before snapshots y x ≡ false) xs × IsSettled snapshots xs

module _ (snapshots : Snapshots) where
  count-place_item :
      (test : OrderItem → Bool) (it : OrderItem) (xs : List OrderItem)
      → count_rows test (place_item snapshots it xs) ≡ count_rows test (it ∷ xs)
  unfolding place_item
  count-place_item test it [] = refl
  count-place_item test it (x ∷ xs) =
      if_both (λ l. count_rows test l ≡ count_rows test (it ∷ x ∷ xs)) (item_before snapshots x it)
        (λ _. ground (arith, count-place_item test it xs)) (λ _. refl)

  before_trans :
      (a b c : OrderItem)
      → item_before snapshots b a ≡ false
      → item_before snapshots c b ≡ false
      → item_before snapshots c a ≡ false
  before_trans a b c h k = ground arith

  before_asym :
      (a b : OrderItem) → item_before snapshots a b ≡ true → item_before snapshots b a ≡ false
  before_asym a b h = ground arith

  place_item-All :
      (it z : OrderItem) (xs : List OrderItem)
      → item_before snapshots it z ≡ false
      → All (λ y. item_before snapshots y z ≡ false) xs
      → All (λ y. item_before snapshots y z ≡ false) (place_item snapshots it xs)
  unfolding place_item
  place_item-All it z [] h hs = (h, tt)
  place_item-All it z (x ∷ xs) h hs =
      if_both (All (λ y. item_before snapshots y z ≡ false)) (item_before snapshots x it)
        (λ _. (hs.0, place_item-All it z xs h hs.1)) (λ _. (h, hs))

  place_item-IsSettled :
      (it : OrderItem) (xs : List OrderItem)
      → IsSettled snapshots xs
      → IsSettled snapshots (place_item snapshots it xs)
  unfolding place_item
  place_item-IsSettled it [] h = (tt, tt)
  place_item-IsSettled it (x ∷ xs) h =
      if_both (IsSettled snapshots) (item_before snapshots x it)
        (λ e. (place_item-All it x xs (before_asym x it e) h.0, place_item-IsSettled it xs h.1))
        (λ e. ((e, All-map (λ y k. before_trans it x y e k) xs h.0), h))

  item_before-IsAhead :
      (x y : OrderItem) → item_before snapshots y x ≡ false → IsAhead snapshots x y
  item_before-IsAhead x y h =
      compare_pairs (item_product snapshots x) (item_product snapshots y) x.variant_id y.variant_id
        h
    where
      compare_pairs :
          (p q v w : ℕ)
          → (if q == p then ltb w v else ltb q p) ≡ false
          → (p < q) ⊎ ((p ≡ q) × (v ≤ w))
      compare_pairs p q v w e = elim (Bool-cases (q == p)) [
        | inl same ↦ inr (ground (arith, same, e), ground (arith, same, e))
        | inr apart ↦ inl (ground (arith, apart, e))
      ]

  IsSettled-IsInOrder : (xs : List OrderItem) → IsSettled snapshots xs → IsInOrder snapshots xs
  IsSettled-IsInOrder [] h = tt
  IsSettled-IsInOrder (x ∷ xs) h =
      (All-map (λ y k. item_before-IsAhead x y k) xs h.0, IsSettled-IsInOrder xs h.1)

  items_in_product_order-IsSettled :
      (items : List OrderItem) → IsSettled snapshots (items_in_product_order snapshots items)
  unfolding items_in_product_order
  items_in_product_order-IsSettled [] = tt
  items_in_product_order-IsSettled (x ∷ xs) =
      place_item-IsSettled x (items_in_product_order snapshots xs)
        (items_in_product_order-IsSettled xs)

  -- The inserts of an order are its items, each as often as before, in an order in which an item
  -- stands ahead of another only if its product has a smaller id, or it is of the same product and
  -- its variant has no greater id.
  pub items_in_product_order-IsInOrder :
      (items : List OrderItem)
      → IsInOrder snapshots (items_in_product_order snapshots items)
        × ((test : OrderItem → Bool)
            → count_rows test (items_in_product_order snapshots items) ≡ count_rows test items)
  unfolding items_in_product_order
  items_in_product_order-IsInOrder [] = (tt, λ test. refl)
  items_in_product_order-IsInOrder (x ∷ xs) =
      let rest = items_in_product_order-IsInOrder xs in
      (
        IsSettled-IsInOrder _ (items_in_product_order-IsSettled (x ∷ xs)),
        λ test.
            count-place_item test x (items_in_product_order snapshots xs)
            ∙ ground (arith, rest.1 test),
      )
