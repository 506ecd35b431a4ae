-- ===== src/Goods/Items.antt =====
-- The items of a new order, in the order of their inserts, count what was taken for them
-- (itemsInProductOrder and the loop over the variants in createOrder).
use cozy_backend.Base.{
  ℕ, ◌+◌, ◌≡◌, ◌∙◌, refl, Option, some, List, [], ◌∷◌, arith, sum_by, All, Bool-cases, Option-cases,
  inl, inr,
}
use cozy_backend.Schema.Text.{Text}
use cozy_backend.Schema.Rows.{Order, OrderItem, Env, placed, PaymentMethod, DeliveryZone}
use cozy_backend.Orders.Settings.{Settings}
use cozy_backend.Orders.Input.{Quantities, qty_of}
use cozy_backend.Orders.Stock.{Snapshots}
use cozy_backend.Orders.Create.{
  Checked, order_item, order_items, place_item, item_before, items_in_product_order, new_order,
}
use cozy_backend.Goods.Shelf.{all_due, counts}

-- The order of the inserts changes neither the orders of the items nor what they count.
sum_by-place_item :
    (f : OrderItem → ℕ) (snapshots : Snapshots) (it : OrderItem) (items : List OrderItem)
    → sum_by f (place_item snapshots it items) ≡ f it + sum_by f items
unfolding place_item
sum_by-place_item f snapshots it [] = refl
sum_by-place_item f snapshots it (x ∷ xs) = ground (arith, sum_by-place_item f snapshots it xs)

sum_by-items_in_product_order :
    (f : OrderItem → ℕ) (snapshots : Snapshots) (items : List OrderItem)
    → sum_by f (items_in_product_order snapshots items) ≡ sum_by f items
unfolding items_in_product_order
sum_by-items_in_product_order f snapshots [] = refl
sum_by-items_in_product_order f snapshots (x ∷ xs) = omega (
  arith,
  sum_by-place_item f snapshots x (items_in_product_order snapshots xs),
  sum_by-items_in_product_order f snapshots xs,
)

All-place_item :
    (P : OrderItem → Type 0) (snapshots : Snapshots) (it : OrderItem) (items : List OrderItem)
    → P it
    → All P items
    → All P (place_item snapshots it items)
unfolding place_item
All-place_item P snapshots it [] h hs = (h, tt)
All-place_item P snapshots it (x ∷ xs) h hs = elim (Bool-cases (item_before snapshots x it)) [
  | inl before ↦ rw before (hs.0, All-place_item P snapshots it xs h hs.1)
  | inr after ↦ rw after (h, hs)
]

pub All-items_in_product_order :
    (P : OrderItem → Type 0) (snapshots : Snapshots) (items : List OrderItem)
    → All P items
    → All P (items_in_product_order snapshots items)
unfolding items_in_product_order
All-items_in_product_order P snapshots [] h = tt
All-items_in_product_order P snapshots (x ∷ xs) h =
    All-place_item P snapshots x _ h.0 (All-items_in_product_order P snapshots xs h.1)

order_item_shape :
    (id : ℕ) (snapshots : Snapshots) (m : Quantities) (w : ℕ)
    → let it = order_item id snapshots m w in
      (it.order_id ≡ id) × (it.variant_id ≡ w) × (it.quantity ≡ qty_of m w)
unfolding order_item
order_item_shape id snapshots m w = elim (Option-cases (snapshots w)) [
  | inl missing ↦ rw (missing, order_item) (refl, refl, refl)
  | inr (snap, e) ↦ rw (e, order_item) (refl, refl, refl)
]

pub order_items_owner :
    (id : ℕ) (snapshots : Snapshots) (m : Quantities) (vs : List ℕ)
    → All (λ it. it.order_id ≡ id) (order_items id snapshots m vs)
unfolding order_items
order_items_owner id snapshots m [] = tt
order_items_owner id snapshots m (w ∷ ws) =
    ((order_item_shape id snapshots m w).0, order_items_owner id snapshots m ws)

-- The items of an order at a point count what was taken from its shelf.
counts-order_items :
    (v point p id : ℕ) (o : Order) (snapshots : Snapshots) (m : Quantities) (vs : List ℕ)
    → o.status ≡ placed
    → o.point_id ≡ some p
    → sum_by (counts v point o) (order_items id snapshots m vs) ≡ all_due v point p m vs
unfolding order_items
counts-order_items v point p id o snapshots m [] hs hp = refl
counts-order_items v point p id o snapshots m (w ∷ ws) hs hp =
    let shape = order_item_shape id snapshots m w in
    ground (arith, shape, counts-order_items v point p id o snapshots m ws hs hp)

-- The new order holds at its point what its lines ask for.
pub counts-new_order :
    (v point p : ℕ) (env : Env) (st : Settings) (method : PaymentMethod) (c : Checked)
    (address : Option ℕ) (z : Option DeliveryZone) (snapshots : Snapshots) (number : Text)
    (items : List OrderItem)
    → sum_by (counts v point (new_order env st method c address z p number items)) (
        items_in_product_order snapshots
          (order_items env.order_id snapshots c.quantities c.variant_ids))
      ≡ all_due v point p c.quantities c.variant_ids
unfolding new_order
counts-new_order v point p env st method c address z snapshots number items =
    sum_by-items_in_product_order _ snapshots _
    ∙ counts-order_items v point p env.order_id (new_order env st method c address z p number items)
        snapshots c.quantities c.variant_ids refl refl
