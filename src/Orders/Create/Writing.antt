-- ===== src/Orders/Create/Writing.antt =====
-- The rows that createOrder (internal/orders/order.go) writes.
use cozy_backend.Base.{
  ℕ, ◌+◌, ◌*◌, Bool, true, false, not, ◌&&◌, Option, none, some, List, [], ◌∷◌, ltb, ◌==◌,
  if◌then◌else◌, is_some, count_rows, any_row, where_rows, sum_by,
}
use cozy_backend.Dbtx.{pure, gets, modify, ◌>>=◌, ◌>>◌}
use cozy_backend.Schema.Text.{Text, has_prefix}
use cozy_backend.Schema.Rows.{
  placed, PaymentMethod, online_card, cash_on_delivery, PaymentStatus, pending, Order, OrderItem,
  Actor, customer, DeliveryZone, Env,
}
use cozy_backend.Schema.Statements.{Action, insert_item}
use cozy_backend.Orders.Settings.{Settings, delivery_fee}
use cozy_backend.Orders.Input.{Quantities, qty_of}
use cozy_backend.Orders.Stock.{Snapshots}
use cozy_backend.Orders.Create.Checks.{Checked}
use cozy_backend.Orders.Create.Number.{order_number_prefix, format_order_number}

-- `nextOrderNumber`
unfoldable pub next_order_number : Env → Action Text
next_order_number env = do
  count ←
      gets (λ db.
        count_rows (λ o. has_prefix (order_number_prefix env.today) o.order_number) db.orders)
  pure (format_order_number env.today (count + 1))

-- One line of the order, from the snapshot of its variant.
unfoldable pub order_item : ℕ → Snapshots → Quantities → ℕ → OrderItem
order_item order_id snapshots m v = elim (snapshots v) [
  | none ↦ record {
    order_id = order_id;
    variant_id = v;
    product_name_snapshot = [];
    size_snapshot = [];
    color_snapshot = [];
    quantity = qty_of m v;
    price = 0;
  }
  | some snap ↦ record {
    order_id = order_id;
    variant_id = v;
    product_name_snapshot = snap.product_name;
    size_snapshot = snap.size;
    color_snapshot = snap.color;
    quantity = qty_of m v;
    price = snap.price;
  }
]

unfoldable pub order_items : ℕ → Snapshots → Quantities → List ℕ → List OrderItem
unfolding order_item
order_items order_id snapshots m [] = []
order_items order_id snapshots m (v ∷ vs) =
    order_item order_id snapshots m v ∷ order_items order_id snapshots m vs

-- `itemsTotal`
abbrev pub items_total : List OrderItem → ℕ
items_total = sum_by (λ it. it.price * it.quantity)

abbrev product_of : Snapshots → ℕ → ℕ
product_of snapshots v = elim (snapshots v) [ none ↦ 0 | some snap ↦ snap.product_id ]

-- The order of itemsInProductOrder: by product, then by variant.
abbrev pub item_before : Snapshots → OrderItem → OrderItem → Bool
item_before snapshots a b =
    let pa = product_of snapshots a.variant_id in
    let pb = product_of snapshots b.variant_id in
    if pa == pb then ltb a.variant_id b.variant_id else ltb pa pb

unfoldable pub place_item : Snapshots → OrderItem → List OrderItem → List OrderItem
place_item snapshots it [] = it ∷ []
place_item snapshots it (x ∷ xs) =
    let rest = place_item snapshots it xs in
    if item_before snapshots x it then x ∷ rest else it ∷ x ∷ xs

-- `itemsInProductOrder`: the items in the order of their inserts.
unfoldable pub items_in_product_order : Snapshots → List OrderItem → List OrderItem
unfolding place_item
items_in_product_order snapshots [] = []
items_in_product_order snapshots (x ∷ xs) =
    place_item snapshots x (items_in_product_order snapshots xs)

unfoldable pub insert_items : List OrderItem → Action Unit
insert_items [] = pure tt
insert_items (it ∷ items) = insert_item it >> insert_items items

abbrev in_ids : ℕ → List ℕ → Bool
in_ids v vs = any_row (λ w. w == v) vs

-- `clearCartLinesTx`
unfoldable pub clear_cart_lines_tx : Bool → ℕ → List ℕ → Action Unit
clear_cart_lines_tx false customer_id vs = pure tt
clear_cart_lines_tx true customer_id vs = modify λ db. record db {
  cart = where_rows (λ l. not (l.customer_id == customer_id && in_ids l.variant_id vs)) db.cart;
}

abbrev pub zone_id_of : Option DeliveryZone → Option ℕ
zone_id_of none = none
zone_id_of (some z) = some z.id

abbrev pub initial_payment : PaymentMethod → Option PaymentStatus
initial_payment online_card = some pending
initial_payment cash_on_delivery = none

-- The new row of `orders`.
unfoldable pub new_order :
    Env
    → Settings
    → PaymentMethod
    → Checked
    → Option ℕ
    → Option DeliveryZone
    → ℕ
    → Text
    → List OrderItem
    → Order
new_order env st method c address zone point number items =
    let fee = delivery_fee st (is_some address) zone (items_total items) in
    record {
      id = env.order_id;
      order_number = number;
      customer_id = c.customer_id;
      address_id = address;
      point_id = some point;
      status = placed;
      payment_method = method;
      payment_status = initial_payment method;
      total_amount = items_total items + fee;
      delivery_fee = fee;
      refund_required = false;
      comment = c.comment;
      idempotency_key = c.idem_key;
      delivery_zone_id = zone_id_of zone;
      created_at = env.now;
      updated_at = env.now;
    }

abbrev pub customer_actor : Actor
customer_actor = record { type = customer; staff_id = none; role = none }
