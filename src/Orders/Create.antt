-- ===== src/Orders/Create.antt =====
-- Placing an order: PlaceOrder and the body of createOrder (internal/orders/order.go), in the
-- order of its statements. Each group of statements is a block of its own.
mod Checks
mod Writing
pub mod Number
pub mod Sequence
unfoldable pub use Checks.*
unfoldable pub use Writing.*
use cozy_backend.Base.{
  ℕ, suc, ◌+◌, ◌*◌, ◌<◌, Bool, true, false, not, ◌&&◌, ◌||◌, Option, none, some, List, [], ◌∷◌, ltb,
  leb, ◌==◌, if◌then◌else◌, is_some, first_row, count_rows, any_row, where_rows, sum_by,
}
use cozy_backend.Apperr.{
  Error, Result, ok, err, too_many_open_orders, address_not_found, pickup_point_not_found,
  order_not_found, internal,
}
use cozy_backend.Dbtx.{
  Tx, pure, raise, lift, gets, or_raise, with_tx, modify, raise_if, ◌>>=◌, ◌>>◌,
}
use cozy_backend.Schema.Text.{Text, IdText, uuid, other, same_text, has_prefix}
use cozy_backend.Schema.Rows.{
  OrderStatus, placed, PaymentMethod, online_card, cash_on_delivery, PaymentStatus, pending, Order,
  OrderItem, Actor, customer, DeliveryZone, CartItem, Db, Env, is_online,
}
use cozy_backend.Schema.Statements.{
  Action, same_key, update_order, insert_order, insert_item, record_status_tx,
}
use cozy_backend.Orders.Settings.{Settings, idempotency_window, delivery_fee}
use cozy_backend.Orders.Input.{
  PlaceOrderInput, Quantities, qty_of, non_blank, validate_fulfillment, merge_item_quantities,
  normalize_comment, normalize_idempotency_key, resolve_delivery_zone,
}
use cozy_backend.Orders.Stock.{
  VariantSnapshot, Snapshots, load_variant_snapshots, check_snapshots, point_is_active,
  pick_fulfillment_point, lock_and_decrement_stock,
}

-- From the stock under lock to the last insert: what the transaction writes.
unfoldable pub write_order :
    Env
    → Settings
    → PaymentMethod
    → Checked
    → Option ℕ
    → Option DeliveryZone
    → ℕ
    → Snapshots
    → Action Order
unfolding order_items
write_order env st method c address zone point snapshots = do
  lock_and_decrement_stock point c.quantities c.variant_ids
  number ← next_order_number env
  let items = order_items env.order_id snapshots c.quantities c.variant_ids
  let o = new_order env st method c address zone point number items
  insert_order o
  insert_items (items_in_product_order snapshots items)
  record_status_tx env env.order_id none placed customer_actor none
  clear_cart_lines_tx c.clear_cart c.customer_id c.variant_ids
  pure o

-- The part of the transaction for an order that is no replay.
unfoldable pub create_new : Env → Settings → PaymentMethod → Checked → Action Order
create_new env st method c = do
  check_open_orders_limit c.customer_id st.max_open_orders
  (address, zone) ← resolve_delivery c
  pickup ← resolve_pickup c
  snapshots ← gets load_variant_snapshots
  check_snapshots snapshots c.variant_ids
  point ← fulfillment_point pickup c.quantities c.variant_ids
  write_order env st method c address zone point snapshots

-- What the transaction of createOrder ends with: the id of an earlier order, or a new one.
pub data Placed : Type 0 where
  replay : ℕ → Placed
  created : Order → Placed

-- The transaction; `after_insert` is its last step.
unfoldable pub continue_order :
    Env → Settings → PaymentMethod → (Order → Action Unit) → Checked → Option ℕ → Action Placed
continue_order env st method after_insert c (some id) = pure (replay id)
continue_order env st method after_insert c none = do
  o ← create_new env st method c
  after_insert o
  pure (created o)

unfoldable pub create_order_tx :
    Env → Settings → PaymentMethod → (Order → Action Unit) → Checked → Action Placed
unfolding continue_order
create_order_tx env st method after_insert c = do
  replayed ← find_replay env c.customer_id c.idem_key
  continue_order env st method after_insert c replayed

-- `GetOrder`, for an order of the customer by its id.
unfoldable pub get_order : ℕ → ℕ → Action Order
get_order customer_id id = do
  row ← gets (λ db. first_row (λ o. o.customer_id == customer_id && o.id == id) db.orders)
  or_raise order_not_found row

-- What the notifier is told after the commit.
pub data Notice : Type 0 where
  order_created cancelled_by_customer : ℕ → Notice
  status_changed : ℕ → OrderStatus → Notice

-- The order, whether it is new, and the notices.
pub record Reply : Type 0 where
  pub order : Order
  pub is_new : Bool
  pub notices : List Notice

-- Staff hear about a cash order at once, about an online order when it is paid.
abbrev pub created_notices : PaymentMethod → Order → List Notice
created_notices online_card o = []
created_notices cash_on_delivery o = order_created o.id ∷ []

unfoldable pub reply_to : PaymentMethod → ℕ → Placed → Action Reply
unfolding get_order
reply_to method customer_id (replay id) = do
  o ← get_order customer_id id
  pure (record { order = o; is_new = false; notices = [] })
reply_to method customer_id (created o) =
    pure (record { order = o; is_new = true; notices = created_notices method o })

-- `createOrder`
unfoldable pub create_order :
    Env → Settings → PaymentMethod → (Order → Action Unit) → PlaceOrderInput → Action Reply
create_order env st method after_insert in_ = do
  c ← check_input in_
  done ← with_tx (create_order_tx env st method after_insert c)
  reply_to method c.customer_id done

-- `PlaceOrder`
unfoldable pub place_order : Env → Settings → PlaceOrderInput → Action Reply
unfolding create_order
place_order env st = create_order env st cash_on_delivery (λ o. pure tt)
