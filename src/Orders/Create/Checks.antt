-- ===== src/Orders/Create/Checks.antt =====
-- What createOrder (internal/orders/order.go) checks and looks up before it takes stock: the request, an
-- earlier order with its key, the open orders, the address and the point.
use cozy_backend.Base.{
  ℕ, ◌+◌, Bool, true, false, not, ◌&&◌, Option, none, some, List, ltb, leb, ◌==◌, if◌then◌else◌,
  first_row, count_rows, any_row,
}
use cozy_backend.Apperr.{too_many_open_orders, address_not_found, pickup_point_not_found, internal}
use cozy_backend.Dbtx.{Tx, pure, raise, lift, gets, modify, raise_if, ◌>>=◌, ◌>>◌}
use cozy_backend.Schema.Text.{Text, IdText, uuid, other}
use cozy_backend.Schema.Rows.{OrderStatus, placed, Order, DeliveryZone, Db, Env}
use cozy_backend.Schema.Statements.{Action, same_key, update_order}
use cozy_backend.Orders.Settings.{idempotency_window}
use cozy_backend.Orders.Input.{
  PlaceOrderInput, Quantities, non_blank, validate_fulfillment, merge_item_quantities,
  normalize_comment, normalize_idempotency_key, resolve_delivery_zone,
}
use cozy_backend.Orders.Stock.{point_is_active, pick_fulfillment_point}

-- What a request asks for once the checks that read no table have passed.
pub record Checked : Type 0 where
  pub customer_id : ℕ
  pub address_id : Option IdText
  pub pickup_point_id : Option IdText
  pub delivery_zone_id : Option IdText
  pub quantities : Quantities
  pub variant_ids : List ℕ
  pub comment : Option Text
  pub idem_key : Option Text
  pub clear_cart : Bool

-- The checks of createOrder before its transaction.
unfoldable pub check_input : PlaceOrderInput → Tx Db Checked
check_input in_ = do
  lift (validate_fulfillment in_.address_id in_.pickup_point_id)
  (m, vs) ← lift (merge_item_quantities in_.items)
  comment ← lift (normalize_comment in_.comment)
  key ← lift (normalize_idempotency_key in_.idempotency_key)
  pure (record {
    customer_id = in_.customer_id;
    address_id = non_blank in_.address_id;
    pickup_point_id = non_blank in_.pickup_point_id;
    delivery_zone_id = in_.delivery_zone_id;
    quantities = m;
    variant_ids = vs;
    comment = comment;
    idem_key = key;
    clear_cart = in_.clear_cart;
  })

abbrev pub is_fresh : Env → Order → Bool
is_fresh env o = ltb env.now (o.created_at + idempotency_window)

abbrev pub has_key : ℕ → Text → Order → Bool
has_key customer_id key o = o.customer_id == customer_id && same_key o.idempotency_key key

-- What findIdempotentOrder does with the row: an order older than the window loses its key.
unfoldable pub replay_of : Env → Option Order → Action (Option ℕ)
replay_of env none = pure none
replay_of env (some o) =
    if is_fresh env o
    then pure (some o.id)
    else modify (update_order o.id (λ r. record r { idempotency_key = none })) >> pure none

-- `findIdempotentOrder`
unfoldable pub find_idempotent_order : Env → ℕ → Text → Action (Option ℕ)
unfolding replay_of
find_idempotent_order env customer_id key = do
  row ← gets (λ db. first_row (has_key customer_id key) db.orders)
  replay_of env row

-- The lookup only for a request that carries a key.
unfoldable pub find_replay : Env → ℕ → Option Text → Action (Option ℕ)
unfolding find_idempotent_order
find_replay env customer_id none = pure none
find_replay env customer_id (some key) = find_idempotent_order env customer_id key

abbrev pub is_open : OrderStatus → Bool
is_open placed = true
is_open OrderStatus.confirmed = true
is_open OrderStatus.courier_assigned = true
is_open _ = false

abbrev pub open_orders : ℕ → Db → ℕ
open_orders customer_id db =
    count_rows (λ o. o.customer_id == customer_id && is_open o.status) db.orders

-- `checkOpenOrdersLimit`, which createOrder calls for a positive limit.
unfoldable pub check_open_orders_limit : ℕ → ℕ → Action Unit
check_open_orders_limit customer_id max = do
  n ← gets (open_orders customer_id)
  raise_if (ltb 0 max && leb max n) (too_many_open_orders n)

-- `verifyAddressOwnership`: the id reaches Postgres, which refuses one that is no UUID.
unfoldable pub verify_address_ownership : ℕ → IdText → Action ℕ
verify_address_ownership customer_id (other _) = raise internal
verify_address_ownership customer_id (uuid id) = do
  found ← gets (λ db. any_row (λ a. a.id == id && a.customer_id == customer_id) db.addresses)
  raise_if (not found) address_not_found
  pure id

-- The delivery part: the address and the zone, or neither for a pickup.
unfoldable pub deliver_to :
    ℕ → Option IdText → Option IdText → Action (Option ℕ × Option DeliveryZone)
unfolding verify_address_ownership
deliver_to customer_id zone_id none = pure (none, none)
deliver_to customer_id zone_id (some a) = do
  id ← verify_address_ownership customer_id a
  z ← resolve_delivery_zone zone_id
  pure (some id, z)

unfoldable pub resolve_delivery : Checked → Action (Option ℕ × Option DeliveryZone)
unfolding deliver_to
resolve_delivery c = deliver_to c.customer_id c.delivery_zone_id c.address_id

-- The point that the customer chose, which must be active.
unfoldable pub pickup_at : Option IdText → Action (Option ℕ)
pickup_at none = pure none
pickup_at (some p) = do
  (id, active) ← point_is_active p
  raise_if (not active) pickup_point_not_found
  pure (some id)

unfoldable pub resolve_pickup : Checked → Action (Option ℕ)
unfolding pickup_at
resolve_pickup c = pickup_at c.pickup_point_id

-- The chosen point, or for a delivery the one that covers the order.
unfoldable pub fulfillment_point : Option ℕ → Quantities → List ℕ → Action ℕ
fulfillment_point (some p) m vs = pure p
fulfillment_point none m vs = pick_fulfillment_point m vs
