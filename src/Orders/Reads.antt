-- ===== src/Orders/Reads.antt =====
-- The reading parts of the order code leave the tables alone.
use cozy_backend.Base.{ℕ, Option, none, some, List, [], ◌∷◌}
use cozy_backend.Dbtx.Always.{Always, always_rules}
use cozy_backend.Dbtx.Keeps.{Keeps, bind-Keeps, keeps_rules}
use cozy_backend.Schema.Text.{IdText, uuid, other}
use cozy_backend.Schema.Rows.{Db, Env}
use cozy_backend.Orders.Input.{Quantities, PlaceOrderInput, resolve_zone, resolve_delivery_zone}
use cozy_backend.Orders.Stock.{
  VariantSnapshot, Snapshots, check_snapshot, check_snapshots, point_is_active,
  pick_fulfillment_point,
}
use cozy_backend.Orders.Create.{
  Checked, check_input, check_open_orders_limit, verify_address_ownership, deliver_to,
  resolve_delivery, pickup_at, resolve_pickup, fulfillment_point, next_order_number,
}

module _ (P : Db → Type 0) where
  pub check_input-Always : (in_ : PlaceOrderInput) → Always P (check_input in_)
  unfolding check_input
  check_input-Always in_ = search always_rules depth 12

  pub check_open_orders_limit-Keeps :
      (customer_id max : ℕ) → Keeps P (check_open_orders_limit customer_id max)
  unfolding check_open_orders_limit
  check_open_orders_limit-Keeps customer_id max = search keeps_rules

  resolve_zone-Keeps : (id : Option IdText) → Keeps P (resolve_zone id)
  unfolding resolve_zone
  resolve_zone-Keeps none = search keeps_rules
  resolve_zone-Keeps (some (uuid id)) = search keeps_rules
  resolve_zone-Keeps (some (other t)) = search keeps_rules

  verify_address_ownership-Keeps :
      (customer_id : ℕ) (id : IdText) → Keeps P (verify_address_ownership customer_id id)
  unfolding verify_address_ownership
  verify_address_ownership-Keeps customer_id (uuid id) = search keeps_rules
  verify_address_ownership-Keeps customer_id (other t) = search keeps_rules

  deliver_to-Keeps :
      (customer_id : ℕ) (zone_id : Option IdText) (a : Option IdText)
      → Keeps P (deliver_to customer_id zone_id a)
  unfolding deliver_to resolve_delivery_zone
  deliver_to-Keeps customer_id zone_id none = search keeps_rules
  deliver_to-Keeps customer_id zone_id (some a) =
      search (keeps_rules, verify_address_ownership-Keeps, resolve_zone-Keeps)

  pub resolve_delivery-Keeps : (c : Checked) → Keeps P (resolve_delivery c)
  unfolding resolve_delivery
  resolve_delivery-Keeps c = deliver_to-Keeps _ _ _

  point_is_active-Keeps : (id : IdText) → Keeps P (point_is_active id)
  unfolding point_is_active
  point_is_active-Keeps (uuid id) = search keeps_rules
  point_is_active-Keeps (other t) = search keeps_rules

  pickup_at-Keeps : (id : Option IdText) → Keeps P (pickup_at id)
  unfolding pickup_at
  pickup_at-Keeps none = search keeps_rules
  pickup_at-Keeps (some p) = search (keeps_rules, point_is_active-Keeps)

  pub resolve_pickup-Keeps : (c : Checked) → Keeps P (resolve_pickup c)
  unfolding resolve_pickup
  resolve_pickup-Keeps c = pickup_at-Keeps _

  check_snapshot-Keeps : (s : Option VariantSnapshot) → Keeps P (check_snapshot s)
  unfolding check_snapshot
  check_snapshot-Keeps none = search keeps_rules
  check_snapshot-Keeps (some s) = search keeps_rules

  pub check_snapshots-Keeps :
      (snapshots : Snapshots) (ids : List ℕ) → Keeps P (check_snapshots snapshots ids)
  unfolding check_snapshots
  check_snapshots-Keeps snapshots [] = search keeps_rules
  check_snapshots-Keeps snapshots (id ∷ ids) =
      bind-Keeps P _ _ (check_snapshot-Keeps _) (λ _. check_snapshots-Keeps snapshots ids)

  pub fulfillment_point-Keeps :
      (p : Option ℕ) (m : Quantities) (vs : List ℕ) → Keeps P (fulfillment_point p m vs)
  unfolding fulfillment_point pick_fulfillment_point
  fulfillment_point-Keeps none m vs = search keeps_rules
  fulfillment_point-Keeps (some p) m vs = search keeps_rules

  pub next_order_number-Keeps : (env : Env) → Keeps P (next_order_number env)
  unfolding next_order_number
  next_order_number-Keeps env = search keeps_rules
