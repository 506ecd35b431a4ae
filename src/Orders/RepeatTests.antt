-- ===== src/Orders/RepeatTests.antt =====
-- A request of the small shop: it is placed, sent again, confirmed or cancelled.
use cozy_backend.Base.{◌<◌, ◌≡◌, refl, none, some, [], ◌∷◌, true, false, arith}
use cozy_backend.Apperr.{ok}
use cozy_backend.Dbtx.{with_tx, ◌>>=◌}
use cozy_backend.Schema.Text.{
  codes, uuid, is_space, trim_left, trim_right, trim_right_cons, trim_space, has_prefix, same_text,
}
use cozy_backend.Schema.Rows.{Order, placed, cash_on_delivery, Db}
use cozy_backend.Schema.Statements.{
  put_stock, take_stock, insert_order, order_refused, insert_item, record_status_tx,
}
use cozy_backend.Orders.Settings.{default_settings, delivery_fee, fee_for}
use cozy_backend.Orders.Input.{
  validate_fulfillment, qty_of, add_qty, check_item, merge_item, merge_items, insert_sorted, sort,
  merge_item_quantities, normalize_comment, normalize_idempotency_key, resolve_zone,
  resolve_delivery_zone,
}
use cozy_backend.Orders.Stock.{
  load_variant_snapshots, check_snapshot, check_snapshots, point_covers_stock, first_cover,
  pick_fulfillment_point, lock_and_decrement_one, lock_and_decrement_stock,
}
use cozy_backend.Orders.Create.Number.{digits_from, pad, format_order_number}
use cozy_backend.Orders.Create.{
  Checked, check_input, replay_of, find_idempotent_order, find_replay, check_open_orders_limit,
  verify_address_ownership, deliver_to, resolve_delivery, pickup_at, resolve_pickup,
  fulfillment_point, next_order_number, order_item, order_items, place_item, items_in_product_order,
  insert_items, clear_cart_lines_tx, new_order, write_order, create_new, continue_order,
  create_order_tx, Reply, reply_to, create_order, place_order, order_created, open_orders,
}
use cozy_backend.Orders.Repeat.{place_order-again}
use cozy_backend.Apperr.{is_ok}
use cozy_backend.Schema.Rows.{Actor, staff, owner, confirmed}
use cozy_backend.Orders.Status.{
  valid_status_transition, payment_allows_confirm, customer_can_cancel,
}
use cozy_backend.Orders.Lifecycle.{admin_update_status, cancel_by_customer}
use cozy_backend.Orders.Allowed.{admin_update_status_succeeds, cancel_by_customer_succeeds}
use cozy_backend.Orders.Limit.{place_order_below_cap}
use cozy_backend.System.Shop.{shop, at_time, three_pieces}

abbrev checked_pieces : Checked
checked_pieces = record {
  customer_id = 7;
  address_id = some (uuid 3);
  pickup_point_id = none;
  delivery_zone_id = none;
  quantities = (1, 3) ∷ [];
  variant_ids = 1 ∷ [];
  comment = none;
  idem_key = some (codes "k1");
  clear_cart = true;
}

pieces_checked : (check_input three_pieces shop).0 ≡ ok checked_pieces
unfolding check_input validate_fulfillment merge_item_quantities merge_items merge_item check_item
    qty_of add_qty sort insert_sorted normalize_comment normalize_idempotency_key trim_space
    trim_left trim_right trim_right_cons is_space ◌>>=◌
pieces_checked = refl

abbrev first_order : Order
first_order = record {
  id = 10;
  order_number = codes "COZY-20250101-001";
  customer_id = 7;
  address_id = some 3;
  point_id = some 2;
  status = placed;
  payment_method = cash_on_delivery;
  payment_status = none;
  total_amount = 770000;
  delivery_fee = 20000;
  refund_required = false;
  comment = none;
  idempotency_key = some (codes "k1");
  delivery_zone_id = none;
  created_at = 100;
  updated_at = 100;
}

abbrev first_reply : Reply
first_reply = record { order = first_order; is_new = true; notices = order_created 10 ∷ [] }

abbrev shop_after : Db
shop_after = (place_order (at_time 100 10) default_settings three_pieces shop).1

first_placed :
    place_order (at_time 100 10) default_settings three_pieces shop ≡ (ok first_reply, shop_after)
unfolding place_order create_order check_input validate_fulfillment merge_item_quantities
    merge_items merge_item check_item qty_of add_qty sort insert_sorted normalize_comment
    normalize_idempotency_key trim_space trim_left trim_right trim_right_cons is_space ◌>>=◌ with_tx
    create_order_tx continue_order find_replay find_idempotent_order replay_of create_new
    check_open_orders_limit resolve_delivery deliver_to verify_address_ownership
    resolve_delivery_zone resolve_zone resolve_pickup pickup_at load_variant_snapshots
    check_snapshots check_snapshot fulfillment_point pick_fulfillment_point first_cover
    point_covers_stock write_order lock_and_decrement_stock lock_and_decrement_one take_stock
    put_stock next_order_number has_prefix format_order_number digits_from pad order_items
    order_item new_order delivery_fee fee_for insert_order order_refused insert_items insert_item
    items_in_product_order place_item record_status_tx clear_cart_lines_tx reply_to same_text
first_placed = refl

place_order-again_example :
    place_order (at_time 200 11) default_settings three_pieces shop_after
    ≡ (ok (record { order = first_order; is_new = false; notices = [] }), shop_after)
place_order-again_example =
    place_order-again (at_time 100 10) (at_time 200 11) default_settings three_pieces shop
      shop_after checked_pieces (codes "k1") first_reply pieces_checked refl first_placed refl
      (omega arith)

place_order_below_cap_example : open_orders 7 shop < 5
place_order_below_cap_example =
    place_order_below_cap (at_time 100 10) default_settings three_pieces shop shop_after
      checked_pieces first_reply pieces_checked first_placed refl (omega arith)

-- The shop with that order alone.
abbrev waiting_shop : Db
waiting_shop = record shop { orders = first_order ∷ [] }

abbrev the_owner : Actor
the_owner = record { type = staff; staff_id = some 1; role = some owner }

admin_update_status_succeeds_example :
    is_ok (admin_update_status (at_time 200 11) (some the_owner) (uuid 10) confirmed waiting_shop).0
    ≡ true
admin_update_status_succeeds_example =
    admin_update_status_succeeds (at_time 200 11) the_owner (uuid 10) confirmed waiting_shop
      first_order 2 refl refl (unfold valid_status_transition in refl) refl
      (unfold payment_allows_confirm in refl)

cancel_by_customer_succeeds_example :
    is_ok (cancel_by_customer (at_time 200 11) 7 (uuid 10) waiting_shop).0 ≡ true
cancel_by_customer_succeeds_example =
    cancel_by_customer_succeeds (at_time 200 11) 7 (uuid 10) waiting_shop first_order 2 refl refl
      (unfold customer_can_cancel in refl)
