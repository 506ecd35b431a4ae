-- ===== src/Orders/Tests.antt =====
-- The theorems on orders at the requests of the small shop.
use cozy_backend.Base.{
  ℕ, ◌+◌, ◌≤◌, ◌≡◌, refl, Bool, true, some, List, [], ◌∷◌, arith, length, count_rows, All,
  if◌then◌else◌, ◌==◌, sum_by,
}
use cozy_backend.Apperr.{ok, err, is_ok, internal}
use cozy_backend.Dbtx.Ensures.{Post}
use cozy_backend.Dbtx.Rollback.{RollsBack}
use cozy_backend.Schema.Text.{
  Text, codes, uuid, is_space, trim_left, trim_right, trim_right_cons, trim_space,
}
use cozy_backend.Schema.Rows.{
  placed, confirmed, courier_assigned, delivered, staff, owner, Actor, OrderItem, Db,
}
use cozy_backend.Orders.Settings.{
  default_settings, max_cart_qty, max_comment_len, max_idempotency_key_len,
}
use cozy_backend.Orders.Status.{valid_status_transition}
use cozy_backend.Orders.Input.{
  OrderItemInput, pos, Quantities, qty_of, add_qty, check_item, merge_item, merge_items,
  insert_sorted, sort, merge_item_quantities, normalize_comment, normalize_idempotency_key,
  is_printable,
}
use cozy_backend.Orders.Stock.{
  point_covers_stock, pick_fulfillment_point, lock_and_decrement_stock, load_variant_snapshots,
  restock_order_tx,
}
use cozy_backend.Orders.Create.{items_in_product_order, place_order}
use cozy_backend.Orders.Create.Sequence.{format_order_number-injective}
use cozy_backend.Orders.Lifecycle.{admin_update_status, cancel_by_customer, reply_with_items}
use cozy_backend.Orders.Attempts.{create_online_order, prepare_retry_payment}
use cozy_backend.Orders.Merge.{requested, IsSorted, merge_item_quantities-requested}
use cozy_backend.Orders.Cover.{Picks, pick_fulfillment_point-Picks, lock_and_decrement_stock-covers}
use cozy_backend.Orders.Inserts.{IsInOrder, items_in_product_order-IsInOrder}
use cozy_backend.Schema.Trim.{IsTrimmed}
use cozy_backend.Orders.Graph.{valid_status_transition-short}
use cozy_backend.Orders.Texts.{normalize_comment-stable, normalize_idempotency_key-printable}
use cozy_backend.Orders.Failed.{IsWhole, failed_request-unchanged}
use cozy_backend.Orders.Guards.{
  StaffChanged, admin_update_status-StaffChanged, CustomerCancelled,
  cancel_by_customer-CustomerCancelled,
}
use cozy_backend.Goods.Quantities.{count}
use cozy_backend.Goods.Return.{units, restock_order_tx-stock}
use cozy_backend.Schema.Statements.{quantity_of}
use cozy_backend.System.Shop.{shop, at_time, three_pieces}

-- Two lines of the same variant and one of another.
abbrev three_lines : List OrderItemInput
three_lines =
    record { variant_id = uuid 4; quantity = pos 2 }
    ∷ record { variant_id = uuid 1; quantity = pos 3 }
    ∷ record { variant_id = uuid 4; quantity = pos 5 }
    ∷ []

abbrev merged_lines : Quantities
merged_lines = (4, 7) ∷ (1, 3) ∷ []

three_lines_merge : merge_item_quantities three_lines ≡ ok (merged_lines, 1 ∷ 4 ∷ [])
unfolding merge_item_quantities merge_items merge_item check_item qty_of add_qty sort insert_sorted
three_lines_merge = refl

merge_item_quantities-requested_example :
    ((v : ℕ)
      → (qty_of merged_lines v ≡ requested v three_lines)
        × (qty_of merged_lines v ≤ max_cart_qty)
        × (count v (1 ∷ 4 ∷ []) ≡ (if requested v three_lines == 0 then 0 else 1)))
    × IsSorted (1 ∷ 4 ∷ [])
merge_item_quantities-requested_example =
    merge_item_quantities-requested three_lines merged_lines (1 ∷ 4 ∷ []) three_lines_merge

abbrev three_of_one : Quantities
three_of_one = (1, 3) ∷ []

pick_fulfillment_point-Picks_example :
    Picks three_of_one (1 ∷ []) shop (pick_fulfillment_point three_of_one (1 ∷ []) shop)
pick_fulfillment_point-Picks_example = pick_fulfillment_point-Picks three_of_one (1 ∷ []) shop

listed_once : (v : ℕ) → count v (1 ∷ []) ≤ 1
listed_once v = ground arith

lock_and_decrement_stock-covers_example :
    is_ok (lock_and_decrement_stock 2 three_of_one (1 ∷ []) shop).0
    ≡ point_covers_stock shop.stock 2 three_of_one (1 ∷ [])
lock_and_decrement_stock-covers_example =
    lock_and_decrement_stock-covers 2 three_of_one (1 ∷ []) shop listed_once

format_order_number-injective_example : ◌≡◌ {A = ℕ} (3 + 4) 7
format_order_number-injective_example =
    format_order_number-injective (codes "20250101") (3 + 4) 7 (omega arith) (omega arith) refl

abbrev two_items : List OrderItem
two_items =
    record {
      order_id = 1;
      variant_id = 4;
      product_name_snapshot = [];
      size_snapshot = [];
      color_snapshot = [];
      quantity = 7;
      price = 100;
    }
    ∷ record {
      order_id = 1;
      variant_id = 1;
      product_name_snapshot = [];
      size_snapshot = [];
      color_snapshot = [];
      quantity = 3;
      price = 250000;
    }
    ∷ []

items_in_product_order-IsInOrder_example :
    IsInOrder
      (load_variant_snapshots shop)
      (items_in_product_order (load_variant_snapshots shop) two_items)
    × ((test : OrderItem → Bool)
        → count_rows test (items_in_product_order (load_variant_snapshots shop) two_items)
          ≡ count_rows test two_items)
items_in_product_order-IsInOrder_example =
    items_in_product_order-IsInOrder (load_variant_snapshots shop) two_items

valid_status_transition-short_example : length (confirmed ∷ courier_assigned ∷ delivered ∷ []) ≤ 3
valid_status_transition-short_example =
    valid_status_transition-short placed (confirmed ∷ courier_assigned ∷ delivered ∷ [])
      (unfold valid_status_transition in refl)

abbrev call_me : Text
call_me = codes "call me"

comment_kept : normalize_comment (codes "  call me ") ≡ ok (some call_me)
unfolding normalize_comment trim_space trim_left trim_right trim_right_cons is_space
comment_kept = refl

normalize_comment-stable_example :
    (length call_me ≤ max_comment_len)
    × IsTrimmed (codes "  call me ") call_me
    × (normalize_comment call_me ≡ ok (some call_me))
normalize_comment-stable_example =
    normalize_comment-stable (codes "  call me ") call_me comment_kept

key_kept : normalize_idempotency_key (codes " k1") ≡ ok (some (codes "k1"))
unfolding normalize_idempotency_key trim_space trim_left trim_right trim_right_cons is_space
key_kept = refl

normalize_idempotency_key-printable_example :
    (1 ≤ length (codes "k1"))
    × (length (codes "k1") ≤ max_idempotency_key_len)
    × All (λ r. is_printable r ≡ true) (codes "k1")
normalize_idempotency_key-printable_example =
    normalize_idempotency_key-printable (codes " k1") (codes "k1") key_kept

abbrev the_owner : Actor
the_owner = record { type = staff; staff_id = some 1; role = some owner }

failed_request-unchanged_example :
    RollsBack shop (place_order (at_time 100 10) default_settings three_pieces shop)
    × RollsBack shop
        (create_online_order (at_time 100 10) default_settings (codes "mock") three_pieces shop)
    × RollsBack shop (prepare_retry_payment (at_time 100 10) (codes "mock") 7 (uuid 9) shop)
    × IsWhole shop
        (err internal)
        (admin_update_status (at_time 100 10) (some the_owner) (uuid 9) confirmed shop)
        (reply_with_items
          (err internal)
          (admin_update_status (at_time 100 10) (some the_owner) (uuid 9) confirmed shop))
    × IsWhole shop
        (err internal)
        (cancel_by_customer (at_time 100 10) 7 (uuid 9) shop)
        (reply_with_items (err internal) (cancel_by_customer (at_time 100 10) 7 (uuid 9) shop))
failed_request-unchanged_example =
    failed_request-unchanged (at_time 100 10) default_settings (codes "mock") three_pieces
      (some the_owner) 7 (uuid 9) confirmed (err internal) shop

-- The shop with the order placed.
abbrev busy_shop : Db
busy_shop = (place_order (at_time 100 10) default_settings three_pieces shop).1

admin_update_status-StaffChanged_example :
    Post
      (StaffChanged (at_time 200 11) the_owner (uuid 10) confirmed busy_shop)
      (admin_update_status (at_time 200 11) (some the_owner) (uuid 10) confirmed busy_shop)
admin_update_status-StaffChanged_example =
    admin_update_status-StaffChanged (at_time 200 11) the_owner (uuid 10) confirmed busy_shop

cancel_by_customer-CustomerCancelled_example :
    Post
      (λ change. CustomerCancelled (at_time 200 11) 7 (uuid 10) busy_shop change.order)
      (cancel_by_customer (at_time 200 11) 7 (uuid 10) busy_shop)
cancel_by_customer-CustomerCancelled_example =
    cancel_by_customer-CustomerCancelled (at_time 200 11) 7 (uuid 10) busy_shop

-- The shop with the items of an order.
abbrev packed_shop : Db
packed_shop = record shop { items = two_items }

restock_order_tx-stock_example :
    quantity_of ((restock_order_tx 1 2 packed_shop).stock 1 2)
    ≡ quantity_of (packed_shop.stock 1 2)
      + (if 2 == 2 then sum_by (units 1 1) packed_shop.items else 0)
restock_order_tx-stock_example = restock_order_tx-stock 1 1 2 2 packed_shop
