-- ===== src/Goods/Booking.antt =====
-- Placing an order moves goods from the shelf to the order (createOrder in
-- internal/orders/order.go).
use cozy_backend.Base.{ℕ, ◌+◌, ◌≡◌, Bool, true, false, Option, some, List, arith}
use cozy_backend.Dbtx.Ensures.{Ensures, Ensures-pure, Ensures-modify, Ensures-bind, Ensures-weaken}
use cozy_backend.Schema.Text.{Text}
use cozy_backend.Schema.Rows.{Order, OrderItem, Env, PaymentMethod, DeliveryZone}
use cozy_backend.Schema.Statements.{find_order}
use cozy_backend.Orders.Settings.{Settings}
use cozy_backend.Orders.Stock.{Snapshots}
use cozy_backend.Orders.Create.{
  Checked, order_items, items_in_product_order, insert_items, new_order, write_order,
  clear_cart_lines_tx,
}
use cozy_backend.Goods.{goods, Owes}
use cozy_backend.Goods.Shelf.{
  record_status_tx-Owes, lock_and_decrement_stock-Owes, insert_order-Post, insert_items-Owes,
  all_due,
}
use cozy_backend.Goods.Items.{All-items_in_product_order, order_items_owner, counts-new_order}
use cozy_backend.Orders.Reads.{next_order_number-Keeps}

clear_cart-Owes :
    (v point n d : ℕ) (clear : Bool) (customer_id : ℕ) (vs : List ℕ)
    → Ensures (Owes v point n d) (clear_cart_lines_tx clear customer_id vs) (λ _. Owes v point n d)
unfolding clear_cart_lines_tx goods
clear_cart-Owes v point n d false customer_id vs = Ensures-pure _ tt (λ s h. h)
clear_cart-Owes v point n d true customer_id vs = Ensures-modify _ _ (λ s h. h)

module _ (v point n : ℕ) where
  -- What the transaction writes moves goods and loses none.
  pub write_order-Owes :
      (env : Env) (st : Settings) (method : PaymentMethod) (c : Checked) (address : Option ℕ)
      (z : Option DeliveryZone) (p : ℕ) (snapshots : Snapshots)
      → Ensures
          (Owes v point n 0)
          (write_order env st method c address z p snapshots)
          (λ _. Owes v point n 0)
  unfolding write_order new_order
  write_order-Owes env st method c address z p snapshots =
      Ensures-bind _ _ _ _ (lock_and_decrement_stock-Owes v point n 0 p c.quantities c.variant_ids)
        λ _. Ensures-bind _ _ _ _ (next_order_number-Keeps _ env) λ number.
          Ensures-bind _ _ _ _ (record { at = insert_order-Post v point n _ (order_with number) })
            λ _. Ensures-bind _ _ _ _ (insert_order_items-Owes number) λ _.
              Ensures-bind _ _ _ _ (record_status_tx-Owes v point n 0 env _ _ _ _ _) λ _.
                Ensures-bind _ _ _ _ (clear_cart-Owes v point n 0 _ _ _)
                  λ _. Ensures-pure _ _ (λ s h. h)
    where
      items : List OrderItem
      items = order_items env.order_id snapshots c.quantities c.variant_ids

      order_with : Text → Order
      order_with number = new_order env st method c address z p number items

      insert_order_items-Owes :
          (number : Text)
          → Ensures
              (λ s.
                Owes v point n (0 + all_due v point p c.quantities c.variant_ids) s
                × (find_order env.order_id s.orders ≡ some (order_with number)))
              (insert_items (items_in_product_order snapshots items))
              (λ _. Owes v point n 0)
      insert_order_items-Owes number =
          Ensures-weaken _ _ _
            (λ s h. (
              (
                h.0.0,
                omega (
                  arith,
                  h.0.1,
                  counts-new_order v point p env st method c address z snapshots number items,
                ),
              ),
              h.1,
            ))
            (λ a s h. h)
            (insert_items-Owes v point n (order_with number) _ (
              All-items_in_product_order (λ it. it.order_id ≡ env.order_id) snapshots items
                (order_items_owner env.order_id snapshots c.quantities c.variant_ids)))
