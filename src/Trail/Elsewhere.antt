-- ===== src/Trail/Elsewhere.antt =====
-- Statements that touch neither `orders` nor `order_status_history` keep what is said of these two
-- (internal/orders, internal/payments).
use cozy_backend.Base.{
  ℕ, Bool, true, false, Option, none, some, List, [], ◌∷◌, ltb, Bool-cases, Option-cases, inl, inr,
}
use cozy_backend.Dbtx.{modify}
use cozy_backend.Dbtx.Ensures.{Post, Ensures-modify}
use cozy_backend.Dbtx.Keeps.{Keeps, keeps_rules, pure-Keeps, bind-Keeps}
use cozy_backend.Schema.Rows.{
  PaymentMethod, PaymentStatus, online_card, Order, OrderItem, StatusChange, Payment, Db, Env,
}
use cozy_backend.Schema.Statements.{
  take_stock, insert_item, return_stock, put_stock, insert_payment, update_payments,
}
use cozy_backend.Orders.Input.{Quantities, qty_of, keys, sort}
use cozy_backend.Orders.Stock.{
  lock_and_decrement_one, lock_and_decrement_stock, return_all, restock_order_tx, order_quantities,
}
use cozy_backend.Orders.Create.{insert_items, clear_cart_lines_tx}
use cozy_backend.Orders.Lifecycle.{cancel_open_payment}

module _ (R : List Order → List StatusChange → Type 0) where
  abbrev pub On : Db → Type 0
  On s = R s.orders s.history

  take_stock-Keeps : (v point need : ℕ) → Keeps On (take_stock v point need)
  unfolding take_stock put_stock
  take_stock-Keeps v point need = record {
    at = λ s h. elim (Option-cases (s.stock v point)) [
      | inl missing ↦ rw (missing, take_stock, Post) h
      | inr (q, e) ↦ elim (Bool-cases (ltb q need)) [
        | inl short ↦ rw (e, short, take_stock, Post) tt
        | inr enough ↦ rw (e, enough, take_stock, Post) h
      ]
    ];
  }

  lock_and_decrement_one-Keeps : (point v need : ℕ) → Keeps On (lock_and_decrement_one point v need)
  unfolding lock_and_decrement_one
  lock_and_decrement_one-Keeps point v need = search (keeps_rules, take_stock-Keeps)

  pub lock_and_decrement_stock-Keeps :
      (point : ℕ) (m : Quantities) (vs : List ℕ) → Keeps On (lock_and_decrement_stock point m vs)
  unfolding lock_and_decrement_stock
  lock_and_decrement_stock-Keeps point m [] = pure-Keeps _ tt
  lock_and_decrement_stock-Keeps point m (v ∷ vs) =
      bind-Keeps _ _ _ (lock_and_decrement_one-Keeps point v (qty_of m v))
        (λ _. lock_and_decrement_stock-Keeps point m vs)

  push_item-Keeps :
      (row : OrderItem) → Keeps On (modify (λ db. record db { items = row ∷ db.items }))
  push_item-Keeps row = Ensures-modify _ _ (λ s h. h)

  insert_item-Keeps : (row : OrderItem) → Keeps On (insert_item row)
  unfolding insert_item
  insert_item-Keeps row = search (keeps_rules, push_item-Keeps)

  pub insert_items-Keeps : (rows : List OrderItem) → Keeps On (insert_items rows)
  unfolding insert_items
  insert_items-Keeps [] = pure-Keeps _ tt
  insert_items-Keeps (it ∷ items) =
      bind-Keeps _ _ _ (insert_item-Keeps it) (λ _. insert_items-Keeps items)

  pub clear_cart-Keeps :
      (clear : Bool) (customer_id : ℕ) (vs : List ℕ)
      → Keeps On (clear_cart_lines_tx clear customer_id vs)
  unfolding clear_cart_lines_tx
  clear_cart-Keeps false customer_id vs = pure-Keeps _ tt
  clear_cart-Keeps true customer_id vs = Ensures-modify _ _ (λ s h. h)

  return_all-On :
      (point : ℕ) (m : Quantities) (vs : List ℕ) (db : Db) → On db → On (return_all point m vs db)
  unfolding return_all return_stock put_stock
  return_all-On point m [] db h = h
  return_all-On point m (v ∷ vs) db h =
      return_all-On point m vs (return_stock v point (qty_of m v) db) h

  pub restock-Keeps : (id point : ℕ) → Keeps On (modify (restock_order_tx id point))
  unfolding restock_order_tx
  restock-Keeps id point = Ensures-modify _ _ (λ s h.
      return_all-On point (order_quantities id s.items) (sort (keys (order_quantities id s.items)))
        s h)

  pub update_payments-Keeps :
      (test : Payment → Bool) (f : Payment → Payment) → Keeps On (modify (update_payments test f))
  update_payments-Keeps test f = Ensures-modify _ _ (λ s h. h)

  push_payment-Keeps :
      (row : Payment) → Keeps On (modify (λ db. record db { payments = row ∷ db.payments }))
  push_payment-Keeps row = Ensures-modify _ _ (λ s h. h)

  pub insert_payment-Keeps : (row : Payment) → Keeps On (insert_payment row)
  unfolding insert_payment
  insert_payment-Keeps row = search (keeps_rules, push_payment-Keeps)

  pub cancel_open_payment-Keeps :
      (env : Env) (id : ℕ) (method : PaymentMethod) (status : Option PaymentStatus)
      → Keeps On (cancel_open_payment env id method status)
  unfolding cancel_open_payment
  cancel_open_payment-Keeps env id PaymentMethod.cash_on_delivery status = pure-Keeps _ tt
  cancel_open_payment-Keeps env id online_card none = pure-Keeps _ tt
  cancel_open_payment-Keeps env id online_card (some PaymentStatus.pending) =
      Ensures-modify _ _ (λ s h. h)
  cancel_open_payment-Keeps env id online_card (some PaymentStatus.paid) = pure-Keeps _ tt
  cancel_open_payment-Keeps env id online_card (some PaymentStatus.failed) = pure-Keeps _ tt
  cancel_open_payment-Keeps env id online_card (some PaymentStatus.cancelled) = pure-Keeps _ tt
  cancel_open_payment-Keeps env id online_card (some PaymentStatus.refunded) = pure-Keeps _ tt
