-- ===== src/Goods/Return.antt =====
-- Cancelling an order returns its goods to the shelf of its point (restockOrderTx and
-- cancelLockedTx in internal/orders/lifecycle.go).
use cozy_backend.Base.{
  ℕ, ◌+◌, ◌≡◌, refl, true, false, ◌&&◌, Option, none, some, List, [], ◌∷◌, arith, ◌==◌,
  if◌then◌else◌, sum_by, update_rows,
}
use cozy_backend.Dbtx.Keeps.{Keeps, pure-Keeps}
use cozy_backend.Dbtx.Ensures.{Ensures, Ensures-or_raise, Ensures-modify, Ensures-bind}
use cozy_backend.Schema.Text.{Text}
use cozy_backend.Schema.Rows.{
  PaymentMethod, PaymentStatus, online_card, Order, OrderItem, Actor, Db, Env, is_cancelled,
}
use cozy_backend.Schema.Statements.{
  find_order, quantity_of, return_stock, update_order, cancel_pending_payments,
}
use cozy_backend.Orders.Input.{Quantities, qty_of, keys, sort}
use cozy_backend.Orders.Stock.{order_quantities, return_all, restock_order_tx}
use cozy_backend.Orders.Lifecycle.{cancel_open_payment, cancel_row, cancel_locked_tx}
use cozy_backend.Goods.{held, item_held, reserved, goods, IsWellFormed, Owes}
use cozy_backend.Goods.Shelf.{record_status_tx-Owes}
use cozy_backend.Goods.Laws.{
  updated, find_order-update, find_order-same, update-ItemsKnown, update-OrdersKeyed,
}
use cozy_backend.Goods.Quantities.{IsMap, asked, asked-keys, qty_of-add_qty, add_qty-IsMap}

-- The units of a variant among the items of an order.
abbrev pub units : ℕ → ℕ → OrderItem → ℕ
units id v it = if it.order_id == id && it.variant_id == v then it.quantity else 0

order_quantities-IsMap : (id : ℕ) (items : List OrderItem) → IsMap (order_quantities id items)
unfolding order_quantities
order_quantities-IsMap id [] v = omega arith
order_quantities-IsMap id (it ∷ items) v = ground (
  arith,
  add_qty-IsMap it.variant_id it.quantity (order_quantities id items)
      (order_quantities-IsMap id items) v,
  order_quantities-IsMap id items v,
)

qty_of-order_quantities :
    (id v : ℕ) (items : List OrderItem)
    → qty_of (order_quantities id items) v ≡ sum_by (units id v) items
unfolding order_quantities qty_of
qty_of-order_quantities id v [] = refl
qty_of-order_quantities id v (it ∷ items) = ground (
  arith,
  qty_of-add_qty it.variant_id it.quantity v (order_quantities id items),
  qty_of-order_quantities id v items,
)

-- What a restock adds to one row of `stock`.
return_all-stock :
    (v point p : ℕ) (m : Quantities) (vs : List ℕ) (db : Db)
    → quantity_of ((return_all p m vs db).stock v point)
      ≡ quantity_of (db.stock v point) + (if p == point then asked v m vs else 0)
unfolding return_all return_stock
return_all-stock v point p m [] db = ground arith
return_all-stock v point p m (w ∷ ws) db =
    ground (arith, return_all-stock v point p m ws (return_stock w p (qty_of m w) db))

-- It writes no other table.
return_all-orders :
    (p : ℕ) (m : Quantities) (vs : List ℕ) (db : Db)
    → ((return_all p m vs db).orders ≡ db.orders) × ((return_all p m vs db).items ≡ db.items)
unfolding return_all return_stock
return_all-orders p m [] db = (refl, refl)
return_all-orders p m (w ∷ ws) db = return_all-orders p m ws (return_stock w p (qty_of m w) db)

pub restock_order_tx-orders :
    (id p : ℕ) (db : Db)
    → ((restock_order_tx id p db).orders ≡ db.orders)
      × ((restock_order_tx id p db).items ≡ db.items)
unfolding restock_order_tx
restock_order_tx-orders id p db =
    let m = order_quantities id db.items in return_all-orders p m (sort (keys m)) db

-- restockOrderTx adds to the stock of each variant at the order's point what the items of the order
-- hold of that variant in total, where a missing row counts as 0, and leaves the stock of every other
-- point as it is.
pub restock_order_tx-stock :
    (id v point p : ℕ) (db : Db)
    → quantity_of ((restock_order_tx id p db).stock v point)
      ≡ quantity_of (db.stock v point) + (if p == point then sum_by (units id v) db.items else 0)
unfolding restock_order_tx
restock_order_tx-stock id v point p db =
    let m = order_quantities id db.items in
    ground (
      arith,
      return_all-stock v point p m (sort (keys m)) db,
      asked-keys v m (order_quantities-IsMap id db.items),
      qty_of-order_quantities id v db.items,
    )

-- Between the two statements the goods of the order are counted twice.
abbrev Doubled : ℕ → ℕ → ℕ → Order → ℕ → Db → Type 0
Doubled v point p o n s =
    (IsWellFormed s × (find_order o.id s.orders ≡ some o))
    × (goods v point s ≡ n + (if p == point then sum_by (units o.id v) s.items else 0))

restock-Doubled :
    (v point p : ℕ) (o : Order) (n : ℕ) (db : Db)
    → Owes v point n 0 db × (find_order o.id db.orders ≡ some o)
    → Doubled v point p o n (restock_order_tx o.id p db)
unfolding goods reserved
restock-Doubled v point p o n db s =
    let same = restock_order_tx-orders o.id p db in
    rw (same.0, same.1)
      ((s.0.0, s.1), omega (arith, s.0.1, restock_order_tx-stock o.id v point p db))

module _ (v point p : ℕ) (o : Order) (f : Order → Order) where
  -- The order is open and stands at `p`; the update cancels it.
  record Releases : Type 0 where
    same_id : (r : Order) → (f r).id ≡ r.id
    gone : (r : Order) → is_cancelled (f r).status ≡ true
    stands : is_cancelled o.status ≡ false
    at_point : o.point_id ≡ some p

  release_held :
      (it : OrderItem) (x : Option Order)
      → Releases
      → ((it.order_id == o.id) ≡ true → x ≡ some o)
      → (if it.variant_id == v then held point (updated o.id it.order_id f x) it.quantity else 0)
          + (if p == point then units o.id v it else 0)
        ≡ (if it.variant_id == v then held point x it.quantity else 0)
  release_held it none h own = ground (arith, own)
  release_held it (some r) h own = ground (arith, own, h.gone r, h.stands, h.at_point)

  release_item :
      (orders : List Order) (it : OrderItem)
      → Releases
      → find_order o.id orders ≡ some o
      → item_held (update_rows (λ r. r.id == o.id) f orders) v point it
          + (if p == point then units o.id v it else 0)
        ≡ item_held orders v point it
  release_item orders it h found = rw (find_order-update o.id it.order_id f orders h.same_id) (
      release_held it (find_order it.order_id orders) h
        (find_order-same o.id it.order_id orders o found))

  -- The items of a cancelled order count no more.
  release_items :
      (orders : List Order) (items : List OrderItem)
      → Releases
      → find_order o.id orders ≡ some o
      → sum_by (item_held (update_rows (λ r. r.id == o.id) f orders) v point) items
          + (if p == point then sum_by (units o.id v) items else 0)
        ≡ sum_by (item_held orders v point) items
  release_items orders [] h found = ground arith
  release_items orders (it ∷ items) h found =
      ground (arith, release_item orders it h found, release_items orders items h found)

  cancel-Owes :
      (n : ℕ) (db : Db)
      → Releases
      → Doubled v point p o n db
      → Owes v point n 0 (update_order o.id f db)
  unfolding goods reserved
  cancel-Owes n db h s = (
    (
      update-ItemsKnown o.id f db.orders db.items h.same_id s.0.0.0,
      update-OrdersKeyed o.id f db.orders h.same_id s.0.0.1,
    ),
    omega (arith, s.1, release_items db.orders db.items h s.0.1),
  )

-- The statement on `payments` keeps what does not depend on them.
pub cancel_open_payment-Keeps :
    (P : Db → Type 0) (env : Env) (id : ℕ) (method : PaymentMethod) (payment : Option PaymentStatus)
    → ((s : Db) → P s → P (cancel_pending_payments env id s))
    → Keeps P (cancel_open_payment env id method payment)
unfolding cancel_open_payment
cancel_open_payment-Keeps P env id online_card (some PaymentStatus.pending) h = Ensures-modify _ _ h
cancel_open_payment-Keeps P env id _ _ h = pure-Keeps _ _

cancel_row-Releases :
    (v point p : ℕ) (env : Env) (o : Order)
    → is_cancelled o.status ≡ false
    → o.point_id ≡ some p
    → Releases v point p o (cancel_row env o)
cancel_row-Releases v point p env o stands at_p = record {
  same_id = λ r. refl;
  gone = λ r. refl;
  stands = stands;
  at_point = at_p;
}

-- Cancelling an order that stands loses no goods, wherever it was packed.
pub cancel_locked_tx-Owes :
    (v point n : ℕ) (env : Env) (o : Order) (actor : Actor) (remark : Option Text)
    → is_cancelled o.status ≡ false
    → Ensures
        (λ s. Owes v point n 0 s × (find_order o.id s.orders ≡ some o))
        (cancel_locked_tx env o actor remark)
        (λ _. Owes v point n 0)
unfolding cancel_locked_tx goods reserved
cancel_locked_tx-Owes v point n env o actor remark stands =
    Ensures-bind _ _ _ _ (Ensures-or_raise _ _) λ p.
      Ensures-bind _ _ _ _
        (Ensures-modify (λ s. (o.point_id ≡ some p) × Doubled v point p o n s) _
          (λ s h. (h.0, restock-Doubled v point p o n s h.1)))
        λ _. Ensures-bind _ _ _ _ (cancel_open_payment-Keeps _ env o.id _ _ (λ s h. h)) λ _.
          Ensures-bind _ _ _ _
            (Ensures-modify (Owes v point n 0) _ (λ s h.
              cancel-Owes v point p o (cancel_row env o) n s
                (cancel_row-Releases v point p env o stands h.0) h.1))
            λ _.
              Ensures-bind _ _ _ _ (record_status_tx-Owes v point n 0 env _ _ _ _ _)
                λ _. pure-Keeps _ _
