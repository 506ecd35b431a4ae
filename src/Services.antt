-- ===== src/Services.antt =====
-- The services over orders and payments as clients of the statements below them: what the statements
-- keep, every service keeps (internal/orders, internal/payments).
pub mod Orders
pub mod Payments
use cozy_backend.Base.{ℕ, ◌≡◌, true, Bool, Option, some}
use cozy_backend.Dbtx.{modify}
use cozy_backend.Dbtx.Ensures.{Ensures}
use cozy_backend.Dbtx.Keeps.{Keeps}
use cozy_backend.Schema.Text.{Text}
use cozy_backend.Schema.Rows.{
  OrderStatus, PaymentMethod, Order, Payment, Actor, DeliveryZone, Db, Env,
}
use cozy_backend.Schema.Statements.{find_order, update_order, update_payments, insert_payment}
use cozy_backend.Orders.Settings.{Settings}
use cozy_backend.Orders.Stock.{Snapshots}
use cozy_backend.Orders.Status.{valid_status_transition}
use cozy_backend.Orders.Create.{Checked, write_order}
use cozy_backend.Orders.Lifecycle.{lock_order_tx, transition_locked_tx, cancel_locked_tx}

-- An order that was found under its row lock.
abbrev pub Found : (Db → Type 0) → Order → Db → Type 0
Found P o s = P s × (find_order o.id s.orders ≡ some o)

-- A property of the tables that the groups of statements keep.
pub record Laws (P : Db → Type 0) : Type 0 where
  pub locks :
      (test : Order → Bool) → Ensures P (lock_order_tx test) (λ o s. Found P o s × (test o ≡ true))
  pub writes :
      (env : Env) (st : Settings) (method : PaymentMethod) (c : Checked) (address : Option ℕ)
      (z : Option DeliveryZone) (point : ℕ) (snapshots : Snapshots)
      → Keeps P (write_order env st method c address z point snapshots)
  pub updates :
      (id : ℕ) (f : Order → Order)
      → ((o : Order)
          → ((f o).id ≡ o.id) × ((f o).status ≡ o.status) × ((f o).point_id ≡ o.point_id))
      → Keeps P (modify (update_order id f))
  pub updates_payments :
      (test : Payment → Bool) (f : Payment → Payment) → Keeps P (modify (update_payments test f))
  pub inserts_payment : (row : Payment) → Keeps P (insert_payment row)
  pub transitions :
      (env : Env) (o : Order) (to : OrderStatus) (actor : Actor) (remark : Option Text)
      → Ensures (Found P o) (transition_locked_tx env o to actor remark) (λ _. P)
  pub cancels :
      (env : Env) (o : Order) (actor : Actor) (remark : Option Text)
      → valid_status_transition o.status OrderStatus.cancelled ≡ true
      → Ensures (Found P o) (cancel_locked_tx env o actor remark) (λ _. P)
