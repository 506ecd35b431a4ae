-- ===== src/Services/Orders.antt =====
-- The services of internal/orders keep what their statements keep.
use cozy_backend.Base.{ℕ, ◌≡◌, refl, Bool, true, Option, none, some, arith}
use cozy_backend.Dbtx.Keeps.{Keeps, keeps_rules, bind-Keeps, pure-Keeps, if-Keeps}
use cozy_backend.Dbtx.Always.{Always, always_rules}
use cozy_backend.Dbtx.Ensures.{Ensures-bind, Ensures-weaken, Ensures-guard}
use cozy_backend.Schema.Text.{Text, IdText}
use cozy_backend.Schema.Rows.{Order, Db, Env, PaymentMethod, OrderStatus, Actor}
use cozy_backend.Schema.Statements.{Action}
use cozy_backend.Orders.Settings.{Settings}
use cozy_backend.Orders.Input.{PlaceOrderInput}
use cozy_backend.Orders.Create.{
  replay_of, find_replay, create_new, continue_order, create_order_tx, reply_to, create_order,
  Placed, replay, created, Checked, place_order,
}
use cozy_backend.Orders.Reads.{
  check_input-Always, check_open_orders_limit-Keeps, resolve_delivery-Keeps, resolve_pickup-Keeps,
  check_snapshots-Keeps, fulfillment_point-Keeps,
}
use cozy_backend.Orders.Status.{customer_can_cancel, valid_status_transition}
use cozy_backend.Orders.Lifecycle.{
  lock_order_tx, order_key_predicate, owned, admin_tx, admin_update_status, cancel_by_customer_tx,
  cancel_by_customer,
}
use cozy_backend.Orders.Attempts.{create_online_order, prepare_retry_tx, prepare_retry_payment}
use cozy_backend.Services.{Laws}

can_cancel-valid :
    (o : Order)
    → customer_can_cancel o ≡ true
    → valid_status_transition o.status OrderStatus.cancelled ≡ true
unfolding customer_can_cancel valid_status_transition
can_cancel-valid o h = ground arith

module _ {P : Db → Type 0} (laws : Laws P) where
  create_new-Keeps :
      (env : Env) (st : Settings) (method : PaymentMethod) (c : Checked)
      → Keeps P (create_new env st method c)
  unfolding create_new
  create_new-Keeps env st method c =
      search
        (
          keeps_rules, check_open_orders_limit-Keeps, resolve_delivery-Keeps, resolve_pickup-Keeps,
          check_snapshots-Keeps, fulfillment_point-Keeps, laws.writes,
        )
        depth 9

  replay_of-Keeps : (env : Env) (o : Option Order) → Keeps P (replay_of env o)
  unfolding replay_of
  replay_of-Keeps env none = pure-Keeps _ _
  replay_of-Keeps env (some o) =
      if-Keeps _ _ _ _ (pure-Keeps _ _)
        (bind-Keeps _ _ _ (laws.updates o.id _ (λ r. (refl, refl, refl))) (λ _. pure-Keeps _ _))

  find_replay-Keeps :
      (env : Env) (customer_id : ℕ) (key : Option Text) → Keeps P (find_replay env customer_id key)
  unfolding find_replay
  find_replay-Keeps env customer_id none = pure-Keeps _ _
  find_replay-Keeps env customer_id (some key) = search (keeps_rules, replay_of-Keeps)

  module _ (after_insert : Order → Action Unit)
      (keep : (o : Order) → Keeps P (after_insert o)) where
    continue_order-Keeps :
        (env : Env) (st : Settings) (method : PaymentMethod) (c : Checked) (id : Option ℕ)
        → Keeps P (continue_order env st method after_insert c id)
    unfolding continue_order
    continue_order-Keeps env st method c (some id) = pure-Keeps _ _
    continue_order-Keeps env st method c none = search (keeps_rules, create_new-Keeps, keep)

    create_order_tx-Keeps :
        (env : Env) (st : Settings) (method : PaymentMethod) (c : Checked)
        → Keeps P (create_order_tx env st method after_insert c)
    unfolding create_order_tx
    create_order_tx-Keeps env st method c =
        search (keeps_rules, find_replay-Keeps, continue_order-Keeps)

    reply_to-Always :
        (method : PaymentMethod) (customer_id : ℕ) (p : Placed)
        → Always P (reply_to method customer_id p)
    unfolding reply_to
    reply_to-Always method customer_id (replay id) = search always_rules
    reply_to-Always method customer_id (created o) = search always_rules

    pub create_order-Always :
        (env : Env) (st : Settings) (method : PaymentMethod) (in_ : PlaceOrderInput)
        → Always P (create_order env st method after_insert in_)
    unfolding create_order
    create_order-Always env st method in_ =
        search (always_rules, check_input-Always, create_order_tx-Keeps, reply_to-Always)

  pub place_order-Always :
      (env : Env) (st : Settings) (in_ : PlaceOrderInput) → Always P (place_order env st in_)
  unfolding place_order
  place_order-Always env st in_ = create_order-Always _ (λ o. pure-Keeps _ tt) env st _ in_

  pub create_online_order-Always :
      (env : Env) (st : Settings) (provider : Text) (in_ : PlaceOrderInput)
      → Always P (create_online_order env st provider in_)
  unfolding create_online_order
  create_online_order-Always env st provider in_ =
      create_order-Always _ (λ o. laws.inserts_payment _) env st _ in_

  admin_tx-Keeps :
      (env : Env) (actor : Actor) (key : IdText) (to : OrderStatus)
      → Keeps P (admin_tx env actor key to)
  unfolding admin_tx
  admin_tx-Keeps env actor key to = Ensures-bind _ _ _ _ (laws.locks (order_key_predicate key)) λ o.
      Ensures-bind (λ _. P) _ _ _
        (Ensures-weaken _ _ _ (λ s h. h.0) (λ a s h. h) (laws.transitions env o to actor none))
        λ _. pure-Keeps _ _

  pub admin_update_status-Always :
      (env : Env) (actor : Option Actor) (key : IdText) (to : OrderStatus)
      → Always P (admin_update_status env actor key to)
  unfolding admin_update_status
  admin_update_status-Always env none key to = search always_rules
  admin_update_status-Always env (some actor) key to = search (always_rules, admin_tx-Keeps)

  cancel_by_customer_tx-Keeps :
      (env : Env) (customer_id : ℕ) (key : IdText)
      → Keeps P (cancel_by_customer_tx env customer_id key)
  unfolding cancel_by_customer_tx
  cancel_by_customer_tx-Keeps env customer_id key =
      Ensures-bind _ _ _ _ (laws.locks (owned customer_id key)) λ o. Ensures-guard _ _ _ _ λ can.
        Ensures-weaken _ _ _ (λ s h. h.0) (λ a s h. h)
          (laws.cancels env o _ _ (can_cancel-valid o (ground arith)))

  pub cancel_by_customer-Always :
      (env : Env) (customer_id : ℕ) (key : IdText)
      → Always P (cancel_by_customer env customer_id key)
  unfolding cancel_by_customer
  cancel_by_customer-Always env customer_id key = search (always_rules, cancel_by_customer_tx-Keeps)

  pub lock_order_tx-Keeps : (test : Order → Bool) → Keeps P (lock_order_tx test)
  lock_order_tx-Keeps test = Ensures-weaken _ _ _ (λ s h. h) (λ o s h. h.0.0) (laws.locks test)

  prepare_retry_tx-Keeps :
      (env : Env) (provider : Text) (customer_id : ℕ) (key : IdText)
      → Keeps P (prepare_retry_tx env provider customer_id key)
  unfolding prepare_retry_tx
  prepare_retry_tx-Keeps env provider customer_id key =
      search
        (
          keeps_rules, lock_order_tx-Keeps, laws.inserts_payment, laws.updates_payments,
          laws.updates,
        )
        depth 12

  pub prepare_retry_payment-Always :
      (env : Env) (provider : Text) (customer_id : ℕ) (key : IdText)
      → Always P (prepare_retry_payment env provider customer_id key)
  unfolding prepare_retry_payment
  prepare_retry_payment-Always env provider customer_id key =
      search (always_rules, prepare_retry_tx-Keeps)
