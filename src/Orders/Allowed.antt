-- ===== src/Orders/Allowed.antt =====
-- Status changes that are allowed go through (AdminUpdateStatus and CancelByCustomer in
-- internal/orders/lifecycle.go).
use cozy_backend.Base.{
  ℕ, ◌≡◌, refl, Bool, true, false, not, ◌&&◌, Option, none, some, first_row, ap, if_both,
}
use cozy_backend.Apperr.{is_ok}
use cozy_backend.Dbtx.{◌>>=◌}
use cozy_backend.Dbtx.Total.{
  Total, raise_if-Total, or_raise-Total, bind-Total, with_tx-ok, then-ok, guard-ok,
}
use cozy_backend.Schema.Text.{Text, IdText}
use cozy_backend.Schema.Rows.{
  OrderStatus, PaymentMethod, online_card, cash_on_delivery, PaymentStatus, pending, paid, failed,
  refunded, Order, Actor, Db, Env, is_cancelled,
}
use cozy_backend.Schema.Statements.{Action, record_status_tx}
use cozy_backend.Orders.Create.{customer_actor}
use cozy_backend.Orders.Status.{
  valid_status_transition, payment_allows_confirm, customer_can_cancel,
}
use cozy_backend.Orders.Lifecycle.{
  order_key_predicate, lock_order_tx, cancel_open_payment, cancel_locked_tx, transition_locked_tx,
  is_owner, is_confirmed, admin_tx, admin_update_status, owned, cancel_by_customer_tx,
  cancel_by_customer,
}

cancel_open_payment-Total :
    (env : Env) (id : ℕ) (method : PaymentMethod) (status : Option PaymentStatus)
    → Total (cancel_open_payment env id method status)
unfolding cancel_open_payment
cancel_open_payment-Total env id online_card (some pending) s = refl
cancel_open_payment-Total env id online_card (some paid) s = refl
cancel_open_payment-Total env id online_card (some failed) s = refl
cancel_open_payment-Total env id online_card (some PaymentStatus.cancelled) s = refl
cancel_open_payment-Total env id online_card (some refunded) s = refl
cancel_open_payment-Total env id online_card none s = refl
cancel_open_payment-Total env id cash_on_delivery status s = refl

cancel_locked_tx-Total :
    (env : Env) (o : Order) (actor : Actor) (remark : Option Text) (p : ℕ)
    → o.point_id ≡ some p
    → Total (cancel_locked_tx env o actor remark)
unfolding cancel_locked_tx record_status_tx
cancel_locked_tx-Total env o actor remark p at_point =
    bind-Total _ _ (or_raise-Total _ o.point_id p at_point) λ point.
      bind-Total _ _ (λ s. refl)
        λ _.
          bind-Total _ _ (cancel_open_payment-Total env o.id o.payment_method o.payment_status)
            λ _. bind-Total _ _ (λ s. refl) λ _. bind-Total _ _ (λ s. refl) λ _ s. refl

transition_locked_tx-Total :
    (env : Env) (o : Order) (to : OrderStatus) (actor : Actor) (remark : Option Text) (p : ℕ)
    → o.point_id ≡ some p
    → valid_status_transition o.status to ≡ true
    → (is_confirmed to && not (payment_allows_confirm o)) ≡ false
    → Total (transition_locked_tx env o to actor remark)
unfolding transition_locked_tx record_status_tx
transition_locked_tx-Total env o to actor remark p at_point valid paid_for =
    bind-Total _ _ (raise_if-Total _ _ (ap not valid)) λ _.
      bind-Total _ _ (raise_if-Total _ _ paid_for) λ _ s.
        if_both (λ (m : Action Order). is_ok (m s).0 ≡ true) (is_cancelled to)
          (λ _. cancel_locked_tx-Total env o actor remark p at_point s)
          (λ _. bind-Total _ _ (λ t. refl) (λ _. bind-Total _ _ (λ t. refl) (λ _ t. refl)) s)

-- The row that a lookup finds is locked, and the block goes on with it.
locked_ok :
    {A : Type 0} (test : Order → Bool) (f : Order → Action A) (o : Order) (db : Db)
    → first_row test db.orders ≡ some o
    → Total (f o)
    → is_ok ((lock_order_tx test >>= f) db).0 ≡ true
unfolding lock_order_tx ◌>>=◌
locked_ok test f o db found h = rw found (h db)

-- If there is an order under the key, packed at a point, and the transition from its status is
-- allowed, asked for by an owner if it is a cancellation and allowed by the payment if it is a
-- confirmation, then AdminUpdateStatus returns without an error.
pub admin_update_status_succeeds :
    (env : Env) (actor : Actor) (key : IdText) (to : OrderStatus) (db : Db) (o : Order) (p : ℕ)
    → first_row (order_key_predicate key) db.orders ≡ some o
    → o.point_id ≡ some p
    → valid_status_transition o.status to ≡ true
    → (is_cancelled to && not (is_owner actor.role)) ≡ false
    → (is_confirmed to && not (payment_allows_confirm o)) ≡ false
    → is_ok (admin_update_status env (some actor) key to db).0 ≡ true
unfolding admin_update_status admin_tx
admin_update_status_succeeds env actor key to db o p found at_point valid by_owner paid_for =
    guard-ok _ _ _ db by_owner (
      then-ok _ _ db
        (with_tx-ok _ db (
          locked_ok (order_key_predicate key) _ o db found (
            bind-Total _ _
              (transition_locked_tx-Total env o to actor none p at_point valid paid_for)
              (λ o' s. refl))))
        (λ a s. refl))

-- If the customer has an order under the key, packed at a point, that is still placed and not paid
-- online, then CancelByCustomer returns without an error.
pub cancel_by_customer_succeeds :
    (env : Env) (customer_id : ℕ) (key : IdText) (db : Db) (o : Order) (p : ℕ)
    → first_row (owned customer_id key) db.orders ≡ some o
    → o.point_id ≡ some p
    → customer_can_cancel o ≡ true
    → is_ok (cancel_by_customer env customer_id key db).0 ≡ true
unfolding cancel_by_customer cancel_by_customer_tx
cancel_by_customer_succeeds env customer_id key db o p found at_point can =
    then-ok _ _ db
      (with_tx-ok _ db (
        locked_ok (owned customer_id key) _ o db found (
          bind-Total _ _ (raise_if-Total _ _ (ap not can))
            (λ _. cancel_locked_tx-Total env o customer_actor none p at_point))))
      (λ a s. refl)
