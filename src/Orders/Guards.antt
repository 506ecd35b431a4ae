-- ===== src/Orders/Guards.antt =====
-- What a status change that goes through has checked and written (AdminUpdateStatus,
-- CancelByCustomer and transitionLockedTx in internal/orders).
use cozy_backend.Base.{
  ℕ, ◌≡◌, refl, sym, ap, ◌∙◌, subst, Bool, true, false, not, ◌&&◌, Option, none, some, List, [],
  ◌∷◌, first_row,
}
use cozy_backend.Dbtx.Ensures.{
  Ensures, Post, Ensures-bind, Ensures-pure, Ensures-gets, Ensures-or_raise, Ensures-guard,
  Ensures-modify, Ensures-if, Ensures-weaken, Ensures-frame,
}
use cozy_backend.Dbtx.Rollback.{with_tx-Post}
use cozy_backend.Apperr.{order_not_found}
use cozy_backend.Orders.Create.{customer_actor}
use cozy_backend.Schema.Text.{Text, IdText}
use cozy_backend.Schema.Rows.{
  OrderStatus, PaymentMethod, online_card, cash_on_delivery, PaymentStatus, pending, paid, failed,
  refunded, Order, Actor, Db, Env, is_cancelled,
}
use cozy_backend.Schema.Statements.{record_status_tx, return_stock, put_stock, status_row}
use cozy_backend.Orders.Status.{
  valid_status_transition, payment_allows_confirm, customer_can_cancel,
}
use cozy_backend.Orders.Input.{Quantities, keys, sort}
use cozy_backend.Orders.Stock.{return_all, order_quantities, restock_order_tx}
use cozy_backend.Orders.Lifecycle.{
  order_key_predicate, lock_order_tx, cancel_open_payment, cancel_locked_tx, transition_locked_tx,
  Change, is_owner, is_confirmed, admin_tx, admin_update_status, owned, cancel_by_customer_tx,
  cancel_by_customer,
}

-- One row was added to the history: the order's change from its status.
abbrev pub Logged : Env → Order → OrderStatus → Actor → Option Text → Db → Db → Type 0
Logged env o to actor remark db s =
    s.history ≡ status_row env o.id (some o.status) to actor remark ∷ db.history

return_all-history :
    (point : ℕ) (m : Quantities) (vs : List ℕ) (db : Db)
    → (return_all point m vs db).history ≡ db.history
unfolding return_all return_stock put_stock
return_all-history point m [] db = refl
return_all-history point m (v ∷ vs) db = return_all-history point m vs _

restock_order_tx-history :
    (order_id point : ℕ) (db : Db) → (restock_order_tx order_id point db).history ≡ db.history
unfolding restock_order_tx
restock_order_tx-history order_id point db =
    return_all-history point (order_quantities order_id db.items)
      (sort (keys (order_quantities order_id db.items))) db

-- The history is still the one of `db`.
abbrev Unlogged : Db → Db → Type 0
Unlogged db s = s.history ≡ db.history

cancel_open_payment-Unlogged :
    (env : Env) (id : ℕ) (method : PaymentMethod) (status : Option PaymentStatus) (db : Db)
    → Ensures (Unlogged db) (cancel_open_payment env id method status) (λ _. Unlogged db)
unfolding cancel_open_payment
cancel_open_payment-Unlogged env id online_card (some pending) db = record { at = λ s h. h }
cancel_open_payment-Unlogged env id online_card (some paid) db = record { at = λ s h. h }
cancel_open_payment-Unlogged env id online_card (some failed) db = record { at = λ s h. h }
cancel_open_payment-Unlogged env id online_card (some PaymentStatus.cancelled) db = record {
  at = λ s h. h;
}
cancel_open_payment-Unlogged env id online_card (some refunded) db = record { at = λ s h. h }
cancel_open_payment-Unlogged env id online_card none db = record { at = λ s h. h }
cancel_open_payment-Unlogged env id cash_on_delivery status db = record { at = λ s h. h }

abbrev pub Changed : Env → Order → OrderStatus → Actor → Option Text → Db → Order → Db → Type 0
Changed env o to actor remark db o' s =
    (o'.id ≡ o.id) × (o'.status ≡ to) × Logged env o to actor remark db s

record_status_tx-Logged :
    (env : Env) (o : Order) (to : OrderStatus) (actor : Actor) (remark : Option Text) (db : Db)
    → Ensures
        (Unlogged db)
        (record_status_tx env o.id (some o.status) to actor remark)
        (λ _. Logged env o to actor remark db)
unfolding record_status_tx
record_status_tx-Logged env o to actor remark db = record {
  at = λ s h. ap (λ hs. status_row env o.id (some o.status) to actor remark ∷ hs) h;
}

pub cancel_locked_tx-Changed :
    (env : Env) (o : Order) (actor : Actor) (remark : Option Text) (db : Db)
    → Ensures
        (Unlogged db)
        (cancel_locked_tx env o actor remark)
        (Changed env o OrderStatus.cancelled actor remark db)
unfolding cancel_locked_tx
cancel_locked_tx-Changed env o actor remark db =
    Ensures-bind _ _ _ _ (Ensures-or_raise _ _) λ point.
      Ensures-bind (λ _. Unlogged db) _ _ _
        (Ensures-modify (Unlogged db) _ (λ s h. restock_order_tx-history o.id point s ∙ h.1))
        λ _. Ensures-bind _ _ _ _ (cancel_open_payment-Unlogged env o.id _ _ db) λ _.
          Ensures-bind (λ _. Unlogged db) _ _ _ (Ensures-modify (Unlogged db) _ (λ s h. h))
            λ _.
              Ensures-bind _ _ _ _
                (record_status_tx-Logged env o OrderStatus.cancelled actor remark db)
                λ _. Ensures-pure _ _ (λ s h. (refl, refl, h))

cancelled_only : (to : OrderStatus) → is_cancelled to ≡ true → OrderStatus.cancelled ≡ to
cancelled_only OrderStatus.placed e = cc
cancelled_only OrderStatus.confirmed e = cc
cancelled_only OrderStatus.courier_assigned e = cc
cancelled_only OrderStatus.delivered e = cc
cancelled_only OrderStatus.cancelled e = refl

not-false : (b : Bool) → not b ≡ false → b ≡ true
not-false true h = refl
not-false false h = cc

transition_locked_tx-Changed :
    (env : Env) (o : Order) (to : OrderStatus) (actor : Actor) (remark : Option Text) (db : Db)
    → Ensures (Unlogged db) (transition_locked_tx env o to actor remark) (λ o' s.
      (valid_status_transition o.status to ≡ true)
      × ((is_confirmed to && not (payment_allows_confirm o)) ≡ false)
      × Changed env o to actor remark db o' s)
unfolding transition_locked_tx
transition_locked_tx-Changed env o to actor remark db =
    Ensures-guard _ (not (valid_status_transition o.status to)) _ _ λ valid.
      Ensures-guard _ (is_confirmed to && not (payment_allows_confirm o)) _ _ λ paid_for.
        Ensures-if _ (is_cancelled to) _ _
          (λ e.
            Ensures-weaken (Changed env o OrderStatus.cancelled actor remark db) _ _ (λ s h. h)
              (λ o' s h. (
                not-false _ valid,
                paid_for,
                subst (λ t. Changed env o t actor remark db o' s) (cancelled_only to e) h,
              ))
              (cancel_locked_tx-Changed env o actor remark db))
          (λ e.
            Ensures-bind (λ _. Unlogged db) _ _ _ (Ensures-modify (Unlogged db) _ (λ s h. h))
              λ _.
                Ensures-bind _ _ _ _ (record_status_tx-Logged env o to actor remark db)
                  λ _. Ensures-pure _ _ (λ s h. (not-false _ valid, paid_for, (refl, refl, h))))

pub lock_order_tx-found :
    (test : Order → Bool) (db : Db)
    → Ensures
        (λ s. s ≡ db)
        (lock_order_tx test)
        (λ o s. (first_row test db.orders ≡ some o) × (s ≡ db))
unfolding lock_order_tx
lock_order_tx-found test db = Ensures-bind _ _ _ _ (Ensures-gets _) λ row.
    Ensures-weaken _ _ _ (λ s h. h)
      (λ o s h. (sym (h.1.0 ∙ ap (λ t. first_row test t.orders) h.1.1) ∙ h.0, h.1.1))
      (Ensures-or_raise order_not_found row)

-- Nothing was written, so nothing was logged.
pub unlogged : (db s : Db) → s ≡ db → s.history ≡ db.history
unlogged db s h = ap (λ t. t.history) h

-- What the transaction leaves, for the order before and after.
abbrev Moved : Env → Actor → IdText → OrderStatus → Db → Order × Order → Db → Type 0
Moved env actor key to db (o, o') s =
    (first_row (order_key_predicate key) db.orders ≡ some o)
    × ((valid_status_transition o.status to ≡ true)
        × ((is_confirmed to && not (payment_allows_confirm o)) ≡ false)
        × Changed env o to actor none db o' s)

admin_tx-Moved :
    (env : Env) (actor : Actor) (key : IdText) (to : OrderStatus) (db : Db)
    → Ensures (λ s. s ≡ db) (admin_tx env actor key to) (Moved env actor key to db)
unfolding admin_tx
admin_tx-Moved env actor key to db =
    Ensures-bind _ _ _ _ (lock_order_tx-found (order_key_predicate key) db) λ o.
      Ensures-bind _ _ _ _
        (Ensures-frame (first_row (order_key_predicate key) db.orders ≡ some o) _ _ (
          Ensures-weaken _ _ _ (unlogged db) (λ o' s h. h)
            (transition_locked_tx-Changed env o to actor none db)))
        λ o'. Ensures-pure _ _ (λ s h. h)

-- What AdminUpdateStatus has done when it returns.
abbrev pub StaffChanged : Env → Actor → IdText → OrderStatus → Db → Change → Db → Type 0
StaffChanged env actor key to db change s =
    (o : Order) × (first_row (order_key_predicate key) db.orders ≡ some o)
    × (valid_status_transition o.status to ≡ true)
    × ((is_cancelled to && not (is_owner actor.role)) ≡ false)
    × ((is_confirmed to && not (payment_allows_confirm o)) ≡ false)
    × Changed env o to actor none db change.order s

-- If AdminUpdateStatus returns, there is an order under the key, the transition from its status is
-- allowed, a cancellation was asked for by an owner, a confirmation only where the payment allows
-- it; the order that it returns has the new status, and exactly one row was added to the history,
-- with the order's old and new status and the staff member.
pub admin_update_status-StaffChanged :
    (env : Env) (actor : Actor) (key : IdText) (to : OrderStatus) (db : Db)
    → Post (StaffChanged env actor key to db) (admin_update_status env (some actor) key to db)
unfolding admin_update_status
admin_update_status-StaffChanged env actor key to db =
    (Ensures-guard {P = λ s. s ≡ db} (StaffChanged env actor key to db)
        (is_cancelled to && not (is_owner actor.role)) _ _
        λ by_owner.
          Ensures-bind (Moved env actor key to db) _ _ _
            (record {
              at = λ s h.
                  with_tx-Post (Moved env actor key to db) s (admin_tx env actor key to)
                    ((admin_tx-Moved env actor key to db).at s h);
            })
            λ o. Ensures-pure _ _ (λ s h. (o.0, h.0, h.1.0, by_owner, h.1.1, h.1.2))).at
      db refl

-- What CancelByCustomer has done when it returns.
abbrev pub CustomerCancelled : Env → ℕ → IdText → Db → Order → Db → Type 0
CustomerCancelled env customer_id key db o' s =
    (o : Order) × (first_row (owned customer_id key) db.orders ≡ some o)
    × (customer_can_cancel o ≡ true)
    × Changed env o OrderStatus.cancelled customer_actor none db o' s

cancel_by_customer_tx-CustomerCancelled :
    (env : Env) (customer_id : ℕ) (key : IdText) (db : Db)
    → Ensures
        (λ s. s ≡ db)
        (cancel_by_customer_tx env customer_id key)
        (CustomerCancelled env customer_id key db)
unfolding cancel_by_customer_tx
cancel_by_customer_tx-CustomerCancelled env customer_id key db =
    Ensures-bind _ _ _ _ (lock_order_tx-found (owned customer_id key) db) λ o.
      Ensures-guard _ (not (customer_can_cancel o)) _ _ λ can.
        Ensures-weaken _ _ _ (λ s h. h) (λ o' s h. (o, h.0, not-false _ can, h.1))
          (Ensures-frame (first_row (owned customer_id key) db.orders ≡ some o) _ _ (
            Ensures-weaken _ _ _ (unlogged db) (λ o' s h. h)
              (cancel_locked_tx-Changed env o customer_actor none db)))

-- If CancelByCustomer returns, the customer has an order under the key that is still placed and not
-- paid online; the order that it returns is cancelled, and exactly one row was added to the history,
-- with the order's old status and the customer as its actor.
pub cancel_by_customer-CustomerCancelled :
    (env : Env) (customer_id : ℕ) (key : IdText) (db : Db)
    → Post
        (λ change. CustomerCancelled env customer_id key db change.order)
        (cancel_by_customer env customer_id key db)
unfolding cancel_by_customer
cancel_by_customer-CustomerCancelled env customer_id key db =
    (Ensures-bind {P = λ s. s ≡ db} (CustomerCancelled env customer_id key db) _ _ _
        (record {
          at = λ s h.
              with_tx-Post (CustomerCancelled env customer_id key db) s
                (cancel_by_customer_tx env customer_id key)
                ((cancel_by_customer_tx-CustomerCancelled env customer_id key db).at s h);
        })
        λ o. Ensures-pure _ _ (λ s h. h)).at
      db refl
