-- ===== src/Orders/Lifecycle.antt =====
-- Every status change after placement and its side effects (internal/orders/lifecycle.go).
use cozy_backend.Base.{
  ℕ, Bool, true, false, not, ◌&&◌, Option, none, some, List, [], ◌∷◌, ◌==◌, if◌then◌else◌,
  first_row,
}
use cozy_backend.Apperr.{
  Result, ok, err, order_not_found, internal, invalid_status_transition, payment_not_completed,
  order_not_cancellable, forbidden, cancel_forbidden,
}
use cozy_backend.Dbtx.{pure, raise, gets, or_raise, with_tx, modify, raise_if, ◌>>=◌, ◌>>◌}
use cozy_backend.Schema.Text.{Text, IdText, uuid, other, codes, same_text}
use cozy_backend.Schema.Rows.{
  OrderStatus, confirmed, PaymentMethod, online_card, PaymentStatus, pending, paid, Order, Actor,
  system, Role, owner, Db, Env, is_placed, is_cancelled,
}
use cozy_backend.Schema.Statements.{Action, update_order, cancel_pending_payments, record_status_tx}
use cozy_backend.Orders.Status.{
  valid_status_transition, payment_allows_confirm, customer_can_cancel,
}
use cozy_backend.Orders.Stock.{restock_order_tx}
use cozy_backend.Orders.Create.{
  Notice, order_created, cancelled_by_customer, status_changed, customer_actor,
}

-- `orderKeyPredicate`: the primary key for a UUID, else the order number.
abbrev pub order_key_predicate : IdText → Order → Bool
order_key_predicate (uuid id) o = o.id == id
order_key_predicate (other t) o = same_text o.order_number t

-- `lockOrderTx`
unfoldable pub lock_order_tx : (Order → Bool) → Action Order
lock_order_tx predicate = do
  row ← gets (λ db. first_row predicate db.orders)
  or_raise order_not_found row

-- The payment of a cancelled order: a pending one is cancelled with its order.
abbrev pub cancelled_payment : PaymentMethod → Option PaymentStatus → Option PaymentStatus
cancelled_payment online_card (some pending) = some PaymentStatus.cancelled
cancelled_payment _ s = s

-- A paid order that is cancelled must be refunded.
abbrev pub cancelled_refund : PaymentMethod → Option PaymentStatus → Bool → Bool
cancelled_refund online_card (some paid) refund = true
cancelled_refund _ _ refund = refund

-- The statement on `payments`, for a pending payment.
unfoldable pub cancel_open_payment : Env → ℕ → PaymentMethod → Option PaymentStatus → Action Unit
cancel_open_payment env id online_card (some pending) = modify (cancel_pending_payments env id)
cancel_open_payment env id _ _ = pure tt

abbrev pub cancel_row : Env → Order → Order → Order
cancel_row env o r = record r {
  status = OrderStatus.cancelled;
  payment_status = cancelled_payment o.payment_method o.payment_status;
  refund_required = cancelled_refund o.payment_method o.payment_status o.refund_required;
  updated_at = env.now;
}

-- `cancelLockedTx`
unfoldable pub cancel_locked_tx : Env → Order → Actor → Option Text → Action Order
cancel_locked_tx env o actor note = do
  point ← or_raise internal o.point_id
  modify (restock_order_tx o.id point)
  cancel_open_payment env o.id o.payment_method o.payment_status
  modify (update_order o.id (cancel_row env o))
  record_status_tx env o.id (some o.status) OrderStatus.cancelled actor note
  pure (cancel_row env o o)

abbrev pub is_confirmed : OrderStatus → Bool
is_confirmed confirmed = true
is_confirmed _ = false

abbrev pub move_row : Env → OrderStatus → Order → Order
move_row env to r = record r { status = to; updated_at = env.now }

-- `transitionLockedTx`
unfoldable pub transition_locked_tx : Env → Order → OrderStatus → Actor → Option Text → Action Order
transition_locked_tx env o to actor note = do
  raise_if (not (valid_status_transition o.status to)) invalid_status_transition
  raise_if (is_confirmed to && not (payment_allows_confirm o)) payment_not_completed
  if is_cancelled to then cancel_locked_tx env o actor note else do
    modify (update_order o.id (move_row env to))
    record_status_tx env o.id (some o.status) to actor note
    pure (move_row env to o)

-- An order as changed, and what the notifier is told.
pub record Change : Type 0 where
  pub order : Order
  pub notices : List Notice

abbrev pub is_owner : Option Role → Bool
is_owner (some owner) = true
is_owner _ = false

-- The transaction of AdminUpdateStatus: the order as it was and as it is.
unfoldable pub admin_tx : Env → Actor → IdText → OrderStatus → Action (Order × Order)
unfolding lock_order_tx
admin_tx env actor key to = do
  o ← lock_order_tx (order_key_predicate key)
  o' ← transition_locked_tx env o to actor none
  pure (o, o')

-- `AdminUpdateStatus` as far as its notice, with the staff member of the context; the end is
-- `reply_with_items`.
unfoldable pub admin_update_status : Env → Option Actor → IdText → OrderStatus → Action Change
admin_update_status env none key to = raise forbidden
admin_update_status env (some actor) key to = do
  raise_if (is_cancelled to && not (is_owner actor.role)) cancel_forbidden
  (o, o') ← with_tx (admin_tx env actor key to)
  pure (record { order = o'; notices = status_changed o.id o.status ∷ [] })

abbrev pub owned : ℕ → IdText → Order → Bool
owned customer_id key o = o.customer_id == customer_id && order_key_predicate key o

unfoldable pub cancel_by_customer_tx : Env → ℕ → IdText → Action Order
unfolding lock_order_tx
cancel_by_customer_tx env customer_id key = do
  o ← lock_order_tx (owned customer_id key)
  raise_if (not (customer_can_cancel o)) order_not_cancellable
  cancel_locked_tx env o customer_actor none

-- `CancelByCustomer` as far as its notice; the end is `reply_with_items`.
unfoldable pub cancel_by_customer : Env → ℕ → IdText → Action Change
cancel_by_customer env customer_id key = do
  o ← with_tx (cancel_by_customer_tx env customer_id key)
  pure (record { order = o; notices = cancelled_by_customer o.id ∷ [] })

-- The end of AdminUpdateStatus and CancelByCustomer, for what attachItems answers after the commit:
-- the notices are sent whether or not the items of the reply can be read.
unfoldable pub reply_with_items :
    Result Unit → Result Change × Db → List Notice × (Result Order × Db)
reply_with_items items (err e, db) = ([], (err e, db))
reply_with_items (err e) (ok change, db) = (change.notices, (err e, db))
reply_with_items (ok _) (ok change, db) = (change.notices, (ok change.order, db))

abbrev pub note_payment_expired : Text
note_payment_expired = codes "payment_expired"

abbrev pub note_payment_open_failed : Text
note_payment_open_failed = codes "payment_open_failed"

abbrev pub note_payment_cancelled : Text
note_payment_cancelled = codes "payment_cancelled"

abbrev pub system_actor : Actor
system_actor = record { type = system; staff_id = none; role = none }

abbrev pub by_id : ℕ → Order → Bool
by_id id o = o.id == id

-- `CancelUnpaidOrderTx`: only an order that is still placed.
unfoldable pub cancel_unpaid_order_tx : Env → ℕ → Option Text → Action Bool
unfolding lock_order_tx
cancel_unpaid_order_tx env id note = do
  o ← lock_order_tx (by_id id)
  if is_placed o.status then cancel_locked_tx env o system_actor note >> pure true else pure false

-- `MarkRefundRequiredTx`
unfoldable pub mark_refund_required_tx : Env → ℕ → Action Unit
mark_refund_required_tx env id =
    modify (update_order id (λ o. record o { refund_required = true; updated_at = env.now }))

-- `NotifyOrderPaid`: staff hear of a paid order unless it is cancelled.
unfoldable pub notify_order_paid : ℕ → Db → List Notice
notify_order_paid id db = elim (first_row (by_id id) db.orders) [
  | none ↦ []
  | some o ↦ if is_cancelled o.status then [] else order_created id ∷ []
]
