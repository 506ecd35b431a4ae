-- ===== src/Orders/Status.antt =====
-- The order state machine and the tests on an order's status and payment (admin.go, lifecycle.go,
-- payment.go in internal/orders).
use cozy_backend.Base.{Bool, true, false, ◌&&◌, ◌||◌, Option, none, some, if◌then◌else◌, not}
use cozy_backend.Schema.Rows.{
  OrderStatus, placed, confirmed, courier_assigned, delivered, PaymentStatus, pending, failed,
  Order, is_placed, is_online, is_paid,
}

-- `validStatusTransition`: `from == to` and every pair that is not listed are refused.
unfoldable pub valid_status_transition : OrderStatus → OrderStatus → Bool
valid_status_transition placed confirmed = true
valid_status_transition placed OrderStatus.cancelled = true
valid_status_transition confirmed courier_assigned = true
valid_status_transition confirmed OrderStatus.cancelled = true
valid_status_transition courier_assigned delivered = true
valid_status_transition courier_assigned OrderStatus.cancelled = true
valid_status_transition _ _ = false

-- `o.PaymentStatus != nil && *o.PaymentStatus == paid`
abbrev pub has_paid : Option PaymentStatus → Bool
has_paid none = false
has_paid (some s) = is_paid s

-- `paymentAllowsConfirm`
unfoldable pub payment_allows_confirm : Order → Bool
payment_allows_confirm o =
    if not (is_online o.payment_method) then true else has_paid o.payment_status

-- `customerCanCancel`
unfoldable pub customer_can_cancel : Order → Bool
customer_can_cancel o =
    if not (is_placed o.status)
    then false
    else if is_online o.payment_method && has_paid o.payment_status
    then false
    else true

abbrev pub is_retryable : Option PaymentStatus → Bool
is_retryable (some pending) = true
is_retryable (some failed) = true
is_retryable _ = false

-- `PaymentRetryable`
unfoldable pub payment_retryable : Order → Bool
payment_retryable o =
    if not (is_online o.payment_method) || not (is_placed o.status)
    then false
    else is_retryable o.payment_status
