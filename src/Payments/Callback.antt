-- ===== src/Payments/Callback.antt =====
-- The payment state machine and HandleCallback (internal/payments/service.go).
use cozy_backend.Base.{
  ℕ, Bool, true, false, not, ◌&&◌, ◌||◌, some, List, [], ◌==◌, if◌then◌else◌, first_row,
}
use cozy_backend.Apperr.{payment_not_found, payment_provider_not_found, amount_mismatch}
use cozy_backend.Dbtx.{pure, lift, gets, or_raise, with_tx, modify, raise_if, ◌>>=◌, ◌>>◌}
use cozy_backend.Schema.Text.{Text, same_text}
use cozy_backend.Schema.Rows.{
  PaymentStatus, pending, paid, failed, refunded, Order, Payment, Db, Env, is_pending, is_paid,
  is_cancelled,
}
use cozy_backend.Schema.Statements.{Action, same_key, update_order, update_payments}
use cozy_backend.Orders.Status.{payment_retryable}
use cozy_backend.Orders.Create.{Notice}
use cozy_backend.Orders.Lifecycle.{
  lock_order_tx, by_id, cancel_unpaid_order_tx, mark_refund_required_tx, notify_order_paid,
  note_payment_cancelled,
}
use cozy_backend.Payments.Provider.{CallbackEvent, Provider}

-- The two results of `transition`.
pub data Verdict : Type 0 where
  ignore apply conflict : Verdict

-- `isUnpaidFinal`
abbrev pub is_unpaid_final : PaymentStatus → Bool
is_unpaid_final failed = true
is_unpaid_final PaymentStatus.cancelled = true
is_unpaid_final _ = false

-- `transition`, by the cases of its switch: the last clause is `default`.
unfoldable pub transition : PaymentStatus → PaymentStatus → Verdict
transition _ pending = ignore
transition pending refunded = conflict
transition pending _ = apply
transition paid paid = ignore
transition paid refunded = apply
transition refunded refunded = ignore
transition failed failed = ignore
transition failed PaymentStatus.cancelled = ignore
transition PaymentStatus.cancelled failed = ignore
transition PaymentStatus.cancelled PaymentStatus.cancelled = ignore
transition _ _ = conflict

-- `lateSuccess`
unfoldable pub late_success : PaymentStatus → PaymentStatus → Order → Bool
late_success current to o =
    if not (is_paid to) || not (is_unpaid_final current) then false else payment_retryable o

-- The verdict after `lateSuccess` has overruled a conflict.
unfoldable pub verdict : PaymentStatus → PaymentStatus → Order → Verdict
unfolding transition late_success
verdict current to o = elim (transition current to) [
  | conflict ↦ if late_success current to o then apply else conflict
  | v ↦ v
]

-- `CallbackResult`
pub record CallbackResult : Type 0 where
  pub payment_id : ℕ
  pub order_id : ℕ
  pub status : PaymentStatus
  pub applied : Bool
  pub order_cancelled : Bool
  pub refund_required : Bool

abbrev pub unapplied : Payment → CallbackResult
unapplied p = record {
  payment_id = p.id;
  order_id = p.order_id;
  status = p.status;
  applied = false;
  order_cancelled = false;
  refund_required = false;
}

abbrev pub payment_by_id : ℕ → Payment → Bool
payment_by_id id p = p.id == id

abbrev pub matches_event : Text → Text → Payment → Bool
matches_event provider external_id p =
    same_text p.provider provider && same_key p.provider_tx_id external_id

-- Money that came after the payment was given up: the customer must be refunded.
unfoldable pub flag_late_money : Env → Text → Payment → Action CallbackResult
flag_late_money env raw p = do
  modify (
      update_payments (payment_by_id p.id)
        (λ r. record r { raw_webhook = some raw; updated_at = env.now }))
  mark_refund_required_tx env p.order_id
  pure (record (unapplied p) { refund_required = true })

-- The branch on a conflict.
unfoldable pub handle_conflict : Env → CallbackEvent → Text → Payment → Action CallbackResult
unfolding flag_late_money
handle_conflict env ev raw p =
    if is_paid ev.status && is_unpaid_final p.status
    then flag_late_money env raw p
    else pure (unapplied p)

abbrev pub settle_row : Env → PaymentStatus → Text → Payment → Payment
settle_row env to raw r = record r { status = to; raw_webhook = some raw; updated_at = env.now }

-- A paid payment closes every other pending attempt of its order.
unfoldable pub close_others : Env → PaymentStatus → Payment → Action Unit
close_others env paid p = modify (
    update_payments (λ r. r.order_id == p.order_id && is_pending r.status && not (r.id == p.id))
      (λ r. record r { status = PaymentStatus.cancelled; updated_at = env.now }))
close_others env _ p = pure tt

abbrev pub pay_row : Env → PaymentStatus → Order → Order
pay_row env to o = record o { payment_status = some to; updated_at = env.now }

-- The order after its payment: a paid order that was cancelled is flagged, and a payment that the
-- customer cancelled gives the stock back.
unfoldable pub settle_order : Env → PaymentStatus → Order → Payment → Action CallbackResult
settle_order env paid o p =
    if is_cancelled o.status
    then mark_refund_required_tx env p.order_id
      >> pure (record (unapplied p) { status = paid; applied = true; refund_required = true })
    else pure (record (unapplied p) { status = paid; applied = true })
settle_order env PaymentStatus.cancelled o p = do
  done ← cancel_unpaid_order_tx env p.order_id (some note_payment_cancelled)
  pure (record (unapplied p) {
    status = PaymentStatus.cancelled;
    applied = true;
    order_cancelled = done;
  })
settle_order env to o p = pure (record (unapplied p) { status = to; applied = true })

-- The branch on an event that is applied to a payment of the locked order `o`.
unfoldable pub handle_apply : Env → CallbackEvent → Text → Order → Payment → Action CallbackResult
unfolding settle_order close_others
handle_apply env ev raw o p = do
  raise_if (is_paid ev.status && not (ev.amount == p.amount)) amount_mismatch
  modify (update_payments (payment_by_id p.id) (settle_row env ev.status raw))
  close_others env ev.status p
  modify (update_order p.order_id (pay_row env ev.status))
  settle_order env ev.status o p

unfoldable pub handle_verdict :
    Env → CallbackEvent → Text → Order → Payment → Verdict → Action CallbackResult
unfolding handle_conflict handle_apply
handle_verdict env ev raw o p ignore = pure (unapplied p)
handle_verdict env ev raw o p conflict = handle_conflict env ev raw p
handle_verdict env ev raw o p apply = handle_apply env ev raw o p

-- The transaction of HandleCallback, for an authenticated event.
unfoldable pub callback_tx : Env → Text → CallbackEvent → Text → Action CallbackResult
unfolding handle_verdict verdict lock_order_tx
callback_tx env provider ev raw = do
  row ← gets (λ db. first_row (matches_event provider ev.external_id) db.payments)
  p ← or_raise payment_not_found row
  o ← lock_order_tx (by_id p.order_id)
  handle_verdict env ev raw o p (verdict p.status ev.status o)

-- What staff are told: of money that is in, for an order that stands.
abbrev callback_notices : CallbackResult → Db → List Notice
callback_notices res db =
    if res.applied && is_paid res.status && not res.refund_required
    then notify_order_paid res.order_id db
    else []

-- `HandleCallback`
unfoldable pub handle_callback :
    Env → Provider → Text → Text → Text → Action (CallbackResult × List Notice)
unfolding callback_tx
handle_callback env provider provider_name header body = do
  raise_if (not (same_text provider_name provider.name)) payment_provider_not_found
  ev ← lift (provider.parse_callback header body)
  res ← with_tx (callback_tx env provider_name ev (provider.raw_json ev.raw))
  notices ← gets (callback_notices res)
  pure (res, notices)
