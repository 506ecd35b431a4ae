-- ===== src/Orders/Attempts.antt =====
-- Online orders and their payment attempts (internal/orders/payment.go).
use cozy_backend.Base.{ℕ, not, none, some, leb, ◌==◌, count_rows}
use cozy_backend.Apperr.{payment_not_retryable, too_many_attempts}
use cozy_backend.Dbtx.{pure, gets, with_tx, modify, raise_if, ◌>>=◌, ◌>>◌}
use cozy_backend.Schema.Text.{Text, IdText}
use cozy_backend.Schema.Rows.{online_card, pending, Order, Payment, Db, Env}
use cozy_backend.Schema.Statements.{Action, update_order, cancel_pending_payments, insert_payment}
use cozy_backend.Orders.Settings.{Settings, max_payment_attempts}
use cozy_backend.Orders.Status.{payment_retryable}
use cozy_backend.Orders.Input.{PlaceOrderInput}
use cozy_backend.Orders.Create.{Reply, create_order}
use cozy_backend.Orders.Lifecycle.{lock_order_tx, owned}

-- A new pending attempt to pay an order.
abbrev pub new_payment : Env → Text → Order → Payment
new_payment env provider o = record {
  id = env.payment_id;
  order_id = o.id;
  provider = provider;
  provider_tx_id = none;
  status = pending;
  amount = o.total_amount;
  redirect_url = none;
  raw_webhook = none;
  created_at = env.now;
  updated_at = env.now;
}

-- `CreateOnlineOrder`; the id of its payment is `env.payment_id`.
unfoldable pub create_online_order : Env → Settings → Text → PlaceOrderInput → Action Reply
unfolding create_order
create_online_order env st provider =
    create_order env st online_card (λ o. insert_payment (new_payment env provider o))

abbrev pub attempts : ℕ → Db → ℕ
attempts order_id db = count_rows (λ p. p.order_id == order_id) db.payments

abbrev pub reopen_row : Env → Order → Order
reopen_row env o = record o { payment_status = some pending; updated_at = env.now }

unfoldable pub prepare_retry_tx : Env → Text → ℕ → IdText → Action Order
unfolding lock_order_tx
prepare_retry_tx env provider customer_id key = do
  o ← lock_order_tx (owned customer_id key)
  raise_if (not (payment_retryable o)) payment_not_retryable
  n ← gets (attempts o.id)
  raise_if (leb max_payment_attempts n) too_many_attempts
  modify (cancel_pending_payments env o.id)
  insert_payment (new_payment env provider o)
  modify (update_order o.id (reopen_row env))
  pure (reopen_row env o)

-- `PrepareRetryPayment`; the id of the new attempt is `env.payment_id`.
unfoldable pub prepare_retry_payment : Env → Text → ℕ → IdText → Action Order
unfolding prepare_retry_tx
prepare_retry_payment env provider customer_id key =
    with_tx (prepare_retry_tx env provider customer_id key)
