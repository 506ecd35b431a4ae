-- ===== src/Payments/Session.antt =====
-- Opening checkout sessions and undoing what could not be paid (internal/payments/service.go).
use cozy_backend.Base.{
  ℕ, Bool, true, false, not, ◌&&◌, ◌||◌, Option, none, some, List, [], ◌∷◌, ltb, ◌==◌,
  if◌then◌else◌, any_row,
}
use cozy_backend.Apperr.{Error, ok, err, internal, payment_create_failed}
use cozy_backend.Dbtx.{pure, lift, gets, with_tx, modify, raise_if, ◌>>=◌, ◌>>◌}
use cozy_backend.Schema.Text.{Text, IdText, same_text}
use cozy_backend.Schema.Rows.{failed, Order, Payment, Db, Env, is_pending, is_placed}
use cozy_backend.Schema.Statements.{Action, same_key, update_order, update_payments}
use cozy_backend.Orders.Settings.{Settings}
use cozy_backend.Orders.Input.{PlaceOrderInput}
use cozy_backend.Orders.Lifecycle.{
  lock_order_tx, by_id, cancel_unpaid_order_tx, note_payment_open_failed,
}
use cozy_backend.Orders.Attempts.{create_online_order, prepare_retry_payment}
use cozy_backend.Payments.Provider.{Session, Provider}
use cozy_backend.Payments.Callback.{payment_by_id}

abbrev store_row : Env → Session → Payment → Payment
store_row env s p = record p {
  provider_tx_id = some s.external_id;
  redirect_url = some s.redirect_url;
  updated_at = env.now;
}

-- Another payment of the provider carries the session's id: payments_provider_tx_uniq.
abbrev tx_taken : Provider → ℕ → Text → Payment → Bool
tx_taken provider id external_id p =
    not (p.id == id) && same_text p.provider provider.name && same_key p.provider_tx_id external_id

-- `openSession`
unfoldable pub open_session : Env → Provider → Order → ℕ → Action Text
open_session env provider o payment_id = do
  s ← lift (provider.create_payment payment_id o)
  taken ← gets (λ db. any_row (tx_taken provider payment_id s.external_id) db.payments)
  raise_if taken internal
  modify (update_payments (payment_by_id payment_id) (store_row env s))
  pure s.redirect_url

abbrev pub is_open_attempt : ℕ → Payment → Bool
is_open_attempt id p = p.id == id && is_pending p.status

abbrev pub fail_row : Env → Payment → Payment
fail_row env p = record p { status = failed; updated_at = env.now }

abbrev pub failed_order_row : Env → Order → Order
failed_order_row env o = record o { payment_status = some failed; updated_at = env.now }

-- The statements of failAttempt once the attempt was still pending.
abbrev pub fail_placed_order : Env → ℕ → Db → Db
fail_placed_order env id =
    update_order id (λ o. if is_placed o.status then failed_order_row env o else o)

-- `failAttempt`
unfoldable pub fail_attempt : Env → ℕ → ℕ → Action Unit
unfolding lock_order_tx
fail_attempt env payment_id order_id = with_tx do
  lock_order_tx (by_id order_id)
  hit ← gets (λ db. any_row (is_open_attempt payment_id) db.payments)
  modify (update_payments (is_open_attempt payment_id) (fail_row env))
  if hit then modify (fail_placed_order env order_id) else pure tt

abbrev pub abort_row : Env → Order → Order
abort_row env o = record o {
  payment_status = some failed;
  idempotency_key = none;
  updated_at = env.now;
}

unfoldable pub abort_tx : Env → ℕ → ℕ → Action Unit
unfolding lock_order_tx
abort_tx env payment_id order_id = do
  lock_order_tx (by_id order_id)
  hit ← gets (λ db. any_row (is_open_attempt payment_id) db.payments)
  modify (update_payments (is_open_attempt payment_id) (fail_row env))
  if hit
      then modify (update_order order_id (abort_row env))
        >> cancel_unpaid_order_tx env order_id (some note_payment_open_failed)
        >> pure tt
      else pure tt

-- `abort`
unfoldable pub abort : Env → ℕ → ℕ → Action Unit
unfolding abort_tx
abort env payment_id order_id = with_tx (abort_tx env payment_id order_id)

-- `sessionError`: an error of the provider's own, or 502 for any other.
abbrev pub session_error : Error → Error
session_error internal = payment_create_failed
session_error e = e

-- The later of two attempts: `ORDER BY created_at DESC, id DESC LIMIT 1`.
abbrev later : Payment → Option Payment → Payment
later p none = p
later p (some q) =
    if ltb p.created_at q.created_at || (p.created_at == q.created_at && ltb p.id q.id)
    then q
    else p

unfoldable pub latest_payment : ℕ → List Payment → Option Payment
latest_payment order_id [] = none
latest_payment order_id (p ∷ ps) =
    let rest = latest_payment order_id ps in
    if p.order_id == order_id then some (later p rest) else rest

abbrev url_of : Option Text → Text
url_of none = []
url_of (some url) = url

-- `pendingPaymentURL`: "" when there is nothing to open.
unfoldable pub pending_payment_url : ℕ → Db → Text
unfolding latest_payment
pending_payment_url order_id db = elim (latest_payment order_id db.payments) [
  | none ↦ []
  | some p ↦ if is_pending p.status then url_of p.redirect_url else []
]

-- Runs a block; if it fails, the clean-up is run, its own failure is only logged, and the error
-- is passed on as the customer sees it.
unfoldable pub or_clean_up : {A : Type 0} → Action A → Action Unit → Action A
or_clean_up m clean_up db =
    let (r, db') = m db in
    elim r [ ok a ↦ (ok a, db') | err e ↦ (err (session_error e), (clean_up db').1) ]

-- The order, whether it is new, and where the customer pays.
pub record Checkout : Type 0 where
  pub order : Order
  pub is_new : Bool
  pub url : Text

-- A new order gets its session; if none opens, the order is undone.
unfoldable pub open_checkout : Env → Provider → Order → Action Checkout
unfolding open_session abort or_clean_up
open_checkout env provider o = do
  url ← or_clean_up (open_session env provider o env.payment_id) (abort env env.payment_id o.id)
  pure (record { order = o; is_new = true; url = url })

-- An earlier order keeps the session of its pending payment.
unfoldable pub replay_checkout : Order → Action Checkout
unfolding pending_payment_url
replay_checkout o = do
  url ← gets (pending_payment_url o.id)
  pure (record { order = o; is_new = false; url = url })

-- `PlaceOnlineOrder`
unfoldable pub place_online_order : Env → Settings → Provider → PlaceOrderInput → Action Checkout
unfolding create_online_order open_checkout replay_checkout
place_online_order env st provider in_ = do
  lift provider.ready
  r ← create_online_order env st provider.name in_
  if r.is_new then open_checkout env provider r.order else replay_checkout r.order

-- `RetryPayment`
unfoldable pub retry_payment : Env → Provider → ℕ → IdText → Action Text
unfolding prepare_retry_payment open_session fail_attempt or_clean_up
retry_payment env provider customer_id key = do
  lift provider.ready
  o ← prepare_retry_payment env provider.name customer_id key
  or_clean_up (open_session env provider o env.payment_id) (fail_attempt env env.payment_id o.id)
