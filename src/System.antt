-- ===== src/System.antt =====
-- The order and payment services as one system: requests, callbacks and the expiry job arrive in any
-- order, and each transaction is one step. The two halves of PlaceOnlineOrder and RetryPayment
-- (internal/payments/service.go) are steps of their own, since the call of the provider stands
-- between them.
mod Keeps
pub mod Conservation
pub mod History
pub mod Shop
mod Tests
use cozy_backend.Base.{ℕ, Option, List, [], ◌∷◌}
use cozy_backend.Schema.Text.{Text, IdText}
use cozy_backend.Schema.Rows.{OrderStatus, Order, Actor, Db, Env}
use cozy_backend.Orders.Settings.{Settings}
use cozy_backend.Orders.Input.{PlaceOrderInput}
use cozy_backend.Orders.Create.{place_order}
use cozy_backend.Orders.Lifecycle.{admin_update_status, cancel_by_customer}
use cozy_backend.Orders.Attempts.{create_online_order, prepare_retry_payment}
use cozy_backend.Payments.Provider.{Provider}
use cozy_backend.Payments.Callback.{handle_callback}
use cozy_backend.Payments.Session.{open_session, fail_attempt, abort}
use cozy_backend.Payments.Expiry.{expire_one, expire_pending}

pub data Event : Type 0 where
  place place_online : PlaceOrderInput → Event
  admin_update : Option Actor → IdText → OrderStatus → Event
  cancel retry : ℕ → IdText → Event
  open_checkout : Order → ℕ → Event
  abort_checkout fail_checkout : ℕ → ℕ → Event
  callback : Text → Text → Text → Event
  expire : ℕ → Event
  expire_batch : Event

module _ (st : Settings) (provider : Provider) where
  -- What one event does to the tables.
  unfoldable pub step : Env → Event → Db → Db
  step env (place in_) db = (place_order env st in_ db).1
  step env (place_online in_) db = (create_online_order env st provider.name in_ db).1
  step env (admin_update actor key to) db = (admin_update_status env actor key to db).1
  step env (cancel customer_id key) db = (cancel_by_customer env customer_id key db).1
  step env (retry customer_id key) db =
      (prepare_retry_payment env provider.name customer_id key db).1
  step env (open_checkout o payment_id) db = (open_session env provider o payment_id db).1
  step env (abort_checkout payment_id order_id) db = (abort env payment_id order_id db).1
  step env (fail_checkout payment_id order_id) db = (fail_attempt env payment_id order_id db).1
  step env (callback name header body) db = (handle_callback env provider name header body db).1
  step env (expire id) db = (expire_one env st.payment_pending_ttl id db).1
  step env expire_batch db = (expire_pending env st.payment_pending_ttl db).1

  unfoldable pub run : List (Env × Event) → Db → Db
  unfolding step
  run [] db = db
  run ((env, e) ∷ rest) db = run rest (step env e db)
