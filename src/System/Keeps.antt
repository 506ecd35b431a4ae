-- ===== src/System/Keeps.antt =====
-- What the statements keep, every run of events keeps.
use cozy_backend.Base.{List, [], ◌∷◌}
use cozy_backend.Schema.Rows.{Db, Env}
use cozy_backend.Orders.Settings.{Settings}
use cozy_backend.Payments.Provider.{Provider}
use cozy_backend.Services.{Laws}
use cozy_backend.Services.Orders.{
  place_order-Always, create_online_order-Always, admin_update_status-Always,
  cancel_by_customer-Always, prepare_retry_payment-Always,
}
use cozy_backend.Services.Payments.{
  handle_callback-Always, fail_attempt-Always, abort-Always, open_session-Always, expire_one-Always,
  expire_pending-Keeps,
}
use cozy_backend.System.{
  Event, place, place_online, admin_update, cancel, retry, open_checkout, abort_checkout,
  fail_checkout, callback, expire, expire_batch, step, run,
}

module _ {P : Db → Type 0} (laws : Laws P) (st : Settings) (provider : Provider) where
  step_keeps : (env : Env) (e : Event) (db : Db) → P db → P (step st provider env e db)
  unfolding step
  step_keeps env (place in_) = (place_order-Always laws env st in_).at
  step_keeps env (place_online in_) = (create_online_order-Always laws env st provider.name in_).at
  step_keeps env (admin_update actor key to) = (admin_update_status-Always laws env actor key to).at
  step_keeps env (cancel customer_id key) = (cancel_by_customer-Always laws env customer_id key).at
  step_keeps env (retry customer_id key) =
      (prepare_retry_payment-Always laws env provider.name customer_id key).at
  step_keeps env (open_checkout o payment_id) =
      (open_session-Always laws env provider o payment_id).at
  step_keeps env (abort_checkout payment_id order_id) =
      (abort-Always laws env payment_id order_id).at
  step_keeps env (fail_checkout payment_id order_id) =
      (fail_attempt-Always laws env payment_id order_id).at
  step_keeps env (callback name header body) =
      (handle_callback-Always laws env provider name header body).at
  step_keeps env (expire id) = (expire_one-Always laws env st.payment_pending_ttl id).at
  step_keeps env expire_batch = expire_pending-Keeps laws env st.payment_pending_ttl

  pub run_keeps : (es : List (Env × Event)) (db : Db) → P db → P (run st provider es db)
  unfolding run
  run_keeps [] db h = h
  run_keeps ((env, e) ∷ es) db h = run_keeps es (step st provider env e db) (step_keeps env e db h)
