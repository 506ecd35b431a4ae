-- ===== src/Services/Payments.antt =====
-- The services of internal/payments keep what their statements keep.
use cozy_backend.Base.{ℕ, ◌≡◌, refl, Bool, true, Option, List, [], ◌∷◌, arith, Bool-cases, inl, inr}
use cozy_backend.Dbtx.{modify}
use cozy_backend.Dbtx.Ensures.{Ensures-bind, Ensures-weaken, Ensures-if, Ensures-pure}
use cozy_backend.Dbtx.Keeps.{Keeps, keeps_rules, pure-Keeps, if-Keeps}
use cozy_backend.Dbtx.Always.{Always, always_rules, with_tx-Always}
use cozy_backend.Schema.Text.{Text}
use cozy_backend.Schema.Rows.{OrderStatus, PaymentStatus, paid, Order, Payment, Db, Env, is_placed}
use cozy_backend.Schema.Statements.{update_payments}
use cozy_backend.Orders.Status.{valid_status_transition}
use cozy_backend.Orders.Lifecycle.{mark_refund_required_tx, cancel_unpaid_order_tx, by_id}
use cozy_backend.Payments.Provider.{CallbackEvent, Provider}
use cozy_backend.Payments.Callback.{
  Verdict, ignore, apply, conflict, flag_late_money, handle_conflict, close_others, settle_order,
  handle_apply, handle_verdict, callback_tx, handle_callback,
}
use cozy_backend.Payments.Session.{fail_placed_order, fail_attempt, abort_tx, abort, open_session}
use cozy_backend.Payments.Expiry.{
  expire_one_tx, expire_one, expire_all, expired_ids, expire_pending,
}
use cozy_backend.Services.{Laws}
use cozy_backend.Services.Orders.{lock_order_tx-Keeps}

placed-valid :
    (s : OrderStatus) → is_placed s ≡ true → valid_status_transition s OrderStatus.cancelled ≡ true
unfolding valid_status_transition
placed-valid s h = ground arith

module _ {P : Db → Type 0} (laws : Laws P) where
  mark_refund_required_tx-Keeps : (env : Env) (id : ℕ) → Keeps P (mark_refund_required_tx env id)
  unfolding mark_refund_required_tx
  mark_refund_required_tx-Keeps env id = laws.updates id _ (λ o. (refl, refl, refl))

  cancel_unpaid_order_tx-Keeps :
      (env : Env) (id : ℕ) (remark : Option Text) → Keeps P (cancel_unpaid_order_tx env id remark)
  unfolding cancel_unpaid_order_tx
  cancel_unpaid_order_tx-Keeps env id remark = Ensures-bind _ _ _ _ (laws.locks (by_id id)) λ o.
      Ensures-if _ (is_placed o.status) _ _
        (λ e.
          Ensures-bind (λ _. P) _ _ _
            (Ensures-weaken _ _ _ (λ s h. h.0) (λ a s h. h)
              (laws.cancels env o _ _ (placed-valid o.status e)))
            (λ _. pure-Keeps _ _))
        (λ _. Ensures-pure _ _ (λ s h. h.0.0))

  flag_late_money-Keeps :
      (env : Env) (raw : Text) (p : Payment) → Keeps P (flag_late_money env raw p)
  unfolding flag_late_money
  flag_late_money-Keeps env raw p =
      search (keeps_rules, laws.updates_payments, mark_refund_required_tx-Keeps)

  close_others-Keeps :
      (env : Env) (to : PaymentStatus) (p : Payment) → Keeps P (close_others env to p)
  unfolding close_others
  close_others-Keeps env paid p = search laws.updates_payments
  close_others-Keeps env _ p = pure-Keeps _ _

  settle_order-Keeps :
      (env : Env) (to : PaymentStatus) (o : Order) (p : Payment) → Keeps P (settle_order env to o p)
  unfolding settle_order
  settle_order-Keeps env paid o p = search (keeps_rules, mark_refund_required_tx-Keeps)
  settle_order-Keeps env PaymentStatus.cancelled o p =
      search (keeps_rules, cancel_unpaid_order_tx-Keeps)
  settle_order-Keeps env _ o p = pure-Keeps _ _

  handle_apply-Keeps :
      (env : Env) (ev : CallbackEvent) (raw : Text) (o : Order) (p : Payment)
      → Keeps P (handle_apply env ev raw o p)
  unfolding handle_apply
  handle_apply-Keeps env ev raw o p =
      search
        (keeps_rules, laws.updates_payments, close_others-Keeps, laws.updates, settle_order-Keeps)
        depth 12

  handle_verdict-Keeps :
      (env : Env) (ev : CallbackEvent) (raw : Text) (o : Order) (p : Payment) (d : Verdict)
      → Keeps P (handle_verdict env ev raw o p d)
  unfolding handle_verdict handle_conflict
  handle_verdict-Keeps env ev raw o p ignore = pure-Keeps _ _
  handle_verdict-Keeps env ev raw o p conflict =
      if-Keeps _ _ _ _ (flag_late_money-Keeps env raw p) (pure-Keeps _ _)
  handle_verdict-Keeps env ev raw o p apply = handle_apply-Keeps env ev raw o p

  callback_tx-Keeps :
      (env : Env) (provider : Text) (ev : CallbackEvent) (raw : Text)
      → Keeps P (callback_tx env provider ev raw)
  unfolding callback_tx
  callback_tx-Keeps env provider ev raw =
      search (keeps_rules, lock_order_tx-Keeps laws, handle_verdict-Keeps) depth 8

  pub handle_callback-Always :
      (env : Env) (provider : Provider) (name header body : Text)
      → Always P (handle_callback env provider name header body)
  unfolding handle_callback
  handle_callback-Always env provider name header body =
      search (always_rules, callback_tx-Keeps) depth 8

  fail_order-Keeps : (env : Env) (id : ℕ) → Keeps P (modify (fail_placed_order env id))
  fail_order-Keeps env id = laws.updates id _ (λ o. elim (Bool-cases (is_placed o.status)) [
    | inl e ↦ rw e (refl, refl, refl)
    | inr e ↦ rw e (refl, refl, refl)
  ])

  pub fail_attempt-Always :
      (env : Env) (payment_id order_id : ℕ) → Always P (fail_attempt env payment_id order_id)
  unfolding fail_attempt
  fail_attempt-Always env payment_id order_id = with_tx-Always _ _ (
      search (keeps_rules, lock_order_tx-Keeps laws, laws.updates_payments, fail_order-Keeps) depth
        10)

  abort_tx-Keeps :
      (env : Env) (payment_id order_id : ℕ) → Keeps P (abort_tx env payment_id order_id)
  unfolding abort_tx
  abort_tx-Keeps env payment_id order_id =
      search
        (
          keeps_rules,
          lock_order_tx-Keeps laws,
          laws.updates_payments,
          laws.updates,
          cancel_unpaid_order_tx-Keeps,
        )
        depth 12

  pub abort-Always :
      (env : Env) (payment_id order_id : ℕ) → Always P (abort env payment_id order_id)
  unfolding abort
  abort-Always env payment_id order_id = search (always_rules, abort_tx-Keeps)

  update_payments-Always :
      (test : Payment → Bool) (f : Payment → Payment) → Always P (modify (update_payments test f))
  update_payments-Always test f = record { at = (laws.updates_payments test f).at }

  pub open_session-Always :
      (env : Env) (provider : Provider) (o : Order) (payment_id : ℕ)
      → Always P (open_session env provider o payment_id)
  unfolding open_session
  open_session-Always env provider o payment_id =
      search (always_rules, update_payments-Always) depth 10

  expire_one_tx-Keeps : (env : Env) (ttl id : ℕ) → Keeps P (expire_one_tx env ttl id)
  unfolding expire_one_tx
  expire_one_tx-Keeps env ttl id = search (keeps_rules, cancel_unpaid_order_tx-Keeps) depth 8

  pub expire_one-Always : (env : Env) (ttl id : ℕ) → Always P (expire_one env ttl id)
  unfolding expire_one
  expire_one-Always env ttl id = search (always_rules, expire_one_tx-Keeps)

  expire_all-Keeps :
      (env : Env) (ttl : ℕ) (ids : List ℕ) (k : ℕ) (db : Db)
      → P db
      → P (expire_all env ttl ids k db).1
  unfolding expire_all
  expire_all-Keeps env ttl [] k db h = h
  expire_all-Keeps env ttl (id ∷ ids) k db h =
      expire_all-Keeps env ttl ids _ (expire_one env ttl id db).1
        ((expire_one-Always env ttl id).at db h)

  pub expire_pending-Keeps :
      (env : Env) (ttl : ℕ) (db : Db) → P db → P (expire_pending env ttl db).1
  unfolding expire_pending
  expire_pending-Keeps env ttl db h = expire_all-Keeps env ttl (expired_ids env ttl db) 0 db h
