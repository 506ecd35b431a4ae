-- ===== src/Payments/Repeats.antt =====
-- What a callback may do to a payment, and callbacks that come again (transition, lateSuccess and
-- HandleCallback in internal/payments/service.go).
use cozy_backend.Base.{◌≡◌, refl, some, first_row, false}
use cozy_backend.Apperr.{ok}
use cozy_backend.Dbtx.{◌>>=◌}
use cozy_backend.Schema.Text.{Text}
use cozy_backend.Schema.Rows.{
  PaymentStatus, pending, paid, failed, refunded, Order, Payment, Db, Env,
}
use cozy_backend.Orders.Lifecycle.{lock_order_tx, by_id}
use cozy_backend.Payments.Provider.{CallbackEvent}
use cozy_backend.Payments.Money.{is_unpaid}
use cozy_backend.Payments.Callback.{
  ignore, apply, transition, late_success, verdict, matches_event, unapplied, handle_verdict,
  callback_tx,
}

verdict_same : (s : PaymentStatus) (o : Order) → verdict s s o ≡ ignore
unfolding verdict transition late_success
verdict_same pending o = refl
verdict_same paid o = refl
verdict_same failed o = refl
verdict_same PaymentStatus.cancelled o = refl
verdict_same refunded o = refl

-- A callback that reports the status which its payment has already got changes no table and reports
-- nothing as applied.
pub callback_repeated :
    (env : Env) (provider : Text) (ev : CallbackEvent) (raw : Text) (db : Db) (p : Payment)
    (o : Order)
    → first_row (matches_event provider ev.external_id) db.payments ≡ some p
    → first_row (by_id p.order_id) db.orders ≡ some o
    → ev.status ≡ p.status
    → callback_tx env provider ev raw db ≡ (ok (unapplied p), db)
unfolding callback_tx lock_order_tx handle_verdict ◌>>=◌
callback_repeated env provider ev raw db p o found order same =
    simp (found, order, same, verdict_same p.status o)

-- Money that is in stays in: an event that is applied to a payment which is paid or refunded never
-- makes it pending, failed or cancelled, whatever state its order is in.
pub verdict_keeps_money :
    (current to : PaymentStatus) (o : Order)
    → is_unpaid current ≡ false
    → verdict current to o ≡ apply
    → is_unpaid to ≡ false
unfolding verdict transition late_success
verdict_keeps_money pending to o h k = cc
verdict_keeps_money failed to o h k = cc
verdict_keeps_money PaymentStatus.cancelled to o h k = cc
verdict_keeps_money paid paid o h k = refl
verdict_keeps_money paid refunded o h k = refl
verdict_keeps_money paid pending o h k = cc
verdict_keeps_money paid failed o h k = cc
verdict_keeps_money paid PaymentStatus.cancelled o h k = cc
verdict_keeps_money refunded paid o h k = refl
verdict_keeps_money refunded refunded o h k = refl
verdict_keeps_money refunded pending o h k = cc
verdict_keeps_money refunded failed o h k = cc
verdict_keeps_money refunded PaymentStatus.cancelled o h k = cc
