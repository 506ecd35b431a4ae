-- ===== src/Payments/Money.antt =====
-- Money that a gateway reports is never lost sight of (HandleCallback in
-- internal/payments/service.go); Money/Taken has the branch that applies a payment.
pub mod Taken
use cozy_backend.Base.{
  ◌||◌, ℕ, ◌≡◌, refl, Bool, true, false, not, ◌&&◌, some, first_row, if◌then◌else◌,
}
use cozy_backend.Dbtx.{◌>>=◌}
use cozy_backend.Dbtx.Ensures.{
  Ensures, Post, Ensures-bind, Ensures-pure, Ensures-weaken, Ensures-modify, Ensures-if,
}
use cozy_backend.Schema.Text.{Text}
use cozy_backend.Schema.Rows.{
  PaymentStatus, pending, paid, failed, refunded, Order, Payment, Db, Env, is_pending,
}
use cozy_backend.Orders.Status.{payment_retryable}
use cozy_backend.Schema.Statements.{update_order}
use cozy_backend.Orders.Lifecycle.{lock_order_tx, by_id, mark_refund_required_tx}
use cozy_backend.Payments.Callback.{
  Verdict, apply, conflict, transition, late_success, verdict, matches_event, handle_verdict,
  handle_apply, handle_conflict, flag_late_money, callback_tx, is_unpaid_final,
}
use cozy_backend.Payments.Money.Taken.{IsLocked, update_order-Has, handle_apply-IsTaken}
pub use cozy_backend.Payments.Money.Taken.{Has, IsAccounted, paid_event}

-- The payment is not known to be paid.
abbrev pub is_unpaid : PaymentStatus → Bool
is_unpaid pending = true
is_unpaid failed = true
is_unpaid PaymentStatus.cancelled = true
is_unpaid _ = false

module _ (env : Env) (external_id raw : Text) (amount : ℕ) (event_raw : Text) (p : Payment)
    (o : Order) where
  -- What the branch on a verdict does to the money.
  abbrev Handles : Verdict → Type 0
  Handles v =
      Ensures (Has p.order_id (IsLocked env p o))
        (handle_verdict env (paid_event external_id amount event_raw) raw o p v) (IsAccounted p o)

  apply-Handles : (is_pending p.status || payment_retryable o) ≡ true → Handles apply
  unfolding handle_verdict
  apply-Handles payable =
      Ensures-weaken _ _ _ (λ s h. h) (λ res s h. rw payable h)
        (handle_apply-IsTaken env p o external_id raw amount event_raw)

  conflict-Handles :
      (is_pending p.status || payment_retryable o) ≡ false
      → is_unpaid_final p.status ≡ true
      → Handles conflict
  unfolding handle_verdict handle_conflict flag_late_money mark_refund_required_tx
  conflict-Handles closed final =
      Ensures-if _ (true && is_unpaid_final p.status) _ _
        (λ e.
          Ensures-bind (λ _ s. Has p.order_id (IsLocked env p o) s × Unit) _ _ _
            (Ensures-modify (λ s. Has p.order_id (IsLocked env p o) s × Unit) _ (λ s h. (h, tt)))
            λ _.
              Ensures-bind _ _ _ _
                (update_order-Has p.order_id _ (IsLocked env p o) (λ x. x.refund_required ≡ true)
                  (λ _. Unit) (λ x. refl) (λ x h. refl))
                λ _. Ensures-pure _ _ (λ s h. rw closed (h.0.0, h.0.1, (h.0.2, refl))))
        (λ e. cc)

  late-Handles :
      is_pending p.status ≡ false
      → is_unpaid_final p.status ≡ true
      → (b : Bool) → payment_retryable o ≡ b
      → Handles (if b then apply else conflict)
  late-Handles idle final true e = apply-Handles (rw (idle, e) refl)
  late-Handles idle final false e = conflict-Handles (rw (idle, e) refl) final

  verdict-Handles :
      (current : PaymentStatus)
      → p.status ≡ current
      → is_unpaid current ≡ true
      → Handles (verdict current paid o)
  unfolding verdict transition late_success
  verdict-Handles pending e h = apply-Handles (rw e refl)
  verdict-Handles failed e h = late-Handles (rw e refl) (rw e refl) (payment_retryable o) refl
  verdict-Handles PaymentStatus.cancelled e h =
      late-Handles (rw e refl) (rw e refl) (payment_retryable o) refl
  verdict-Handles paid e h = cc
  verdict-Handles refunded e h = cc

locked-Handles :
    (env : Env) (external_id raw : Text) (amount : ℕ) (event_raw : Text) (p : Payment) (o : Order)
    (db : Db)
    → is_unpaid p.status ≡ true
    → first_row (by_id p.order_id) db.orders ≡ some o
    → Post (IsAccounted p o) (
        (lock_order_tx (by_id p.order_id) >>= λ x.
        handle_verdict env
          (paid_event external_id amount event_raw)
          raw
          x
          p
          (verdict p.status paid x))
          db)
unfolding lock_order_tx ◌>>=◌
locked-Handles env external_id raw amount event_raw p o db unpaid found = rw found (
    (verdict-Handles env external_id raw amount event_raw p o p.status refl unpaid).at db
      (o, found, refl))

-- If a callback reports a payment as paid that was not known to be paid (pending, failed or
-- cancelled) and HandleCallback's transaction returns, then the money is accounted for. Where the
-- payment was pending or its order could still be paid: the payment is applied and paid, the order
-- counts as paid, and if it is cancelled it is flagged for a refund. Otherwise the order is flagged
-- for a refund. Wherever the order is flagged in these cases, the result says so.
pub callback_paid-IsAccounted :
    (env : Env) (provider external_id event_raw raw : Text) (amount : ℕ) (db : Db) (p : Payment)
    (o : Order)
    → first_row (matches_event provider external_id) db.payments ≡ some p
    → first_row (by_id p.order_id) db.orders ≡ some o
    → is_unpaid p.status ≡ true
    → Post
        (IsAccounted p o)
        (callback_tx env provider (paid_event external_id amount event_raw) raw db)
unfolding callback_tx ◌>>=◌
callback_paid-IsAccounted env provider external_id event_raw raw amount db p o found known unpaid =
    rw found (locked-Handles env external_id raw amount event_raw p o db unpaid known)
