-- ===== src/Payments/Money/Taken.antt =====
-- A paid payment that HandleCallback applies (internal/payments/service.go).
use cozy_backend.Base.{
  ◌||◌, All, All-always, All-update_rows, ℕ, ◌≡◌, refl, ap, ◌∙◌, true, false, not, ◌&&◌, some, List,
  first_row, update_rows, arith, ◌==◌, if◌then◌else◌,
}
use cozy_backend.Dbtx.{modify}
use cozy_backend.Dbtx.Ensures.{
  Ensures, Ensures-bind, Ensures-pure, Ensures-guard, Ensures-modify, Ensures-if,
}
use cozy_backend.Schema.Text.{Text}
use cozy_backend.Schema.Rows.{
  PaymentStatus, paid, OrderStatus, Order, Payment, Db, Env, is_cancelled, is_pending,
}
use cozy_backend.Orders.Status.{payment_retryable}
use cozy_backend.Schema.Statements.{update_order}
use cozy_backend.Goods.Laws.{updated, find_order-update}
use cozy_backend.Orders.Lifecycle.{by_id, mark_refund_required_tx}
use cozy_backend.Payments.Provider.{CallbackEvent}
use cozy_backend.Payments.Callback.{
  payment_by_id, settle_row, CallbackResult, handle_apply, close_others, settle_order, pay_row,
}

-- The order under an id is there, and has a property.
abbrev pub Has : ℕ → (Order → Type 0) → Db → Type 0
Has id P s = (o : Order) × (first_row (by_id id) s.orders ≡ some o) × P o

first_row-update_rows :
    (id : ℕ) (f : Order → Order) (os : List Order) (o : Order)
    → ((x : Order) → (f x).id ≡ x.id)
    → first_row (by_id id) os ≡ some o
    → first_row (by_id id) (update_rows (by_id id) f os) ≡ some (f o)
first_row-update_rows id f os o same h =
    find_order-update id id f os same ∙ ap (updated id id f) h ∙ ground arith

-- An update of the order keeps what is known of the payments.
pub update_order-Has :
    (id : ℕ) (f : Order → Order) (P Q : Order → Type 0) (R : List Payment → Type 0)
    → ((x : Order) → (f x).id ≡ x.id)
    → ((x : Order) → P x → Q (f x))
    → Ensures
        (λ s. Has id P s × R s.payments)
        (modify (update_order id f))
        (λ _ s. Has id Q s × R s.payments)
update_order-Has id f P Q R same imp =
    Ensures-modify (λ s. Has id Q s × R s.payments) (update_order id f)
      (λ s h.
        ((f h.0.0, first_row-update_rows id f s.orders h.0.0 same h.0.1, imp h.0.0 h.0.2), h.1))

-- The order counts as paid.
abbrev pub IsPaid : Order → Type 0
IsPaid o = o.payment_status ≡ some paid

-- Staff are to refund the order, and the caller is told.
abbrev pub IsRefundable : CallbackResult → Order → Type 0
IsRefundable res o = (o.refund_required ≡ true) × (res.refund_required ≡ true)

-- The money was taken for the order, which counts as paid, and if it is cancelled it is refundable.
abbrev pub IsTaken : CallbackResult → Order → Type 0
IsTaken res o =
    (res.applied ≡ true) × IsPaid o × (is_cancelled o.status ≡ true → IsRefundable res o)

-- The payment is paid.
abbrev pub ArePaid : ℕ → List Payment → Type 0
ArePaid id rows = All (λ r. (r.id == id) ≡ true → r.status ≡ paid) rows

-- Where the payment was pending or the order can still be paid, the money is taken; else it is for
-- a refund.
abbrev pub IsAccounted : Payment → Order → CallbackResult → Db → Type 0
IsAccounted p o res s =
    if is_pending p.status || payment_retryable o
    then Has p.order_id (IsTaken res) s × ArePaid p.id s.payments
    else Has p.order_id (IsRefundable res) s

settled-ArePaid :
    (env : Env) (id : ℕ) (raw : Text) (rows : List Payment)
    → ArePaid id (update_rows (payment_by_id id) (settle_row env paid raw) rows)
settled-ArePaid env id raw rows =
    All-update_rows (λ _. Unit) (λ r. (r.id == id) ≡ true → r.status ≡ paid) (payment_by_id id)
      (settle_row env paid raw) rows (λ r _ _ _. refl)
      (λ r _ miss mine. absurd (ground (arith, miss, mine))) (All-always (λ _. Unit) rows (λ _. tt))

closed-ArePaid :
    (env : Env) (p : Payment) (rows : List Payment)
    → ArePaid p.id rows
    → ArePaid p.id (
        update_rows
          (λ r. r.order_id == p.order_id && is_pending r.status && not (r.id == p.id))
          (λ r. record r { status = PaymentStatus.cancelled; updated_at = env.now })
          rows)
closed-ArePaid env p rows h =
    All-update_rows (λ r. (r.id == p.id) ≡ true → r.status ≡ paid)
      (λ r. (r.id == p.id) ≡ true → r.status ≡ paid)
      (λ r. r.order_id == p.order_id && is_pending r.status && not (r.id == p.id))
      (λ r. record r { status = PaymentStatus.cancelled; updated_at = env.now }) rows
      (λ r _ hit mine. absurd (ground (arith, hit, mine))) (λ r k _. k) h

-- The event that reports a payment as paid.
abbrev pub paid_event : Text → ℕ → Text → CallbackEvent
paid_event external_id amount raw = record {
  external_id = external_id;
  status = paid;
  amount = amount;
  raw = raw;
}

module _ (env : Env) (p : Payment) (o : Order) where
  -- The order as it was locked, up to what its payment changes.
  abbrev pub IsLocked : Order → Type 0
  IsLocked x = x.status ≡ o.status

  clash :
      (x : OrderStatus) → x ≡ o.status → is_cancelled x ≡ true → is_cancelled o.status ≡ false → ⊥
  clash x same gone stands = let gone' : is_cancelled o.status ≡ true = rw (← same) gone in cc

  settle_order-IsTaken :
      Ensures
        (λ s. Has p.order_id (λ x. IsPaid x × IsLocked x) s × ArePaid p.id s.payments)
        (settle_order env paid o p)
        (λ res s. Has p.order_id (IsTaken res) s × ArePaid p.id s.payments)
  unfolding settle_order mark_refund_required_tx
  settle_order-IsTaken =
      Ensures-if _ (is_cancelled o.status) _ _
        (λ e.
          Ensures-bind _ _ _ _
            (update_order-Has p.order_id _ (λ x. IsPaid x × IsLocked x)
              (λ x. IsPaid x × (x.refund_required ≡ true)) (ArePaid p.id) (λ x. refl)
              (λ x h. (h.0, refl)))
            λ _.
              Ensures-pure _ _
                (λ s h. ((h.0.0, h.0.1, (refl, h.0.2.0, λ _. (h.0.2.1, refl))), h.1)))
        (λ e. Ensures-pure _ _ (λ s h. (
          (h.0.0, h.0.1, (refl, h.0.2.0, λ gone. absurd (clash h.0.0.status h.0.2.1 gone e))),
          h.1,
        )))

  pub handle_apply-IsTaken :
      (external_id raw : Text) (amount : ℕ) (event_raw : Text)
      → Ensures
          (Has p.order_id IsLocked)
          (handle_apply env (paid_event external_id amount event_raw) raw o p)
          (λ res s. Has p.order_id (IsTaken res) s × ArePaid p.id s.payments)
  unfolding handle_apply close_others
  handle_apply-IsTaken external_id raw amount event_raw =
      Ensures-guard _ (true && not (amount == p.amount)) _ _ λ _.
        Ensures-bind (λ _ s. Has p.order_id IsLocked s × ArePaid p.id s.payments) _ _ _
          (Ensures-modify (λ s. Has p.order_id IsLocked s × ArePaid p.id s.payments) _
            (λ s h. (h, settled-ArePaid env p.id raw s.payments)))
          λ _.
            Ensures-bind (λ _ s. Has p.order_id IsLocked s × ArePaid p.id s.payments) _ _ _
              (Ensures-modify (λ s. Has p.order_id IsLocked s × ArePaid p.id s.payments) _
                (λ s h. (h.0, closed-ArePaid env p s.payments h.1)))
              λ _.
                Ensures-bind _ _ _ _
                  (update_order-Has p.order_id (pay_row env paid) IsLocked
                    (λ x. IsPaid x × IsLocked x) (ArePaid p.id) (λ x. refl) (λ x h. (refl, h)))
                  λ _. settle_order-IsTaken
