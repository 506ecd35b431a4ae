-- ===== src/Trail/Statements.antt =====
-- The statements on orders keep the audit trail (createOrder, transitionLockedTx and cancelLockedTx
-- in internal/orders).
use cozy_backend.Base.{
  ℕ, ◌≡◌, refl, sym, ◌∙◌, Bool, true, Option, none, some, ◌∷◌, arith, Bool-cases, inl, inr,
  first_row-All,
}
use cozy_backend.Apperr.{order_not_found}
use cozy_backend.Dbtx.{modify, ◌>>=◌}
use cozy_backend.Dbtx.Ensures.{
  Ensures, Ensures-or_raise, Ensures-gets, Ensures-modify, Ensures-bind, Ensures-weaken, Ensures-if,
  Ensures-guard,
}
use cozy_backend.Dbtx.Keeps.{Keeps, pure-Keeps, or_raise-Keeps}
use cozy_backend.Schema.Text.{Text}
use cozy_backend.Schema.Rows.{
  OrderStatus, PaymentMethod, Order, StatusChange, Actor, DeliveryZone, Db, Env, is_cancelled,
  is_placed,
}
use cozy_backend.Schema.Statements.{
  find_order, update_order, insert_order, order_refused, record_status_tx,
}
use cozy_backend.Orders.Settings.{Settings}
use cozy_backend.Orders.Stock.{Snapshots}
use cozy_backend.Orders.Status.{valid_status_transition}
use cozy_backend.Orders.Create.{Checked, write_order, new_order}
use cozy_backend.Orders.Reads.{next_order_number-Keeps}
use cozy_backend.Orders.Lifecycle.{
  lock_order_tx, move_row, cancel_row, transition_locked_tx, cancel_locked_tx,
}
use cozy_backend.Goods.Laws.{order_refused-find}
use cozy_backend.Services.{Found, Laws}
use cozy_backend.Trail.{Audit, IsAudited}
use cozy_backend.Trail.Rows.{insert-Audit, update-Audit, move-Audit}
use cozy_backend.Trail.Elsewhere.{
  lock_and_decrement_stock-Keeps, insert_items-Keeps, clear_cart-Keeps, restock-Keeps,
  update_payments-Keeps, insert_payment-Keeps, cancel_open_payment-Keeps,
}

-- The trail is complete once a row for this change stands in it.
abbrev IsDue : ℕ → Option OrderStatus → OrderStatus → Db → Type 0
IsDue id from to s =
    (h : StatusChange)
    → h.order_id ≡ id
    → h.from_status ≡ from
    → h.to_status ≡ to
    → Audit s.orders (h ∷ s.history)

record_status_tx-Pays :
    (env : Env) (id : ℕ) (from : Option OrderStatus) (to : OrderStatus) (actor : Actor)
    (remark : Option Text)
    → Ensures (IsDue id from to) (record_status_tx env id from to actor remark) (λ _. IsAudited)
unfolding record_status_tx
record_status_tx-Pays env id from to actor remark = Ensures-modify _ _ (λ s h. h _ refl refl refl)

insert_order-Due :
    (row : Order)
    → is_placed row.status ≡ true
    → Ensures IsAudited (insert_order row) (λ _. IsDue row.id none row.status)
unfolding insert_order ◌>>=◌
insert_order-Due row placed = record {
  at = λ db audit. elim (Bool-cases (order_refused row db.orders)) [
    | inl bad ↦ rw bad tt
    | inr good ↦ rw good (λ h id from to.
        insert-Audit row db.orders h db.history (order_refused-find row db.orders good) id from to
          placed audit)
  ];
}

write_order-Keeps :
    (env : Env) (st : Settings) (method : PaymentMethod) (c : Checked) (address : Option ℕ)
    (z : Option DeliveryZone) (point : ℕ) (snapshots : Snapshots)
    → Keeps IsAudited (write_order env st method c address z point snapshots)
unfolding write_order new_order
write_order-Keeps env st method c address z point snapshots =
    Ensures-bind _ _ _ _ (lock_and_decrement_stock-Keeps Audit _ _ _) λ _.
      Ensures-bind _ _ _ _ (next_order_number-Keeps _ env) λ number.
        Ensures-bind _ _ _ _ (insert_order-Due _ refl) λ _.
          Ensures-bind (λ _. IsDue env.order_id none OrderStatus.placed) _ _ _
            (insert_items-Keeps _ _)
            λ _.
              Ensures-bind _ _ _ _ (record_status_tx-Pays env _ _ _ _ _)
                λ _. Ensures-bind _ _ _ _ (clear_cart-Keeps Audit _ _ _) λ _. pure-Keeps _ _

lock_order_tx-Locked :
    (test : Order → Bool)
    → Ensures IsAudited (lock_order_tx test) (λ o s. Found IsAudited o s × (test o ≡ true))
unfolding lock_order_tx
lock_order_tx-Locked test = Ensures-bind _ _ _ _ (Ensures-gets _) λ row.
    Ensures-weaken _ _ _ (λ s h. h)
      (λ o s h.
        let found = first_row-All _ test s.orders o h.1.1.keyed (sym h.1.0 ∙ h.0) in
        ((h.1.1, found.0), found.1))
      (Ensures-or_raise order_not_found row)

update_order-Keeps :
    (id : ℕ) (f : Order → Order)
    → ((o : Order) → ((f o).id ≡ o.id) × ((f o).status ≡ o.status) × ((f o).point_id ≡ o.point_id))
    → Keeps IsAudited (modify (update_order id f))
update_order-Keeps id f same =
    Ensures-modify _ _
      (λ s h. update-Audit id f s.orders s.history (λ o. (same o).0) (λ o. (same o).1) h)

-- The update of a status that the state machine allows.
move_order-Due :
    (o : Order) (f : Order → Order) (to : OrderStatus)
    → ((x : Order) → ((f x).id ≡ x.id) × ((f x).status ≡ to))
    → valid_status_transition o.status to ≡ true
    → Ensures
        (Found IsAudited o)
        (modify (update_order o.id f))
        (λ _. IsDue o.id (some o.status) to)
move_order-Due o f to same valid = Ensures-modify _ _ (λ s found h id from goal.
    move-Audit o f s.orders h s.history found.1 (λ x. ((same x).0, (same x).1 ∙ sym goal)) id from
      (rw goal valid) found.0)

cancel_locked_tx-Audited :
    (env : Env) (o : Order) (actor : Actor) (remark : Option Text)
    → valid_status_transition o.status OrderStatus.cancelled ≡ true
    → Ensures (Found IsAudited o) (cancel_locked_tx env o actor remark) (λ _. IsAudited)
unfolding cancel_locked_tx
cancel_locked_tx-Audited env o actor remark valid =
    Ensures-bind _ _ _ _ (or_raise-Keeps _ _ o.point_id) λ point.
      Ensures-bind _ _ _ _
        (restock-Keeps (λ os hs. Audit os hs × (find_order o.id os ≡ some o)) _ _)
        λ _. Ensures-bind _ _ _ _ (cancel_open_payment-Keeps _ env _ _ _) λ _.
          Ensures-bind _ _ _ _ (move_order-Due o (cancel_row env o) _ (λ x. (refl, refl)) valid)
            λ _. Ensures-bind _ _ _ _ (record_status_tx-Pays env _ _ _ _ _) λ _. pure-Keeps _ _

is_cancelled-only : (to : OrderStatus) → is_cancelled to ≡ true → to ≡ OrderStatus.cancelled
is_cancelled-only OrderStatus.placed h = cc
is_cancelled-only OrderStatus.confirmed h = cc
is_cancelled-only OrderStatus.courier_assigned h = cc
is_cancelled-only OrderStatus.delivered h = cc
is_cancelled-only OrderStatus.cancelled h = refl

transition_locked_tx-Audited :
    (env : Env) (o : Order) (to : OrderStatus) (actor : Actor) (remark : Option Text)
    → Ensures (Found IsAudited o) (transition_locked_tx env o to actor remark) (λ _. IsAudited)
unfolding transition_locked_tx
transition_locked_tx-Audited env o to actor remark = Ensures-guard _ _ _ _ λ valid.
    let allowed : valid_status_transition o.status to ≡ true = ground (arith, valid) in
    Ensures-guard _ _ _ _ λ _.
      Ensures-if _ (is_cancelled to) _ _
        (λ cancels.
          cancel_locked_tx-Audited env o actor remark (rw (← is_cancelled-only to cancels) allowed))
        (λ _.
          Ensures-bind _ _ _ _ (move_order-Due o (move_row env to) to (λ x. (refl, refl)) allowed)
            λ _. Ensures-bind _ _ _ _ (record_status_tx-Pays env _ _ _ _ _) λ _. pure-Keeps _ _)

-- What the statements keep of the audit trail.
pub trail_laws : Laws IsAudited
trail_laws = record {
  locks = lock_order_tx-Locked;
  writes = write_order-Keeps;
  updates = update_order-Keeps;
  updates_payments = update_payments-Keeps Audit;
  inserts_payment = insert_payment-Keeps Audit;
  transitions = transition_locked_tx-Audited;
  cancels = cancel_locked_tx-Audited;
}
