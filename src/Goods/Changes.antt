-- ===== src/Goods/Changes.antt =====
-- No change of an order or of its payments loses goods (internal/orders/lifecycle.go and
-- payment.go, internal/payments/service.go and expiry.go).
use cozy_backend.Base.{
  ℕ, ◌≡◌, refl, sym, ◌∙◌, Bool, true, false, Option, some, ◌∷◌, arith, first_row-All,
}
use cozy_backend.Apperr.{order_not_found}
use cozy_backend.Dbtx.{modify}
use cozy_backend.Dbtx.Ensures.{
  Ensures, Ensures-or_raise, Ensures-gets, Ensures-modify, Ensures-bind, Ensures-weaken, Ensures-if,
  Ensures-guard,
}
use cozy_backend.Dbtx.Keeps.{Keeps, keeps_rules, pure-Keeps}
use cozy_backend.Schema.Text.{Text}
use cozy_backend.Schema.Rows.{OrderStatus, Order, Payment, Actor, Db, Env, is_cancelled}
use cozy_backend.Schema.Statements.{find_order, update_order, update_payments, insert_payment}
use cozy_backend.Orders.Status.{valid_status_transition}
use cozy_backend.Orders.Lifecycle.{lock_order_tx, transition_locked_tx, move_row}
use cozy_backend.Goods.{reserved, goods, Owes}
use cozy_backend.Goods.Laws.{
  update-ItemsKnown, update-OrdersKeyed, update-reserved, update_found-reserved,
}
use cozy_backend.Goods.Shelf.{record_status_tx-Owes}
use cozy_backend.Goods.Booking.{write_order-Owes}
use cozy_backend.Services.{Laws}
use cozy_backend.Goods.Return.{cancel_locked_tx-Owes}

module _ (v point n : ℕ) where
  -- The goods are all there.
  abbrev pub Whole : Db → Type 0
  Whole = Owes v point n 0

  abbrev pub Locked : (Order → Bool) → Order → Db → Type 0
  Locked test o s = (Whole s × (find_order o.id s.orders ≡ some o)) × (test o ≡ true)

  pub lock_order_tx-Locked :
      (test : Order → Bool) → Ensures Whole (lock_order_tx test) (λ o. Locked test o)
  unfolding lock_order_tx
  lock_order_tx-Locked test = Ensures-bind _ _ _ _ (Ensures-gets _) λ row.
      Ensures-weaken _ _ _ (λ s h. h)
        (λ o s h.
          let found = first_row-All _ test s.orders o h.1.1.0.1 (sym h.1.0 ∙ h.0) in
          ((h.1.1, found.0), found.1))
        (Ensures-or_raise order_not_found row)

  pub update_order-Whole :
      (id : ℕ) (f : Order → Order)
      → ((o : Order) → (f o).id ≡ o.id)
      → ((o : Order) → ((f o).status ≡ o.status) × ((f o).point_id ≡ o.point_id))
      → Keeps Whole (modify (update_order id f))
  unfolding goods reserved
  update_order-Whole id f same_id same = Ensures-modify _ _ (λ s h. (
    (
      update-ItemsKnown id f s.orders s.items same_id h.0.0,
      update-OrdersKeyed id f s.orders same_id h.0.1,
    ),
    rw (update-reserved v point id f s.orders s.items same_id same) h.1,
  ))

  pub update_payments-Whole :
      (test : Payment → Bool) (f : Payment → Payment)
      → Keeps Whole (modify (update_payments test f))
  unfolding goods reserved
  update_payments-Whole test f = Ensures-modify _ _ (λ s h. h)

  push_payment-Whole :
      (row : Payment) → Keeps Whole (modify (λ db. record db { payments = row ∷ db.payments }))
  unfolding goods reserved
  push_payment-Whole row = Ensures-modify _ _ (λ s h. h)

  pub insert_payment-Whole : (row : Payment) → Keeps Whole (insert_payment row)
  unfolding insert_payment
  insert_payment-Whole row = search (keeps_rules, push_payment-Whole)

  move_order-Whole :
      (env : Env) (o : Order) (to : OrderStatus)
      → is_cancelled o.status ≡ false
      → is_cancelled to ≡ false
      → Ensures
          (λ s. Whole s × (find_order o.id s.orders ≡ some o))
          (modify (update_order o.id (move_row env to)))
          (λ _. Whole)
  unfolding goods reserved
  move_order-Whole env o to stands stays = Ensures-modify _ _ (λ s h. (
    (
      update-ItemsKnown o.id (move_row env to) s.orders s.items (λ r. refl) h.0.0.0,
      update-OrdersKeyed o.id (move_row env to) s.orders (λ r. refl) h.0.0.1,
    ),
    rw
        (update_found-reserved v point o (move_row env to) s.orders s.items (λ r. refl) h.1
          (stays ∙ sym stands) refl)
        h.0.1,
  ))

  valid_from_open :
      (from to : OrderStatus) → valid_status_transition from to ≡ true → is_cancelled from ≡ false
  unfolding valid_status_transition
  valid_from_open from to h = ground arith

  pub transition_locked_tx-Whole :
      (env : Env) (o : Order) (to : OrderStatus) (actor : Actor) (remark : Option Text)
      → Ensures
          (λ s. Whole s × (find_order o.id s.orders ≡ some o))
          (transition_locked_tx env o to actor remark)
          (λ _. Whole)
  unfolding transition_locked_tx
  transition_locked_tx-Whole env o to actor remark = Ensures-guard _ _ _ _ λ valid.
      let stands = valid_from_open o.status to (ground arith) in
      Ensures-guard _ _ _ _ λ _.
        Ensures-if _ (is_cancelled to) _ _
          (λ _. cancel_locked_tx-Owes v point n env o actor remark stands)
          (λ stays. Ensures-bind _ _ _ _ (move_order-Whole env o to stands stays) λ _.
            Ensures-bind _ _ _ _ (record_status_tx-Owes v point n 0 env _ _ _ _ _)
              λ _. pure-Keeps _ _)

  -- What the statements keep of the goods.
  pub goods_laws : Laws Whole
  goods_laws = record {
    locks = lock_order_tx-Locked;
    writes = write_order-Owes v point n;
    updates =
        λ id f same. update_order-Whole id f (λ o. (same o).0) (λ o. ((same o).1, (same o).2));
    updates_payments = update_payments-Whole;
    inserts_payment = insert_payment-Whole;
    transitions = transition_locked_tx-Whole;
    cancels = λ env o actor remark valid.
        cancel_locked_tx-Owes v point n env o actor remark
          (valid_from_open o.status OrderStatus.cancelled valid);
  }
