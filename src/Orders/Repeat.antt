-- ===== src/Orders/Repeat.antt =====
-- A request that is sent twice (the idempotency key of createOrder in internal/orders/order.go).
use cozy_backend.Base.{
  ℕ, ◌+◌, ◌<◌, ◌≡◌, refl, ◌∙◌, subst, Bool, true, false, ◌&&◌, Option, none, some, List, [], ◌∷◌,
  ◌==◌, first_row, arith,
}
use cozy_backend.Apperr.{Result, ok, err}
use cozy_backend.Dbtx.{pure, modify, with_tx, ◌>>=◌}
use cozy_backend.Dbtx.Ensures.{Ensures, Post, Ensures-bind, Ensures-pure, Ensures-modify}
use cozy_backend.Dbtx.Keeps.{Keeps, bind-Keeps, keeps_rules}
use cozy_backend.Dbtx.Rollback.{with_tx-Post}
use cozy_backend.Schema.Text.{Text, same_text_refl}
use cozy_backend.Schema.Rows.{
  PaymentMethod, cash_on_delivery, Order, OrderItem, DeliveryZone, Db, Env,
}
use cozy_backend.Schema.Statements.{Action, insert_order, insert_item, record_status_tx}
use cozy_backend.Orders.Settings.{Settings, idempotency_window}
use cozy_backend.Orders.Input.{PlaceOrderInput}
use cozy_backend.Orders.Stock.{Snapshots}
use cozy_backend.Orders.Create.{
  Checked, check_input, has_key, is_fresh, replay_of, find_idempotent_order, find_replay,
  write_order, new_order, insert_items, clear_cart_lines_tx, create_new, continue_order,
  create_order_tx, Placed, replay, created, Reply, reply_to, get_order, create_order, place_order,
}
use cozy_backend.Orders.Failed.{check_input-Steady}

-- The newest order is this one, placed by this request at this time.
abbrev Newest : Env → Checked → Order → Db → Type 0
Newest env c o s =
    (rest : List Order) × (s.orders ≡ o ∷ rest)
    × (o.customer_id ≡ c.customer_id)
    × (o.idempotency_key ≡ c.idem_key)
    × (o.created_at ≡ env.now)

-- Blocks that keep what is known of the orders.
module _ (P : List Order → Type 0) where
  abbrev OfOrders : Db → Type 0
  OfOrders s = P s.orders

  add_item-Keeps :
      (it : OrderItem) → Keeps OfOrders (modify λ db. record db { items = it ∷ db.items })
  add_item-Keeps it = record { at = λ s h. h }

  insert_item-Keeps : (it : OrderItem) → Keeps OfOrders (insert_item it)
  unfolding insert_item
  insert_item-Keeps it = search (keeps_rules, add_item-Keeps)

  insert_items-Keeps : (items : List OrderItem) → Keeps OfOrders (insert_items items)
  unfolding insert_items
  insert_items-Keeps [] = search keeps_rules
  insert_items-Keeps (it ∷ items) =
      bind-Keeps OfOrders (insert_item it) (λ _. insert_items items) (insert_item-Keeps it)
        (λ _. insert_items-Keeps items)

  clear_cart-Keeps :
      (clear : Bool) (customer_id : ℕ) (vs : List ℕ)
      → Keeps OfOrders (clear_cart_lines_tx clear customer_id vs)
  unfolding clear_cart_lines_tx
  clear_cart-Keeps false customer_id vs = record { at = λ s h. h }
  clear_cart-Keeps true customer_id vs = record { at = λ s h. h }

pub nothing : {A : Type 0} (m : Action A) → Ensures (λ _. Unit) m (λ _ _. Unit)
nothing m = record { at = λ s h. anything (m s) }
  where
    anything : {A : Type 0} (p : Result A × Db) → Post (λ _ _. Unit) p
    anything (ok a, s) = tt
    anything (err e, s) = tt

insert_order-first :
    (o : Order)
    → Ensures (λ _. Unit) (insert_order o) (λ _ s. (rest : List Order) × (s.orders ≡ o ∷ rest))
unfolding insert_order
insert_order-first o =
    Ensures-bind (λ _ _. Unit) _ _ _ (nothing _)
      λ refused.
        Ensures-bind (λ _ _. Unit) _ _ _ (nothing _)
          λ _.
            Ensures-modify (λ s. (rest : List Order) × (s.orders ≡ o ∷ rest)) _
              (λ s h. (s.orders, refl))

write_order-Newest :
    (env : Env) (st : Settings) (method : PaymentMethod) (c : Checked) (address : Option ℕ)
    (zone : Option DeliveryZone) (point : ℕ) (snapshots : Snapshots)
    → Ensures (λ _. Unit) (write_order env st method c address zone point snapshots) (Newest env c)
unfolding write_order record_status_tx new_order
write_order-Newest env st method c address z point snapshots =
    Ensures-bind (λ _ _. Unit) _ _ _ (nothing _)
      λ _.
        Ensures-bind (λ _ _. Unit) _ _ _ (nothing _)
          λ number. Ensures-bind _ _ _ _ (insert_order-first _) λ _.
            Ensures-bind _ _ _ _
              (insert_items-Keeps (λ os. (rest : List Order) × (os ≡ _ ∷ rest)) _)
              λ _. Ensures-bind _ _ _ _ (Ensures-modify _ _ (λ s h. h)) λ _.
                Ensures-bind _ _ _ _
                  (clear_cart-Keeps (λ os. (rest : List Order) × (os ≡ _ ∷ rest)) _ _ _)
                  λ _. Ensures-pure _ _ (λ s h. (h.0, h.1, refl, refl, refl))

create_new-Newest :
    (env : Env) (st : Settings) (method : PaymentMethod) (c : Checked)
    → Ensures (λ _. Unit) (create_new env st method c) (Newest env c)
unfolding create_new
create_new-Newest env st method c =
    Ensures-bind (λ _ _. Unit) _ _ _ (nothing _)
      λ _.
        Ensures-bind (λ _ _. Unit) _ _ _ (nothing _)
          λ delivery.
            Ensures-bind (λ _ _. Unit) _ _ _ (nothing _)
              λ pickup.
                Ensures-bind (λ _ _. Unit) _ _ _ (nothing _)
                  λ snapshots.
                    Ensures-bind (λ _ _. Unit) _ _ _ (nothing _)
                      λ _.
                        Ensures-bind (λ _ _. Unit) _ _ _ (nothing _)
                          λ point.
                            write_order-Newest env st method c delivery.0 delivery.1 point snapshots

abbrev PlacedNewest : Env → Checked → Placed → Db → Type 0
PlacedNewest env c (replay id) s = Unit
PlacedNewest env c (created o) s = Newest env c o s

abbrev RepliesNewest : Env → Checked → Reply → Db → Type 0
RepliesNewest env c r s = r.is_new ≡ true → Newest env c r.order s

module _ (env : Env) (st : Settings) (c : Checked) where
  continue_order-Newest :
      (found : Option ℕ)
      → Ensures
          (λ _. Unit)
          (continue_order env st cash_on_delivery (λ o. pure tt) c found)
          (PlacedNewest env c)
  unfolding continue_order
  continue_order-Newest (some id) = Ensures-pure _ _ (λ s h. tt)
  continue_order-Newest none =
      Ensures-bind _ _ _ _ (create_new-Newest env st cash_on_delivery c) λ o.
        Ensures-bind (λ _. Newest env c o) _ _ _ (Ensures-pure _ tt (λ s h. h))
          λ _. Ensures-pure _ _ (λ s h. h)

  create_order_tx-Newest :
      Ensures
        (λ _. Unit)
        (create_order_tx env st cash_on_delivery (λ o. pure tt) c)
        (PlacedNewest env c)
  unfolding create_order_tx
  create_order_tx-Newest =
      Ensures-bind (λ _ _. Unit) _ _ _ (nothing _) λ found. continue_order-Newest found

  reply_to-Newest :
      (done : Placed)
      → Ensures
          (PlacedNewest env c done)
          (reply_to cash_on_delivery c.customer_id done)
          (RepliesNewest env c)
  unfolding reply_to
  reply_to-Newest (replay id) =
      Ensures-bind (λ _ _. Unit) _ _ _
        (record { at = λ s h. (nothing (get_order c.customer_id id)).at s tt })
        λ o. Ensures-pure _ _ (λ s h e. cc)
  reply_to-Newest (created o) = Ensures-pure _ _ (λ s h e. h)

  -- The part of createOrder after its checks.
  abbrev send : Action Reply
  send =
      with_tx (create_order_tx env st cash_on_delivery (λ o. pure tt) c)
      >>= reply_to cash_on_delivery c.customer_id

  send-Newest : Ensures (λ _. Unit) send (RepliesNewest env c)
  send-Newest =
      Ensures-bind (PlacedNewest env c) _ _ _
        (record {
          at = λ s h. with_tx-Post (PlacedNewest env c) s _ (create_order_tx-Newest.at s h);
        })
        reply_to-Newest

  module _ (key : Text) (o : Order) (rest : List Order) (db : Db) (os : db.orders ≡ o ∷ rest)
      (owner : o.customer_id ≡ c.customer_id) where
    first_by_key :
        o.idempotency_key ≡ some key → first_row (has_key c.customer_id key) db.orders ≡ some o
    first_by_key keyed = rw os (ground (arith, owner, keyed, same_text_refl key))

    find_replay-again :
        o.idempotency_key ≡ c.idem_key
        → c.idem_key ≡ some key
        → is_fresh env o ≡ true
        → find_replay env c.customer_id c.idem_key db ≡ (ok (some o.id), db)
    unfolding find_replay find_idempotent_order replay_of ◌>>=◌
    find_replay-again keyed has fresh = simp (has, first_by_key (keyed ∙ has), fresh)

    get_order-again : get_order c.customer_id o.id db ≡ (ok o, db)
    unfolding get_order ◌>>=◌
    get_order-again = simp first_by_id
      where
        first_by_id :
            first_row (λ x. x.customer_id == c.customer_id && x.id == o.id) db.orders ≡ some o
        first_by_id = rw os (ground (arith, owner))

    -- The order that is found again.
    send_again :
        o.idempotency_key ≡ c.idem_key
        → c.idem_key ≡ some key
        → is_fresh env o ≡ true
        → send db ≡ (ok (record { order = o; is_new = false; notices = [] }), db)
    unfolding create_order_tx continue_order reply_to with_tx ◌>>=◌
    send_again keyed has fresh = simp (find_replay-again keyed has fresh, get_order-again)

first-Newest :
    (env : Env) (st : Settings) (in_ : PlaceOrderInput) (db : Db) (c : Checked)
    → (check_input in_ db).0 ≡ ok c
    → Post (RepliesNewest env c) (place_order env st in_ db)
unfolding place_order create_order ◌>>=◌
first-Newest env st in_ db c checks =
    rw checks ((send-Newest env st c).at (check_input in_ db).1 tt)

second :
    (env : Env) (st : Settings) (in_ : PlaceOrderInput) (db db' : Db) (c : Checked)
    → (check_input in_ db).0 ≡ ok c
    → place_order env st in_ db' ≡ send env st c db'
unfolding place_order create_order ◌>>=◌
second env st in_ db db' c checks =
    let steady = (check_input-Steady in_).at db' db in simp (steady, checks)

still_fresh :
    (env : Env) (o : Order) (placed_at : ℕ)
    → o.created_at ≡ placed_at
    → env.now < placed_at + idempotency_window
    → is_fresh env o ≡ true
still_fresh env o placed_at e soon = ground arith

-- An order is placed by a request that carries an idempotency key. If the customer sends the same
-- request again less than 24 hours later, with nothing else in between, then the answer is that
-- order, marked as not new, no notice is sent, and no table changes.
pub place_order-again :
    (env env' : Env) (st : Settings) (in_ : PlaceOrderInput) (db db' : Db) (c : Checked)
    (key : Text) (r : Reply)
    → (check_input in_ db).0 ≡ ok c
    → c.idem_key ≡ some key
    → place_order env st in_ db ≡ (ok r, db')
    → r.is_new ≡ true
    → env'.now < env.now + idempotency_window
    → place_order env' st in_ db'
      ≡ (ok (record { order = r.order; is_new = false; notices = [] }), db')
place_order-again env env' st in_ db db' c key r checks has first new soon =
    let newest =
      subst (Post (RepliesNewest env c)) first (first-Newest env st in_ db c checks) new in
    second env' st in_ db db' c checks
    ∙ send_again env' st c key r.order newest.0 db' newest.1 newest.2 newest.3 has
        (still_fresh env' r.order (env.now) newest.4 soon)
