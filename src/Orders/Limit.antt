-- ===== src/Orders/Limit.antt =====
-- The cap on the open orders of a customer (checkOpenOrdersLimit in internal/orders/order.go).
use cozy_backend.Base.{
  ℕ, ◌<◌, ◌≡◌, refl, ap, ◌∙◌, subst, Bool, true, false, ◌&&◌, Option, none, some, List, [], ◌∷◌,
  ltb, leb, ◌==◌, arith, count_rows, update_rows,
}
use cozy_backend.Apperr.{Result, ok, err}
use cozy_backend.Dbtx.{pure, with_tx, ◌>>=◌}
use cozy_backend.Dbtx.Ensures.{
  Ensures, Post, Ensures-bind, Ensures-pure, Ensures-gets, Ensures-if, Ensures-modify,
  Ensures-weaken, Ensures-raise_if,
}
use cozy_backend.Dbtx.Keeps.{Keeps, gets-Keeps}
use cozy_backend.Dbtx.Rollback.{with_tx-Post}
use cozy_backend.Schema.Text.{Text}
use cozy_backend.Schema.Rows.{cash_on_delivery, Order, Db, Env}
use cozy_backend.Schema.Statements.{Action}
use cozy_backend.Orders.Settings.{Settings}
use cozy_backend.Orders.Input.{PlaceOrderInput}
use cozy_backend.Orders.Create.{
  Checked, check_input, is_fresh, replay_of, find_idempotent_order, find_replay, open_orders,
  check_open_orders_limit, create_new, continue_order, create_order_tx, Placed, replay, created,
  Reply, reply_to, get_order, create_order, place_order,
}
use cozy_backend.Orders.Failed.{check_input-Steady}

count_rows-update :
    (test : Order → Bool) (id : ℕ) (f : Order → Order) (os : List Order)
    → ((o : Order) → test (f o) ≡ test o)
    → count_rows test (update_rows (λ o. o.id == id) f os) ≡ count_rows test os
count_rows-update test id f [] keep = refl
count_rows-update test id f (o ∷ os) keep =
    ground (arith, keep o, count_rows-update test id f os keep)

module _ (env : Env) (st : Settings) (c : Checked) (n : ℕ) where
  -- The customer has `n` open orders.
  abbrev Opens : Db → Type 0
  Opens s = open_orders c.customer_id s ≡ n

  replay_of-Opens : (o : Option Order) → Keeps Opens (replay_of env o)
  unfolding replay_of
  replay_of-Opens none = Ensures-pure _ _ (λ s h. h)
  replay_of-Opens (some o) =
      Ensures-if _ (is_fresh env o) _ _ (λ e. Ensures-pure _ _ (λ s h. h))
        (λ e.
          Ensures-bind (λ _. Opens) _ _ _
            (Ensures-modify Opens _ (λ s h. count_rows-update _ o.id _ s.orders (λ x. refl) ∙ h))
            λ _. Ensures-pure _ _ (λ s h. h))

  find_replay-Opens : (key : Option Text) → Keeps Opens (find_replay env c.customer_id key)
  unfolding find_replay find_idempotent_order
  find_replay-Opens none = Ensures-pure _ _ (λ s h. h)
  find_replay-Opens (some key) =
      Ensures-bind (λ _. Opens) _ _ _ (gets-Keeps Opens _) λ row. replay_of-Opens row

  abbrev Within : Type 0
  Within = (ltb 0 st.max_open_orders && leb st.max_open_orders n) ≡ false

  check_open_orders_limit-Within :
      Ensures Opens (check_open_orders_limit c.customer_id st.max_open_orders) (λ _ _. Within)
  unfolding check_open_orders_limit
  check_open_orders_limit-Within = Ensures-bind _ _ _ _ (Ensures-gets _) λ k.
      Ensures-weaken _ _ _ (λ s h. h)
        (λ _ s h.
          subst (λ m. (ltb 0 st.max_open_orders && leb st.max_open_orders m) ≡ false)
            (h.1.0 ∙ h.1.1) h.0)
        (Ensures-raise_if _ _)

  abbrev PlacedWithin : Placed → Db → Type 0
  PlacedWithin (replay id) s = Unit
  PlacedWithin (created o) s = Within

  carry : {A : Type 0} (F : Type 0) (m : Action A) → Ensures (λ _. F) m (λ _ _. F)
  carry F m = record { at = λ s h. still h (m s) }
    where
      still : {A : Type 0} → F → (p : Result A × Db) → Post (λ _ _. F) p
      still h (ok a, s) = h
      still h (err e, s) = tt

  create_new-Within : Ensures Opens (create_new env st cash_on_delivery c) (λ _ _. Within)
  unfolding create_new
  create_new-Within = Ensures-bind _ _ _ _ check_open_orders_limit-Within λ _. carry Within _

  continue_order-Within :
      (found : Option ℕ)
      → Ensures Opens (continue_order env st cash_on_delivery (λ o. pure tt) c found) PlacedWithin
  unfolding continue_order
  continue_order-Within (some id) = Ensures-pure _ _ (λ s h. tt)
  continue_order-Within none = Ensures-bind _ _ _ _ create_new-Within λ o.
      Ensures-bind (λ _ _. Within) _ _ _ (Ensures-pure _ tt (λ s h. h))
        λ _. Ensures-pure _ _ (λ s h. h)

  create_order_tx-Within :
      Ensures Opens (create_order_tx env st cash_on_delivery (λ o. pure tt) c) PlacedWithin
  unfolding create_order_tx
  create_order_tx-Within =
      Ensures-bind _ _ _ _ (find_replay-Opens c.idem_key) λ found. continue_order-Within found

  abbrev RepliesWithin : Reply → Db → Type 0
  RepliesWithin r s = r.is_new ≡ true → 0 < st.max_open_orders → n < st.max_open_orders

  reply_to-Within :
      (done : Placed)
      → Ensures (PlacedWithin done) (reply_to cash_on_delivery c.customer_id done) RepliesWithin
  unfolding reply_to
  reply_to-Within (replay id) =
      Ensures-bind (λ _ _. Unit) _ _ _ (carry Unit (get_order c.customer_id id))
        λ o. Ensures-pure _ _ (λ s h e. cc)
  reply_to-Within (created o) = Ensures-pure _ _ (λ s h e positive. ground (arith, h, positive))

  send-Within :
      Ensures Opens
        (with_tx (create_order_tx env st cash_on_delivery (λ o. pure tt) c)
          >>= reply_to cash_on_delivery c.customer_id)
        RepliesWithin
  send-Within =
      Ensures-bind PlacedWithin _ _ _
        (record { at = λ s h. with_tx-Post PlacedWithin s _ (create_order_tx-Within.at s h) })
        reply_to-Within

replies_within :
    (env : Env) (st : Settings) (in_ : PlaceOrderInput) (db : Db) (c : Checked)
    → (check_input in_ db).0 ≡ ok c
    → Post (RepliesWithin env st c (open_orders c.customer_id db)) (place_order env st in_ db)
unfolding place_order create_order ◌>>=◌
replies_within env st in_ db c checks = rw checks (
    (send-Within env st c (open_orders c.customer_id db)).at (check_input in_ db).1
      (ap (λ s. open_orders c.customer_id s.1) ((check_input-Steady in_).at db db)))

-- Where a cap on open orders is set, a request for which PlaceOrder placed a new order came from a
-- customer who had fewer open orders (placed, confirmed or with the courier) than the cap.
pub place_order_below_cap :
    (env : Env) (st : Settings) (in_ : PlaceOrderInput) (db db' : Db) (c : Checked) (r : Reply)
    → (check_input in_ db).0 ≡ ok c
    → place_order env st in_ db ≡ (ok r, db')
    → r.is_new ≡ true
    → 0 < st.max_open_orders
    → open_orders c.customer_id db < st.max_open_orders
place_order_below_cap env st in_ db db' c r checks placed new positive =
    subst (Post (RepliesWithin env st c (open_orders c.customer_id db))) placed
      (replies_within env st in_ db c checks) new positive
