-- ===== src/Orders/Failed.antt =====
-- What failed requests leave of the tables (createOrder, PrepareRetryPayment, AdminUpdateStatus and
-- CancelByCustomer in internal/orders).
use cozy_backend.Base.{List, [], ◌⊎◌, inl, inr, true, ℕ, ◌≡◌, refl, ap, Option, none, some, if_both}
use cozy_backend.Apperr.{Error, Result, ok, err, is_ok}
use cozy_backend.Dbtx.{pure, or_raise, continue, ◌>>=◌}
use cozy_backend.Dbtx.Ensures.{Post, Ensures-bind, Ensures-pure}
use cozy_backend.Dbtx.Rollback.{
  RollsBack, with_tx-RollsBack, check-RollsBack, guard-RollsBack, transaction-RollsBack, Steady,
  steady_rules, with_tx-Post,
}
use cozy_backend.Schema.Text.{Text, IdText}
use cozy_backend.Schema.Rows.{
  OrderStatus, PaymentMethod, cash_on_delivery, online_card, Order, Actor, Db, Env,
}
use cozy_backend.Schema.Statements.{Action}
use cozy_backend.Orders.Settings.{Settings}
use cozy_backend.Orders.Input.{PlaceOrderInput}
use cozy_backend.Orders.Create.{
  Notice, Checked, check_input, is_fresh, replay_of, find_idempotent_order, find_replay, create_new,
  Placed, replay, created, continue_order, create_order_tx, get_order, reply_to, create_order,
  place_order,
}
use cozy_backend.Orders.Lifecycle.{
  Change, reply_with_items, admin_tx, admin_update_status, cancel_by_customer_tx,
  cancel_by_customer,
}
use cozy_backend.Orders.Attempts.{create_online_order, prepare_retry_payment}

pub check_input-Steady : (in_ : PlaceOrderInput) → Steady {S = Db} (check_input in_)
unfolding check_input
check_input-Steady in_ = search steady_rules depth 12

-- An order that is found again is found in tables that are as they were.
abbrev Untouched : Db → Option ℕ → Db → Type 0
Untouched db none s = Unit
Untouched db (some id) s = s ≡ db

replay_of-Untouched :
    (env : Env) (o : Option Order) (db : Db) → Post (Untouched db) (replay_of env o db)
unfolding replay_of ◌>>=◌
replay_of-Untouched env none db = tt
replay_of-Untouched env (some o) db =
    if_both (λ (m : Action (Option ℕ)). Post (Untouched db) (m db)) (is_fresh env o) (λ _. refl)
      (λ _. tt)

find_replay-Untouched :
    (env : Env) (customer_id : ℕ) (key : Option Text) (db : Db)
    → Post (Untouched db) (find_replay env customer_id key db)
unfolding find_replay find_idempotent_order ◌>>=◌
find_replay-Untouched env customer_id none db = tt
find_replay-Untouched env customer_id (some key) db = replay_of-Untouched env _ db

abbrev PlacedFrom : Db → Placed → Db → Type 0
PlacedFrom db (replay id) s = s ≡ db
PlacedFrom db (created o) s = Unit

module _ (env : Env) (st : Settings) (method : PaymentMethod)
    (after_insert : Order → Action Unit) where
  anything : {A : Type 0} (p : Result A × Db) → Post (λ _ _. Unit) p
  anything (ok a, s) = tt
  anything (err e, s) = tt

  always_created :
      (c : Checked) (db s : Db)
      → Post (PlacedFrom db) (continue_order env st method after_insert c none s)
  unfolding continue_order
  always_created c db s =
      (Ensures-bind {P = λ _. Unit} (λ _ _. Unit) (PlacedFrom db) (create_new env st method c) _
          (record { at = λ t _. anything _ })
          λ o.
            Ensures-bind (λ _ _. Unit) (PlacedFrom db) (after_insert o) _
              (record { at = λ t _. anything _ })
              λ _. Ensures-pure (PlacedFrom db) (created o) (λ t _. tt)).at
        s tt

  continue-Placed :
      (c : Checked) (db : Db) (r : Result (Option ℕ)) (s : Db)
      → Post (Untouched db) (r, s)
      → Post (PlacedFrom db) (continue r (continue_order env st method after_insert c) s)
  unfolding continue_order
  continue-Placed c db (err e) s h = tt
  continue-Placed c db (ok (some id)) s h = h
  continue-Placed c db (ok none) s h = always_created c db s

  create_order_tx-Placed :
      (c : Checked) (db : Db)
      → Post (PlacedFrom db) (create_order_tx env st method after_insert c db)
  unfolding create_order_tx ◌>>=◌
  create_order_tx-Placed c db =
      continue-Placed c db (find_replay env c.customer_id c.idem_key db).0
        (find_replay env c.customer_id c.idem_key db).1
        (find_replay-Untouched env c.customer_id c.idem_key db)

  found-RollsBack :
      {A B : Type 0} (e : Error) (o : Option A) (f : A → B) (db s : Db)
      → s ≡ db
      → RollsBack db (continue (or_raise e o s).0 (λ a. pure (f a)) (or_raise e o s).1)
  found-RollsBack e none f db s h = h
  found-RollsBack e (some a) f db s h = tt

  reply_to-RollsBack :
      (customer_id : ℕ) (db : Db) (r : Result Placed) (s : Db)
      → RollsBack db (r, s)
      → Post (PlacedFrom db) (r, s)
      → RollsBack db (continue r (reply_to method customer_id) s)
  unfolding reply_to ◌>>=◌ get_order
  reply_to-RollsBack customer_id db (err e) s h k = h
  reply_to-RollsBack customer_id db (ok (created o)) s h k = tt
  reply_to-RollsBack customer_id db (ok (replay id)) s h k = found-RollsBack _ _ _ db s k

  create_order-RollsBack :
      (in_ : PlaceOrderInput) (db : Db)
      → RollsBack db (create_order env st method after_insert in_ db)
  unfolding create_order ◌>>=◌
  create_order-RollsBack in_ db =
      check-RollsBack (check_input in_ db).0 db (check_input in_ db).1 _
        (ap (λ p. p.1) ((check_input-Steady in_).at db db))
        (λ c.
          reply_to-RollsBack c.customer_id db _ _
            (with_tx-RollsBack db (create_order_tx env st method after_insert c))
            (with_tx-Post (PlacedFrom db) db (create_order_tx env st method after_insert c)
              (create_order_tx-Placed c db)))

admin_update_status-RollsBack :
    (env : Env) (actor : Option Actor) (key : IdText) (to : OrderStatus) (db : Db)
    → RollsBack db (admin_update_status env actor key to db)
unfolding admin_update_status
admin_update_status-RollsBack env none key to db = refl
admin_update_status-RollsBack env (some actor) key to db =
    guard-RollsBack _ _ _ db (transaction-RollsBack (admin_tx env actor key to) _ db)

cancel_by_customer-RollsBack :
    (env : Env) (customer_id : ℕ) (key : IdText) (db : Db)
    → RollsBack db (cancel_by_customer env customer_id key db)
unfolding cancel_by_customer
cancel_by_customer-RollsBack env customer_id key db =
    transaction-RollsBack (cancel_by_customer_tx env customer_id key) _ db

-- A failed reply: nothing has happened and nobody is told, or all has happened, as `done` has it, and
-- only the items of the reply could not be read.
abbrev pub IsWhole :
    Db → Result Unit → Result Change × Db → List Notice × (Result Order × Db) → Type 0
IsWhole db items done (notices, (ok o, s)) = Unit
IsWhole db items done (notices, (err e, s)) =
    ((notices ≡ []) × (s ≡ db)) ⊎ ((items ≡ err e) × (is_ok done.0 ≡ true) × (s ≡ done.1))

reply_with_items-IsWhole :
    (db : Db) (items : Result Unit) (done : Result Change × Db)
    → RollsBack db done
    → IsWhole db items done (reply_with_items items done)
unfolding reply_with_items
reply_with_items-IsWhole db (ok _) (ok change, s) h = tt
reply_with_items-IsWhole db (err e) (ok change, s) h = inr (refl, refl, refl)
reply_with_items-IsWhole db (ok _) (err e, s) h = inl (refl, h)
reply_with_items-IsWhole db (err _) (err e, s) h = inl (refl, h)

-- A request that createOrder (paid on delivery or online, with the first payment attempt) or
-- PrepareRetryPayment answers with an error changes no table. If AdminUpdateStatus or
-- CancelByCustomer answers with an error, either no table is changed and nobody is told, or the
-- change is committed in full and only the items of the reply could not be read. What
-- PlaceOnlineOrder and RetryPayment do after these calls is not part of the statement.
pub failed_request-unchanged :
    (env : Env) (st : Settings) (provider : Text) (in_ : PlaceOrderInput) (actor : Option Actor)
    (customer_id : ℕ) (key : IdText) (to : OrderStatus) (items : Result Unit) (db : Db)
    → RollsBack db (place_order env st in_ db)
      × RollsBack db (create_online_order env st provider in_ db)
      × RollsBack db (prepare_retry_payment env provider customer_id key db)
      × IsWhole db items
          (admin_update_status env actor key to db)
          (reply_with_items items (admin_update_status env actor key to db))
      × IsWhole db items
          (cancel_by_customer env customer_id key db)
          (reply_with_items items (cancel_by_customer env customer_id key db))
unfolding place_order create_online_order prepare_retry_payment
failed_request-unchanged env st provider in_ actor customer_id key to items db = (
  create_order-RollsBack env st cash_on_delivery _ in_ db,
  create_order-RollsBack env st online_card _ in_ db,
  with_tx-RollsBack db _,
  reply_with_items-IsWhole db items _ (admin_update_status-RollsBack env actor key to db),
  reply_with_items-IsWhole db items _ (cancel_by_customer-RollsBack env customer_id key db),
)
