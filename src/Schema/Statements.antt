-- ===== src/Schema/Statements.antt =====
-- The SQL statements that several functions of internal/orders and internal/payments run, with the
-- constraints of migrations/*.sql: a row that a constraint refuses is a Go error, `internal`.
use cozy_backend.Base.{
  ℕ, ◌+◌, ◌-◌, Bool, false, not, ◌&&◌, ◌||◌, Option, none, some, List, ◌∷◌, ltb, ◌==◌,
  if◌then◌else◌, is_some, any_row, first_row, update_rows,
}
use cozy_backend.Apperr.{ok, err, internal}
use cozy_backend.Dbtx.{Tx, raise_if, modify, gets, ◌>>=◌, ◌>>◌}
use cozy_backend.Schema.Text.{Text, same_text}
use cozy_backend.Schema.Rows.{
  OrderStatus, PaymentStatus, Order, OrderItem, StatusChange, Payment, Actor, staff, Db, Env,
  is_online, is_pending,
}

-- A block of statements over these tables.
abbrev pub Action : Type 0 → Type 0
Action A = Tx Db A

-- Text columns that are equal, false at NULL.
abbrev pub same_key : Option Text → Text → Bool
same_key none key = false
same_key (some k) key = same_text k key

abbrev pub find_order : ℕ → List Order → Option Order
find_order id orders = first_row (λ o. o.id == id) orders

abbrev pub find_payment : ℕ → List Payment → Option Payment
find_payment id payments = first_row (λ p. p.id == id) payments

-- `UPDATE orders SET … WHERE id = $1`
abbrev pub update_order : ℕ → (Order → Order) → Db → Db
update_order id f db = record db { orders = update_rows (λ o. o.id == id) f db.orders }

-- `UPDATE payments SET … WHERE …`
abbrev pub update_payments : (Payment → Bool) → (Payment → Payment) → Db → Db
update_payments test f db = record db { payments = update_rows test f db.payments }

-- `UPDATE payments SET status = 'cancelled', updated_at = now() WHERE order_id = $1 AND
-- status = 'pending'`
abbrev pub cancel_pending_payments : Env → ℕ → Db → Db
cancel_pending_payments env order_id =
    update_payments (λ p. p.order_id == order_id && is_pending p.status)
      (λ p. record p { status = PaymentStatus.cancelled; updated_at = env.now })

-- orders_customer_idempotency_uniq: another row of the customer with the same key.
abbrev pub clashes : Order → Order → Bool
clashes row o =
    o.customer_id == row.customer_id
    && (elim row.idempotency_key [ none ↦ false | some k ↦ same_key o.idempotency_key k ])

-- The primary key, the unique indexes and the checks of `orders` (migrations 000010, 000019,
-- 000021, 000023).
unfoldable pub order_refused : Order → List Order → Bool
order_refused row orders =
    any_row (λ o. o.id == row.id || (same_text o.order_number row.order_number || clashes row o))
      orders
    || (not (is_some row.address_id || is_some row.point_id)
        || (if is_online row.payment_method
            then not (is_some row.payment_status)
            else is_some row.payment_status))

-- `INSERT INTO orders`
unfoldable pub insert_order : Order → Action Unit
unfolding order_refused
insert_order row = do
  refused ← gets (λ db. order_refused row db.orders)
  raise_if refused internal
  modify (λ db. record db { orders = row ∷ db.orders })

-- `INSERT INTO order_items`: the order must exist, and the quantity is positive.
unfoldable pub insert_item : OrderItem → Action Unit
insert_item row = do
  known ← gets (λ db. is_some (find_order row.order_id db.orders))
  raise_if (not known || row.quantity == 0) internal
  modify (λ db. record db { items = row ∷ db.items })

-- The unique index payments_one_pending_per_order.
abbrev pub has_pending : ℕ → List Payment → Bool
has_pending order_id rows = any_row (λ p. p.order_id == order_id && is_pending p.status) rows

-- `INSERT INTO payments`: a fresh primary key, the order exists, and at most one of its payments is
-- pending.
unfoldable pub insert_payment : Payment → Action Unit
insert_payment row = do
  known ← gets (λ db. is_some (find_order row.order_id db.orders))
  taken ← gets (λ db. is_some (find_payment row.id db.payments))
  clash ← gets (λ db. is_pending row.status && has_pending row.order_id db.payments)
  raise_if (not known || (taken || clash)) internal
  modify (λ db. record db { payments = row ∷ db.payments })

-- `recordStatusTx`: the staff id is kept for a staff actor, and an empty note is NULL.
abbrev actor_staff_id : Actor → Option ℕ
actor_staff_id actor = elim actor.type [ staff ↦ actor.staff_id | _ ↦ none ]

abbrev pub status_row :
    Env → ℕ → Option OrderStatus → OrderStatus → Actor → Option Text → StatusChange
status_row env order_id from to actor note = record {
  order_id = order_id;
  from_status = from;
  to_status = to;
  actor_type = actor.type;
  actor_staff_id = actor_staff_id actor;
  note = note;
  created_at = env.now;
}

unfoldable pub record_status_tx :
    Env → ℕ → Option OrderStatus → OrderStatus → Actor → Option Text → Action Unit
record_status_tx env order_id from to actor note =
    modify λ db. record db { history = status_row env order_id from to actor note ∷ db.history }

-- The row (variant, point) of `stock` set to a quantity.
unfoldable pub put_stock : ℕ → ℕ → ℕ → Db → Db
put_stock variant point quantity db = record db {
  stock = λ v p. if v == variant && p == point then some quantity else db.stock v p;
}

-- `UPDATE stock SET quantity = quantity - $1`, under the check `quantity >= 0`; a missing row is
-- left alone.
unfoldable pub take_stock : ℕ → ℕ → ℕ → Action Unit
unfolding put_stock
take_stock variant point need db = elim (db.stock variant point) [
  | none ↦ (ok tt, db)
  | some q ↦
      if ltb q need then (err internal, db) else (ok tt, put_stock variant point (q - need) db)
]

-- The quantity of a row, 0 where there is none.
abbrev pub quantity_of : Option ℕ → ℕ
quantity_of none = 0
quantity_of (some q) = q

-- `INSERT INTO stock … ON CONFLICT DO UPDATE SET quantity = stock.quantity + EXCLUDED.quantity`
unfoldable pub return_stock : ℕ → ℕ → ℕ → Db → Db
unfolding put_stock
return_stock variant point quantity db =
    put_stock variant point (quantity_of (db.stock variant point) + quantity) db
