-- ===== src/Payments/Expiry.antt =====
-- The job that cancels abandoned online orders (internal/payments/expiry.go).
use cozy_backend.Base.{
  ℕ, zero, suc, ◌+◌, Bool, true, false, ◌&&◌, none, some, List, [], ◌∷◌, ltb, if◌then◌else◌,
  where_rows,
}
use cozy_backend.Apperr.{Result, ok}
use cozy_backend.Dbtx.{pure, gets, with_tx, ◌>>=◌}
use cozy_backend.Schema.Rows.{Order, Db, Env, is_placed, is_online, is_pending}
use cozy_backend.Schema.Statements.{Action, find_order}
use cozy_backend.Orders.Status.{is_retryable}
use cozy_backend.Orders.Lifecycle.{cancel_unpaid_order_tx, note_payment_expired}
use cozy_backend.Payments.Session.{latest_payment}

-- `expiryBatch`
abbrev pub expiry_batch : ℕ
expiry_batch = 100

-- Since when the latest attempt has been left alone; an order with no payment ages from its own
-- creation.
abbrev pub idle_since : Db → Order → ℕ
idle_since db o = elim (latest_payment o.id db.payments) [
  | none ↦ o.created_at
  | some p ↦ if is_pending p.status then p.created_at else p.updated_at
]

-- `unpaidExpiredCond`
unfoldable pub unpaid_expired : Env → ℕ → Db → Order → Bool
unfolding latest_payment
unpaid_expired env ttl db o =
    is_placed o.status
    && is_online o.payment_method
    && is_retryable o.payment_status
    && ltb (idle_since db o + ttl) env.now

unfoldable pub expire_one_tx : Env → ℕ → ℕ → Action Bool
unfolding unpaid_expired
expire_one_tx env ttl id = do
  row ← gets (λ db. find_order id db.orders)
  still ← gets (λ db. elim row [ none ↦ false | some o ↦ unpaid_expired env ttl db o ])
  if still then cancel_unpaid_order_tx env id (some note_payment_expired) else pure false

-- `expireOne`
unfoldable pub expire_one : Env → ℕ → ℕ → Action Bool
unfolding expire_one_tx
expire_one env ttl id = with_tx (expire_one_tx env ttl id)

-- `ORDER BY created_at`
place_by_age : Order → List Order → List Order
place_by_age o [] = o ∷ []
place_by_age o (x ∷ xs) =
    let rest = place_by_age o xs in if ltb x.created_at o.created_at then x ∷ rest else o ∷ x ∷ xs

sort_by_age : List Order → List Order
unfolding place_by_age
sort_by_age [] = []
sort_by_age (o ∷ os) = place_by_age o (sort_by_age os)

abbrev take_ids : ℕ → List Order → List ℕ
take_ids zero os = []
take_ids (suc n) [] = []
take_ids (suc n) (o ∷ os) = o.id ∷ take_ids n os

-- The orders of one pass.
unfoldable pub expired_ids : Env → ℕ → Db → List ℕ
unfolding unpaid_expired sort_by_age
expired_ids env ttl db =
    take_ids expiry_batch (sort_by_age (where_rows (unpaid_expired env ttl db) db.orders))

-- What one order adds to the count: an error is logged and skipped.
abbrev expired_count : Result Bool → ℕ
expired_count (ok true) = 1
expired_count _ = 0

-- The loop of ExpirePending: the number of orders expired, and the tables.
unfoldable pub expire_all : Env → ℕ → List ℕ → ℕ → Db → ℕ × Db
unfolding expire_one
expire_all env ttl [] n db = (n, db)
expire_all env ttl (id ∷ ids) n db =
    let (r, db') = expire_one env ttl id db in expire_all env ttl ids (n + expired_count r) db'

-- `ExpirePending`
unfoldable pub expire_pending : Env → ℕ → Db → ℕ × Db
unfolding expired_ids expire_all
expire_pending env ttl db = expire_all env ttl (expired_ids env ttl db) 0 db
