-- ===== src/Payments/Abandoned.antt =====
-- What the expiry job cancels (expireOne in internal/payments/expiry.go).
use cozy_backend.Base.{
  ℕ, ◌≡◌, refl, sym, ◌∙◌, subst, Bool, true, false, some, if◌then◌else◌, Option-cases, inl, inr,
}
use cozy_backend.Dbtx.{pure, ◌>>=◌}
use cozy_backend.Dbtx.Ensures.{
  Ensures, Post, Ensures-bind, Ensures-pure, Ensures-weaken, Ensures-if, Ensures-frame,
}
use cozy_backend.Dbtx.Rollback.{with_tx-Post}
use cozy_backend.Schema.Rows.{OrderStatus, Order, Db, Env, is_placed}
use cozy_backend.Schema.Statements.{find_order}
use cozy_backend.Orders.Guards.{Logged, cancel_locked_tx-Changed, lock_order_tx-found, unlogged}
use cozy_backend.Orders.Lifecycle.{
  by_id, cancel_unpaid_order_tx, note_payment_expired, system_actor,
}
use cozy_backend.Payments.Expiry.{unpaid_expired, expire_one_tx, expire_one}

-- What expireOne has done, by its answer.
abbrev pub Expires : Env → ℕ → ℕ → Db → Bool → Db → Type 0
Expires env ttl id db false s = s ≡ db
Expires env ttl id db true s =
    (o : Order) × (find_order id db.orders ≡ some o)
    × (unpaid_expired env ttl db o ≡ true)
    × Logged env o OrderStatus.cancelled system_actor (some note_payment_expired) db s

same_expired :
    (env : Env) (ttl : ℕ) (db : Db) (o o' : Order)
    → some o ≡ some o'
    → unpaid_expired env ttl db o ≡ true
    → unpaid_expired env ttl db o' ≡ true
same_expired env ttl db o o' e h =
    let same : o ≡ o' = cc in subst (λ x. unpaid_expired env ttl db x ≡ true) same h

cancel_unpaid-Expires :
    (env : Env) (ttl id : ℕ) (db : Db) (o : Order)
    → find_order id db.orders ≡ some o
    → unpaid_expired env ttl db o ≡ true
    → Ensures
        (λ s. s ≡ db)
        (cancel_unpaid_order_tx env id (some note_payment_expired))
        (Expires env ttl id db)
unfolding cancel_unpaid_order_tx
cancel_unpaid-Expires env ttl id db o found old =
    Ensures-bind _ _ _ _ (lock_order_tx-found (by_id id) db) λ o'.
      Ensures-if _ (is_placed o'.status) _ _
        (λ e.
          Ensures-bind _ _ _ _
            (Ensures-frame (find_order id db.orders ≡ some o') _ _ (
              Ensures-weaken _ _ _ (unlogged db) (λ a s h. h)
                (cancel_locked_tx-Changed env o' system_actor (some note_payment_expired) db)))
            λ _.
              Ensures-pure _ true
                (λ s h. (o', h.0, same_expired env ttl db o o' (sym found ∙ h.0) old, h.1.2)))
        (λ e. Ensures-pure _ _ (λ s h. h.1))

old_or_not :
    (env : Env) (ttl id : ℕ) (db : Db) (o : Order) (old : Bool)
    → find_order id db.orders ≡ some o
    → unpaid_expired env ttl db o ≡ old
    → Post
        (Expires env ttl id db)
        ((if old then cancel_unpaid_order_tx env id (some note_payment_expired) else pure false) db)
old_or_not env ttl id db o true found e = (cancel_unpaid-Expires env ttl id db o found e).at db refl
old_or_not env ttl id db o false found e = refl

expire_one_tx-Expires :
    (env : Env) (ttl id : ℕ) (db : Db) → Post (Expires env ttl id db) (expire_one_tx env ttl id db)
unfolding expire_one_tx ◌>>=◌
expire_one_tx-Expires env ttl id db = elim (Option-cases (find_order id db.orders)) [
  | inl e ↦ rw e refl
  | inr (o, e) ↦ rw e (old_or_not env ttl id db o (unpaid_expired env ttl db o) e refl)
]

-- If expireOne answers that it expired an order, then that order was placed, to be paid online, not
-- paid, and its last payment attempt older than the limit, all of it as checked in the same
-- transaction, and one row was added to the history: its cancellation by the system with the note
-- `payment_expired`. If it answers no, it changed no table.
pub expire_one-Expires :
    (env : Env) (ttl id : ℕ) (db : Db) → Post (Expires env ttl id db) (expire_one env ttl id db)
unfolding expire_one
expire_one-Expires env ttl id db =
    with_tx-Post (Expires env ttl id db) db (expire_one_tx env ttl id)
      (expire_one_tx-Expires env ttl id db)
