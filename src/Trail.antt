-- ===== src/Trail.antt =====
-- The history of status changes as an audit trail (`order_status_history`, recordStatusTx and its
-- callers in internal/orders).
pub mod Rows
pub mod Elsewhere
pub mod Statements
use cozy_backend.Base.{
  ℕ, ◌≡◌, Bool, true, Option, none, some, List, [], ◌∷◌, ◌==◌, if◌then◌else◌, is_some, All,
}
use cozy_backend.Schema.Rows.{OrderStatus, Order, StatusChange, Db, is_placed}
use cozy_backend.Schema.Statements.{find_order}
use cozy_backend.Orders.Status.{valid_status_transition}

-- The status that the newest row of an order gives it; the newest row stands first.
abbrev pub latest : ℕ → List StatusChange → Option OrderStatus
latest id [] = none
latest id (h ∷ hs) = let rest = latest id hs in if h.order_id == id then some h.to_status else rest

-- A new order is placed; afterwards the state machine allows the change.
abbrev pub is_allowed : Option OrderStatus → OrderStatus → Bool
is_allowed none to = is_placed to
is_allowed (some from) to = valid_status_transition from to

-- Each row starts where the order's row before it ended, and its change is allowed.
abbrev pub IsTrail : List StatusChange → Type 0
IsTrail [] = Unit
IsTrail (h ∷ hs) =
    (latest h.order_id hs ≡ h.from_status)
    × (is_allowed h.from_status h.to_status ≡ true)
    × IsTrail hs

-- The trail of these orders is complete: it ends for each at the status that the order has.
pub record Audit (orders : List Order) (history : List StatusChange) : Type 0 where
  pub trail : IsTrail history
  pub current : All (λ o. latest o.id history ≡ some o.status) orders
  pub known : All (λ h. is_some (find_order h.order_id orders) ≡ true) history
  pub keyed : All (λ o. find_order o.id orders ≡ some o) orders

abbrev pub IsAudited : Db → Type 0
IsAudited db = Audit db.orders db.history
