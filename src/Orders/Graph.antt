-- ===== src/Orders/Graph.antt =====
-- The life of an order (validStatusTransition in internal/orders/admin.go).
use cozy_backend.Base.{ℕ, ◌≤◌, ◌<◌, ◌≡◌, Bool, true, ◌&&◌, List, [], ◌∷◌, arith, length}
use cozy_backend.Schema.Rows.{OrderStatus, placed, confirmed, courier_assigned, delivered}
use cozy_backend.Orders.Status.{valid_status_transition}

-- Each change of a list of statuses, starting from `s`, is allowed.
abbrev pub allows : OrderStatus → List OrderStatus → Bool
allows s [] = true
allows s (t ∷ ts) = valid_status_transition s t && allows t ts

-- How many changes an order can still see.
abbrev pub changes_left : OrderStatus → ℕ
changes_left placed = 3
changes_left confirmed = 2
changes_left courier_assigned = 1
changes_left delivered = 0
changes_left OrderStatus.cancelled = 0

valid_status_transition-less :
    (s t : OrderStatus) → valid_status_transition s t ≡ true → changes_left t < changes_left s
unfolding valid_status_transition
valid_status_transition-less s t h = grind arith

-- An order sees at most three status changes, and none once it is delivered or cancelled: a list of
-- changes that validStatusTransition allows from a status is no longer than the road that is left
-- from there (placed 3, confirmed 2, courier_assigned 1, delivered and cancelled 0).
pub valid_status_transition-short :
    (s : OrderStatus) (ts : List OrderStatus) → allows s ts ≡ true → length ts ≤ changes_left s
valid_status_transition-short s [] h = omega arith
valid_status_transition-short s (t ∷ ts) h =
    let valid : valid_status_transition s t ≡ true = ground arith in
    let rest : allows t ts ≡ true = ground arith in
    omega (arith, valid_status_transition-less s t valid, valid_status_transition-short t ts rest)
