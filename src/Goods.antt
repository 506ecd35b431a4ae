-- ===== src/Goods.antt =====
-- The accounting of goods: for a variant and a point, what stands on the shelf (`stock`) and what
-- orders that are not cancelled hold of it (internal/orders, internal/payments).
pub mod Laws
pub mod Shelf
pub mod Items
pub mod Booking
pub mod Quantities
pub mod Return
pub mod Changes
use cozy_backend.Base.{
  ℕ, ◌+◌, ◌≡◌, Bool, true, not, ◌&&◌, Option, none, some, List, ◌==◌, if◌then◌else◌, is_some, holds,
  sum_by, All,
}
use cozy_backend.Schema.Rows.{Order, OrderItem, Db, is_cancelled}
use cozy_backend.Schema.Statements.{find_order, quantity_of}

-- The order is packed at the point and not cancelled.
abbrev pub holds_at : ℕ → Order → Bool
holds_at point o = not (is_cancelled o.status) && holds o.point_id point

-- What an item of quantity `q` counts at a point, by the order that it belongs to.
abbrev pub held : ℕ → Option Order → ℕ → ℕ
held point none q = 0
held point (some o) q = if holds_at point o then q else 0

abbrev pub item_held : List Order → ℕ → ℕ → OrderItem → ℕ
item_held orders v point it =
    if it.variant_id == v then held point (find_order it.order_id orders) it.quantity else 0

-- What orders hold of a variant at a point.
unfoldable pub reserved : ℕ → ℕ → Db → ℕ
reserved v point db = sum_by (item_held db.orders v point) db.items

-- Shelf and orders together.
unfoldable pub goods : ℕ → ℕ → Db → ℕ
unfolding reserved
goods v point db = quantity_of (db.stock v point) + reserved v point db

-- Every item belongs to an order: the foreign key of `order_items`.
abbrev pub ItemsKnown : Db → Type 0
ItemsKnown db = All (λ it. is_some (find_order it.order_id db.orders) ≡ true) db.items

-- Every order is the one that its id finds: the primary key of `orders`.
abbrev pub OrdersKeyed : Db → Type 0
OrdersKeyed db = All (λ o. find_order o.id db.orders ≡ some o) db.orders

abbrev pub IsWellFormed : Db → Type 0
IsWellFormed db = ItemsKnown db × OrdersKeyed db

-- The keys hold, and the goods of a variant at a point are `d` short of `n`.
abbrev pub Owes : ℕ → ℕ → ℕ → ℕ → Db → Type 0
Owes v point n d db = IsWellFormed db × (goods v point db + d ≡ n)
