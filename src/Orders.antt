-- ===== src/Orders.antt =====
-- internal/orders: the cart's rules for a request (Orders/Input), the choice and the booking of
-- stock (Orders/Stock), the customer's cart (Orders/Cart), placing an order (Orders/Create), every
-- later status change (Orders/Lifecycle) and the payment attempts of an order (Orders/Attempts).
-- The other modules hold theorems: on the merged lines of a request (Merge), the point and its
-- stock (Cover), the order of the inserts (Inserts), the road of an order (Graph), accepted texts
-- (Texts), failed requests (Failed), status changes (Guards, Allowed), repeated requests (Repeat)
-- and the cap on open orders (Limit).
pub mod Status
pub mod Settings
pub mod Input
pub mod Stock
pub mod Create
pub mod Lifecycle
pub mod Attempts
pub mod Reads
pub mod Merge
pub mod Cover
pub mod Inserts
pub mod Graph
pub mod Texts
pub mod Failed
pub mod Guards
pub mod Allowed
pub mod Repeat
pub mod Limit
pub mod Cart
mod Tests
mod RepeatTests
