-- ===== src/Lib.antt =====
-- cozy_backend: the orders, payments, customer sessions and staff accounts of the shop's backend.
--
-- The program. internal/orders places orders and changes their status: createOrder in order.go
-- checks a request, finds an earlier order with the same idempotency key, chooses the point that
-- packs the order, takes the stock under row locks and writes the order; lifecycle.go holds every
-- later change (AdminUpdateStatus, CancelByCustomer, CancelUnpaidOrderTx) and returns the stock of
-- a cancelled order; payment.go opens the payment attempts. internal/payments drives those through
-- a gateway: service.go opens sessions and applies callbacks, expiry.go cancels abandoned orders.
-- cart.go keeps a customer's cart between visits.
-- All of them work on shared tables, each operation in a transaction of internal/dbtx.
-- internal/auth logs customers in: service.go sends a code by SMS and checks it (otp_repo.go keeps
-- the codes and their limits), and keeps sessions as families of refresh tokens (refresh_repo.go);
-- limiter.go counts events per client IP, review_guard.go guards the store reviewers' fixed code.
-- internal/staff keeps the accounts of the staff (admin.go, staff.go), their sessions
-- (session_repo.go) and the limit on login attempts (ratelimit.go) under service.go.
--
-- The files.
--   Base        tests on numbers, lists as tables (where_rows, first_row, update_rows, sum_by)
--   Apperr      internal/apperr: the error codes, and a result type
--   Dbtx        internal/dbtx: blocks of statements as functions of the tables, WithTx as commit or
--               rollback; rules for what blocks ensure, keep, and leave when they fail
--   Schema      the rows of the tables, text and its trimming, and the SQL statements that several functions share
--   Orders      internal/orders: Status (the state machine), Settings, Input (checks of a request),
--               Stock, Cart (CartRepo; its Lines and Totals hold theorems), Create (createOrder; Checks and
--               Writing are parts of it), Lifecycle, Attempts (payment.go); Merge, Cover, Inserts, Graph,
--               Texts, Failed, Guards, Allowed, Repeat and Limit hold theorems on them
--   Payments    internal/payments: Provider (the gateway's interface), Callback (HandleCallback),
--               Session (PlaceOnlineOrder, RetryPayment, abort, failAttempt), Expiry; Repeats, Money and
--               Abandoned hold theorems on them
--   Services    what every service keeps, from what its statements keep: the record `Laws` is the
--               interface, which Goods and Trail fill and System.Keeps uses
--   Goods       the accounting of goods, from single statements (Shelf, Items) to whole services
--   Trail       order_status_history as an audit trail
--   System      all operations as events in any order
--   Limits      the map of windows that the limiters share
--   Auth        internal/auth and internal/phonenorm: Limiter (limiter.go), Rows, Codes (otp_repo.go),
--               Tokens (refresh_repo.go), Review (review_guard.go), Phone, Service and Session (service.go);
--               Reuse and Entry hold theorems; Steps has the statements of concurrent requests in any order
--   Staff       internal/staff: Limiter, Rows, Accounts, Sessions, Service, Bootstrap (EnsureOwner), and
--               Events, all operations in any order; Spelling, Owners, Owned, Ended and Entry hold theorems
--
-- How state and operations correspond. The tables are one record `Db` with a list for each table;
-- stock is a function of (variant, point), its primary key. A Go function that takes a *sql.Tx is a
-- function `Db → Result A × Db`, with the name in snake case (createOrder is `create_order`,
-- CancelUnpaidOrderTx is `cancel_unpaid_order_tx`); its statements stand in a do block in their
-- order. An UPDATE is `update_rows` with the WHERE test. Constraints that the code relies on
-- (primary keys, unique order numbers and idempotency keys, foreign keys, checks on quantities) are
-- tests in the inserts that end in the error `internal`. Row locks and advisory locks make each
-- transaction atomic, so concurrent requests are sequences of events (System). The calls of a
-- gateway stand between transactions, and so do their events.
--
-- internal/auth works on a record `Store` in the same way: its tables, its limiters' maps and its
-- guard.
-- Its requests are not single transactions, so Auth.Steps interleaves their statements freely, with
-- the check and the insert of issueInFamily, which takes no lock, as two steps.
--
-- Choices. Money is in whole tyiyn (the columns are NUMERIC(10,2)), so `roundSom` and `toTyiyn` are
-- the identity. Ids are numbers, in the order of their canonical text; an id in a request is a UUID
-- or another text. Times are in seconds. The clock, the date and the ids that the database makes
-- come with each request (`Env`). The gateway is a record of functions (`Provider`), about which
-- nothing is assumed. Decimal digits of an order number are written with 20 rounds of fuel, enough
-- for every number below 10 ^ 20, and a Go int is below 2 ^ 63. All other loops are structural.
-- In Auth, Postgres and the service read one clock, a limit that is not positive is 0, and SHA-256,
-- the signing of access tokens (`Crypto`) and the SMS provider (`OtpSender`) are parameters, as are
-- bcrypt and SHA-256 (`StaffCrypto`) in Staff; its store is a record `StaffStore`.
--
-- Not modelled: a UUID that a request writes in another form than the canonical one (upper case,
-- braces, `urn:uuid:`), which uuid.Validate also accepts; a database that fails
-- between statements (but for the items of the reply of AdminUpdateStatus and CancelByCustomer, which
-- are read after the commit); panics; item photos and the ids of order items; the
-- reads for lists and reports (ListDetailed of the cart too); the deletion of accounts and of old
-- codes; and the packages for catalog, import, messaging and the web.
pub mod Base
pub mod Apperr
pub mod Dbtx
pub mod Schema
pub mod Orders
pub mod Payments
pub mod Services
pub mod Goods
pub mod Trail
pub mod System
pub mod Limits
pub mod Auth
pub mod Staff
