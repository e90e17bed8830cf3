-- ===== src/Lib.antt =====
-- Verification of the Binno backend: the life of an order, from the stock that it holds to the
-- commission that is due when it closes; and how callers sign in and retry.
--
-- The code is the Go program under binno_backend/internal. An order moves along the table of
-- modules/orders/status.go. modules/orders/repository.go runs each move in one database
-- transaction: it claims the request's operation key (platform/database/dedup), writes the status
-- by a compare-and-set and a row of the audit log, gives back or uses up the stock through
-- modules/catalog/lineport.go, settles invoice, payment, refund or commission through
-- modules/billing/settlement.go, and leaves a domain event in the outbox. A trigger of the table
-- may name a follow-on, which runs in the same transaction. An order is placed by CreateOrder of
-- modules/orders/service.go and Create of repository.go, which hold the stock, write the order and
-- draw the token of the SMS link in one transaction. The outbox's rows are relayed to a sink by
-- platform/messaging/outbox/dispatcher.go, which has a table of its own in the model. The circuit
-- breaker stands apart: no modelled order code calls it. A caller signs in by modules/identity, with
-- a one-time code that platform/cache/otp keeps in Redis, and holds a session of rotating refresh
-- tokens. A route that changes state runs its handler under platform/httpx/middleware_mutation.go,
-- which keeps the idempotency keys of platform/cache/idempotency. Sellers publish the offers that orders
-- reserve by modules/catalog/service.go, and the buyer of a closed order leaves a verdict by modules/trust.
--
-- Files and code:
--   Prelude             lists, results, int64; the select, count and update of SQL statements
--   Db                  the tables (migrations, the store packages) as one record `Db`; `Driver`
--                       holds what google/uuid and pgtype.Numeric supply, with their laws
--   Db/Sample           a small database and a driver for the tests
--   Tx                  a transaction is a function from a database to an error or a value and the
--                       next database; `run_tx` undoes the writes of an error or a rollback
--   Tx/Dedup            platform/database/dedup/receipt.go: claim, ReserveNew, ReserveFor
--   Money               platform/money/money.go; Money/Rounding and Money/Decimal prove it
--   EventCatalog        eventcatalog/catalog.go: the names of events
--   Orders/Status       modules/orders/status.go: TransitionFor, Permits; Paths and Stock prove it
--   Orders/Errors       the errors of modules/orders/service.go and their translations
--   Orders/Commission   accrueCommission, rateForLines, effectiveRateBps of repository.go
--   Orders/Repository   Apply, runTransition, transition, settle, issueInvoice, releaseStock,
--                       consumeStock, ConfirmToken and RecordEscalation of repository.go, with the
--                       statements of modules/orders/store in Statements
--   Orders/Service      modules/orders/service.go: the steps that buyers, sellers and operators ask for
--   Orders/Placement    CreateOrder and validateCreate of service.go, Create and replayCreated of
--                       repository.go, with their statements; Rows and Writing describe the writes,
--                       Placing and Once prove Create, Items and Validity prove validateCreate,
--                       Auditing holds the audit log against the orders through all requests
--   Orders/Sweeper      modules/orders/sweeper.go: RunOnce, and the listings of repository.go; Fates and
--                       Log prove it
--   Authz               platform/authz/authz.go, EnsureOwnsStore of modules/location/guard.go;
--                       Owning says whom they admit
--   Platform/Outbox     platform/messaging/outbox/dispatcher.go: relay, retryDelay and the writes of
--                       a relay; Pass has RunOnce with claim, cleanup and observePending. Relay is
--                       the rule for runs of relay, Touch and Settling say what becomes of rows,
--                       Delivery, Heads, Passing and InOrder lead to the theorems
--   Identity            modules/identity/service.go, with Sign of platform/httpx/jwt_issue.go; Phone is
--                       NormalizePhone, Tables repository.go with its statements, Janitor janitor.go;
--                       Rotation, Access, SignIn and Janitor/Pruning prove them
--   Platform/Io         steps that keep their writes when they fail; Platform/Redis the commands of Redis
--   Platform/Otp        platform/cache/otp/otp.go; Guesses, Codes and Overlap prove it
--   Platform/Idempotency, Platform/Mutation
--                       platform/cache/idempotency/idempotency.go and
--                       platform/httpx/middleware_mutation.go; Mutation/Replays proves them
--   Platform/Breaker    platform/cache/redisx/breaker.go: the circuit breaker in front of Redis
--   Catalog/LinePort    modules/catalog/lineport.go: ReserveOrderLines, ReleaseOrderLines,
--                       ConsumeOrderLines
--   Catalog/Offers, Catalog/Requests
--                       the offers and catalogue requests of modules/catalog/service.go and
--                       repository.go; Statements has the SQL on offers, Stocked,
--                       Updating and Resolving prove them
--   Trust/Feedback      modules/trust/service.go and repository.go; Verdicts proves it
--   Location            modules/location/saleport.go: ResolveSellerForOrder
--   Location/Owners     modules/location/seller.go, OwnerID and EnsureOwner of guard.go, and
--                       platform/tin/tin.go; Registering proves them
--   Billing/Settlement  modules/billing/settlement.go, all operations of the settlement port
--   Billing/RefundSweep modules/billing/refundsweep.go: RunOnce and markOverdue, with RefundOverdue of
--                       modules/orders/module.go; Marking and Passing prove it
--
-- That an error undoes the writes of its transaction is what PostgreSQL and the deferred Rollback
-- do; it is built into `run_tx`, and no result. A Go error is a value of the module's error type.
-- `internal` stands for every error that no handler tells apart. Failures of the connection and
-- contention (classifyContention) do not occur in the model: a transaction runs alone, which the row
-- locks of the code bring about for one order. Ids are numbers, instants and durations are
-- nanoseconds, a NUMERIC is a whole number of its smallest unit; the operation key and the caller,
-- which the code keeps in the request's context, are arguments; an int64 is an integer, and a sum or
-- product in int64 wraps in the model too, save where a check before it bounds it. The recursion of
-- relay takes fuel: as much as the batch is long is enough, since either half of a batch of two or
-- more is shorter and not empty; RunOnce gives that much. All other loops run over lists or a number
-- of rows. The dispatcher's sink, database and clock are functions on a state of their own, so that
-- a statement may fail and time passes; no second dispatcher runs during a pass, nor another request
-- during a pass of a sweeper, which happens at one instant, and of dispatched rows of one age the
-- first is pruned first. The ids and tokens that are drawn at random are arguments of Create, as the
-- codes and tokens of a sign-in are of its operations. Redis, the statements of identity and the SMS
-- gateway fail as lists in the state say; a failed step writes nothing. A Redis key counts until its
-- expiry, and INCR makes a key without one. The janitor's rounds take fuel: a round that is followed
-- by another removes a row at least, so one more than the expired rows is enough.
--
-- Not modelled: the listings of orders for reading, the notifier, the billing rollup,
-- the other modules, the HTTP, cache and telemetry platform besides the parts above, the dispatcher's
-- ticker and its suppression of repeated log lines, the test of coordinates on floats (a parameter of
-- validateCreate), the printed invoice number and the JSON snapshots of
-- the parties.
pub mod Prelude
pub mod EventCatalog
pub mod Db
pub mod Tx
pub mod Money
pub mod Orders
pub mod Catalog
pub mod Location
pub mod Billing
pub mod Authz
pub mod Platform
pub mod Identity
pub mod Trust
