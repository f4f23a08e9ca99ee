-- ===== src/Lib.antt =====
-- The inventory reservation and order processing service: stock that is reserved for orders, orders
-- that are paid for by a worker, and reservations that expire.
--
-- A request handler or a worker opens a database session, calls a service, which calls the
-- repositories, and commits. What holds of the service is said of that state: the tables as the
-- open transaction sees them and the tables as last committed. The parts and their modules:
--
--   Prelude        names of the libraries, Boolean tests, integers and lists over the native ℕ
--   Table          a database table as a list of rows: SELECT, UPDATE with its rowcount, ORDER BY;
--                  Arranged is about rows that a query meets in another order
--   Models         src/models/*.py and the bodies of src/schemas/order.py and inventory.py
--   Session        src/database.py and src/core: tables, commit, rollback, ids, clock, exceptions
--   Repositories   src/repositories/*.py, a function for each function there: Inventory, Reservation,
--                  Order, Idempotency, Logs (audit, alerts, outbox, dead letters), Catalog
--                  (products, warehouses, users)
--   Services       src/services/*.py: Inventory and Adjustments (inventory_service.py), LowStock,
--                  Payment, Idempotency, Orders.Create and Orders.Cancel (order_service.py), Auth
--                  (with src/bootstrap.py), Catalog (product_service.py, warehouse_service.py); Orders.Bill is
--                  about what an order costs, Orders.Stored about what is stored of it
--   Security       src/core/security.py, over bcrypt and the JWT library as a parameter
--   Workers        src/workers: Processor (order_processor.py), Cleanup (reservation_cleanup.py),
--                  Relay (outbox_relay.py; Round is about what a round claims, hands over and marks)
--   Api            src/api, with the validation of src/schemas and src/middleware/error_handler.py:
--                  Errors, Deps, Requests, Orders, Admin (all other routes) and Health; Server is a
--                  request to its response. Reading and Atomic are about endpoints as transactions,
--                  Gate about who may send which request, Accepted about the bodies of orders,
--                  Pages about the pages of orders, Access about log-in and tokens
--   Frames         what the operations on stock leave alone
--   Stock          what the stock of a product in a warehouse is and how operations move it; Books
--                  has the agreement of the books and the operations on them; Alarm
--                  is about low-stock flags, Level about thresholds, Shelf is an abstract stock that the table
--                  implements, Warehouses about the choice of one
--   Lifecycle      the transactions in any order; Drain is about the clean-up's loop; Replay,
--                  Claimed and Resent are about a request that is sent again with its key, Settles about
--                  repeated deliveries of an order, Statuses about the statuses that an order goes
--                  through, Apart about the transactions that touch neither stock nor orders
--   Migrations     migrations/versions: the two scripts as lists of operations, what each operation
--                  (Ddl) makes of a schema (Apply), and the orders in which they follow each other (Paths)
--   Tests          a small database, and the theorems at work on it
--
-- A transaction is a function from the session to an answer and the session after it, which comes
-- back after a raise too. Services keep the names of the Python functions; a part of a long
-- function has a name of its own and the comment says which part it is. The worker commits in the
-- middle of process_order, so that it is two transactions between which others may run.
--
-- The loop of expire_reservations runs on fuel; each round but the last takes at least one active
-- reservation away, so that more fuel than there are active reservations is enough. All other
-- loops go over lists.
--
-- Identifiers are opaque numbers, and both they and the clock come from streams of which nothing
-- is assumed: an id that is taken already is refused by the primary key. Stored
-- prices are whole cents; the price in the body of a product has its decimal places, and is rounded
-- as the column rounds it. A text that is too long for its VARCHAR is cut off if the rest is spaces.
-- The quantities are natural numbers, as the CHECK constraints have it. compute_request_hash is a
-- parameter, since json.dumps and SHA-256 are library code.
--
-- FastAPI is library code, and so is the validation of e-mail addresses, which puts them into their
-- normal form: a request is what it hands to the endpoint, a constructor with the bearer
-- token, the parsed path and query, and the body with integers as they arrive. It resolves the
-- dependencies, which authorize, before it reports a body that is not valid.
--
-- Not modelled: statements of two open transactions that interleave, with their row locks (one
-- transaction runs at a time); the upper bound of an INTEGER column; the width of the String columns
-- other than the payment token and the reference of an audit entry; the primary keys of the audit,
-- alert, outbox and dead-letter tables; foreign keys; timestamps that no query or answer needs; the order of rows
-- that ORDER BY leaves open, which is that of the list (the theorem on all pages of orders assumes
-- none); the parsing of the settings; most message texts; request ids, logging,
-- Celery, and the polling loop of the outbox relay.
pub mod Prelude
pub mod Table
pub mod Models
pub mod Session
pub mod Security
pub mod Api
pub mod Repositories
pub mod Services
pub mod Workers
pub mod Stock
pub mod Frames
pub mod Lifecycle
pub mod Migrations
pub mod Tests
