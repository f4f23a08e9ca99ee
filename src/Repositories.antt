-- ===== src/Repositories.antt =====
-- src/repositories/*.py: the queries, one module for each repository.
pub mod Inventory
pub mod Reservation
pub mod Logs
pub mod Order
pub mod Catalog
pub mod Idempotency
