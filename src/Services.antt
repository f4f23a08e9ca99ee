-- ===== src/Services.antt =====
-- src/services/*.py: the business logic, one module for each service. What changes stock inside a
-- larger transaction is in `Inventory`, and the endpoint for manual adjustments in `Adjustments`.
pub mod Inventory
pub mod Adjustments
pub mod LowStock
pub mod Payment
pub mod Idempotency
pub mod Orders
pub mod Catalog
pub mod Auth
